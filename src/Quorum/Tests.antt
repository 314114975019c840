-- ===== src/Quorum/Tests.antt =====
-- The reads of src/blockchain/quorum-provider.ts on the answers of three providers, one of which
-- is dishonest.
use Prim.Native.String.{String}
use native.Mathlib.Omega.{arith}
use miradex_client.Prelude.{
  pos, ℕ, ◌≡◌, refl, Bool, true, false, Option, none, some, List, [], ◌∷◌, leb,
}
use miradex_client.Errors.Codes.{ok}
use miradex_client.Quorum.{
  Utxo, HistoryEntry, Settled, fulfilled, rejected, fulfilled_values, same_utxo, same_entry,
  pick_quorum_utxos, pick_quorum_history, pick_quorum_string, pick_accepted, median, sort,
  pick_quorum_number, estimate_fee, near,
}
use miradex_client.Quorum.Counting.{holds, votes}
use miradex_client.Quorum.Agreement.{
  pick_quorum_iff, HonestAnswer, pick_quorum_utxos_honest, IsAgreed, pick_quorum_string-IsAgreed,
}
use miradex_client.Quorum.Median.{
  HonestReport, delivered, pick_quorum_number_honest, estimate_fee_between,
}

abbrev coin : Utxo
coin = record { txid = "a"; vout = 0; value = 5; confirmations = 1; height = none }

abbrev fake : Utxo
fake = record { txid = "b"; vout = 0; value = 9; confirmations = 1; height = none }

abbrev entry : HistoryEntry
entry = record { tx_hash = "a"; height = pos 7 }

abbrev lists : List (Bool × Settled (List Utxo))
lists =
    (true, fulfilled (coin ∷ []))
    ∷ (false, fulfilled (fake ∷ fake ∷ []))
    ∷ (true, fulfilled (coin ∷ []))
    ∷ []

abbrev settled_lists : List (Settled (List Utxo))
settled_lists = fulfilled (coin ∷ []) ∷ fulfilled (fake ∷ fake ∷ []) ∷ fulfilled (coin ∷ []) ∷ []

abbrev heights : List (Bool × Settled (Option ℕ))
heights =
    (true, fulfilled (some 800)) ∷ (false, fulfilled (some 5)) ∷ (true, fulfilled (some 801)) ∷ []

abbrev settled_heights : List (Settled (Option ℕ))
settled_heights = fulfilled (some 800) ∷ fulfilled (some 5) ∷ fulfilled (some 801) ∷ []

abbrev relays : List (Settled String)
relays = rejected ∷ fulfilled "tx" ∷ fulfilled "other" ∷ []

pick_quorum_iff_example :
    ((u : Utxo) (settled : List (Settled (List Utxo)))
      → holds same_utxo u (pick_quorum_utxos 2 settled)
        ≡ leb 2 (votes same_utxo u (fulfilled_values settled)))
    × ((h : HistoryEntry) (settled : List (Settled (List HistoryEntry)))
        → holds same_entry h (pick_quorum_history 2 settled)
          ≡ leb 2 (votes same_entry h (fulfilled_values settled)))
pick_quorum_iff_example = pick_quorum_iff 2 (omega arith)

-- A provider that lists an output twice has one vote.
fake_refused : pick_quorum_utxos 2 settled_lists ≡ coin ∷ []
unfolding pick_quorum_utxos pick_accepted
fake_refused = refl

pick_quorum_utxos_honest_example : HonestAnswer (holds same_utxo coin) lists
pick_quorum_utxos_honest_example =
    pick_quorum_utxos_honest 2 lists coin (omega arith)
      (unfold pick_quorum_utxos pick_accepted in refl)

pick_quorum_string-IsAgreed_example :
    IsAgreed 2
      (fulfilled "x" ∷ fulfilled "y" ∷ fulfilled "x" ∷ [])
      (pick_quorum_string 2 (fulfilled "x" ∷ fulfilled "y" ∷ fulfilled "x" ∷ []))
pick_quorum_string-IsAgreed_example =
    pick_quorum_string-IsAgreed 2 (fulfilled "x" ∷ fulfilled "y" ∷ fulfilled "x" ∷ []) (omega arith)

height_picked : pick_quorum_number 2 settled_heights ≡ ok 800
unfolding pick_quorum_number median sort
height_picked = refl

pick_quorum_number_honest_example : HonestReport (λ v. near 800 v) (delivered heights)
pick_quorum_number_honest_example =
    pick_quorum_number_honest 2 heights 800 (omega arith) height_picked

fee_estimated : estimate_fee settled_heights ≡ ok 800
unfolding estimate_fee median sort
fee_estimated = refl

estimate_fee_between_example :
    HonestReport (leb 800) (delivered heights) × HonestReport (λ v. leb v 800) (delivered heights)
estimate_fee_between_example = estimate_fee_between heights 800 (omega arith) fee_estimated
