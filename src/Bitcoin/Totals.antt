-- ===== src/Bitcoin/Totals.antt =====
-- What a deposit that src/lib/bitcoin/deposit-watcher.ts puts together says of the outputs that a
-- provider lists.
use miradex_client.Prelude.{
  ℕ, ◌≡◌, ◌↔◌, ◌≤◌, true, some, List, [], ◌∷◌, map, arith, All, Any, length, sum_by, ◌==◌,
  Bool-cases, inl, inr,
}
use miradex_client.Errors.Codes.{ok}
use miradex_client.Quorum.{Utxo}
use miradex_client.Bitcoin.{max_deposit_utxos}
use miradex_client.Bitcoin.Deposit.{
  DetectedDeposit, in_mempool, has_unconfirmed, min_confirmations, as_input, aggregate_utxos,
}

-- The deposit is the sum of the outputs, of which there are at most ten, and is not taken for more
-- confirmed than any of them.
pub record IsTotal (utxos : List Utxo) (d : DetectedDeposit) : Type 0 where
  pub few : length utxos ≤ max_deposit_utxos
  pub sum : d.value ≡ sum_by (λ u. u.value) utxos
  pub listed : d.utxos ≡ some (map as_input utxos)
  pub unconfirmed : (d.status ≡ in_mempool) ↔ Any (λ u. u.confirmations ≡ 0) utxos
  pub depth : All (λ u. d.confirmations ≤ u.confirmations) utxos

min_below :
    (u : Utxo) (rest : List Utxo) (n : ℕ)
    → n ≤ min_confirmations u rest
    → All (λ v. n ≤ v.confirmations) (u ∷ rest)
min_below u [] n h = (h, tt)
min_below u (v ∷ rest) n h = (omega arith, min_below v rest n (omega arith))

unconfirmed_iff :
    (utxos : List Utxo) → (has_unconfirmed utxos ≡ true) ↔ Any (λ u. u.confirmations ≡ 0) utxos
unconfirmed_iff [] = (λ h. cc, λ h. absurd h)
unconfirmed_iff (u ∷ rest) = (
  λ h. elim (Bool-cases (u.confirmations == 0)) [
    | inl e ↦ inl (ground arith)
    | inr e ↦ inr ((unconfirmed_iff rest).0 (ground arith))
  ],
  λ h. elim h [
    | inl e ↦ ground arith
    | inr later ↦ let more = (unconfirmed_iff rest).1 later in ground arith
  ],
)

-- Where the outputs that a provider lists make a deposit, it is their sum: see `IsTotal`.
pub aggregate_utxos-IsTotal :
    (utxos : List Utxo) (d : DetectedDeposit) → aggregate_utxos utxos ≡ ok d → IsTotal utxos d
unfolding aggregate_utxos
aggregate_utxos-IsTotal [] d e = absurd (ground arith)
aggregate_utxos-IsTotal (u ∷ rest) d e = record {
  few = ground arith;
  sum = ground arith;
  listed = ground arith;
  unconfirmed = (
    λ h. (unconfirmed_iff (u ∷ rest)).0 (ground arith),
    λ h. let some_one = (unconfirmed_iff (u ∷ rest)).1 h in ground arith,
  );
  depth = min_below u rest d.confirmations (ground arith);
}
