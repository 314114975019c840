-- ===== src/Bitcoin/Watching.antt =====
-- What `watchForDeposit` of src/lib/bitcoin/deposit-watcher.ts returns.
use Prim.Native.String.{String}
use miradex_client.Prelude.{
  ◌≡◌, refl, ◌⊎◌, inl, inr, Bool, true, false, Option, none, some, List, [], ◌∷◌, arith, Any,
  if◌then◌else◌,
}
use miradex_client.Errors.Codes.{Result, ok, err, plain_error}
use miradex_client.Quorum.{Utxo}
use miradex_client.Bitcoin.Deposit.{
  DetectedDeposit, aggregate_utxos, check_deposit_mempool, Look, provider_answered,
  watch_for_deposit,
}

-- A look, not aborted, at which the deposit is the one of the provider's list, or of mempool.space.
abbrev pub Shows : String → DetectedDeposit → Look → Type 0
Shows address d l =
    (l.aborted ≡ false)
    × (((utxos : List Utxo) × (l.listed ≡ ok utxos) × (aggregate_utxos utxos ≡ ok d))
        ⊎ (check_deposit_mempool address l.mempool_answer l.txs_answer ≡ some d))

without_provider :
    (address : String) (l : Look) (later : Option (Result DetectedDeposit)) (d : DetectedDeposit)
    (o : Option DetectedDeposit)
    → check_deposit_mempool address l.mempool_answer l.txs_answer ≡ o
    → (if l.aborted
        then some (err plain_error)
        else elim o as (λ _. Option (Result DetectedDeposit)) [
          | some x ↦ some (ok x)
          | none ↦ later
        ])
      ≡ some (ok d)
    → Shows address d l ⊎ (later ≡ some (ok d))
without_provider address l later d none f e = inr (ground arith)
without_provider address l later d (some x) f e = inl (ground arith, inr (ground arith))

provider_answered_cases :
    (r : Result (List Utxo)) (with_provider without : Option (Result DetectedDeposit))
    (d : DetectedDeposit)
    → provider_answered r with_provider without ≡ some (ok d)
    → ((utxos : List Utxo) × (r ≡ ok utxos) × (aggregate_utxos utxos ≡ ok d))
      ⊎ ((with_provider ≡ some (ok d)) ⊎ (without ≡ some (ok d)))
provider_answered_cases (err x) with_provider without d e = inr (inr e)
provider_answered_cases (ok []) with_provider without d e = inr (inl e)
provider_answered_cases (ok (u ∷ us)) with_provider without d e =
    at_total (aggregate_utxos (u ∷ us)) refl
  where
    at_total :
        (t : Result DetectedDeposit)
        → aggregate_utxos (u ∷ us) ≡ t
        → ((utxos : List Utxo) × (ok (u ∷ us) ≡ ok utxos) × (aggregate_utxos utxos ≡ ok d))
          ⊎ ((with_provider ≡ some (ok d)) ⊎ (without ≡ some (ok d)))
    at_total (ok x) f = inl (u ∷ us, refl, ground arith)
    at_total (err x) f = inr (inr (ground arith))

with_provider_at :
    (l : Look) (with_provider without : Option (Result DetectedDeposit)) (d : DetectedDeposit)
    (r : Result (List Utxo))
    → l.listed ≡ r
    → (if l.aborted then some (err plain_error) else provider_answered r with_provider without)
      ≡ some (ok d)
    → (l.aborted ≡ false) × (provider_answered l.listed with_provider without ≡ some (ok d))
with_provider_at l with_provider without d r f e = (ground arith, ground arith)

-- A deposit that the watch returns was there at one of the looks, which was not aborted: it is the
-- one of the provider's list, or of mempool.space (see `Shows`).
pub watch_for_deposit-Shows :
    (address : String) (has_provider : Bool) (looks : List Look) (d : DetectedDeposit)
    → watch_for_deposit address has_provider looks ≡ some (ok d)
    → Any (Shows address d) looks
unfolding watch_for_deposit
watch_for_deposit-Shows address has_provider [] d e = absurd (ground arith)
watch_for_deposit-Shows address false (l ∷ rest) d e =
    elim (without_provider address l (watch_for_deposit address false rest) d
      (check_deposit_mempool address l.mempool_answer l.txs_answer) refl e) [
        | inl here ↦ inl here
        | inr later ↦ inr (watch_for_deposit-Shows address false rest d later)
      ]
watch_for_deposit-Shows address true (l ∷ rest) d e =
    let with_provider = watch_for_deposit address true rest in
    let without = watch_for_deposit address false rest in
    let (awake, given) = with_provider_at l with_provider without d l.listed refl e in
    elim (provider_answered_cases l.listed with_provider without d given) [
      | inl here ↦ inl (awake, inl here)
      | inr (inl later) ↦ inr (watch_for_deposit-Shows address true rest d later)
      | inr (inr later) ↦ inr (watch_for_deposit-Shows address false rest d later)
    ]
