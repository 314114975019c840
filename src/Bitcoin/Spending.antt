-- ===== src/Bitcoin/Spending.antt =====
-- The transactions of src/lib/bitcoin that spend a deposit: what goes in and what comes out.
use Prim.Native.String.{String}
use miradex_client.Prelude.{
  ℕ, ◌+◌, ◌*◌, ◌≡◌, refl, ◌∙◌, ◌≤◌, ◌<◌, ◌⊎◌, inl, inr, Bool, true, false, Option, some, List, [],
  ◌∷◌, map, arith, All, Any, length, sum_by, ltb, if◌then◌else◌,
}
use mathlib.Core.Path.{subst}
use native.Mathlib.Nat.{mul-le-mul_right}
use miradex_client.Errors.Codes.{Result, ok}
use miradex_client.Quorum.{Utxo}
use miradex_client.Bitcoin.{Network, max_deposit_utxos, p2wpkh_dust_sats}
use miradex_client.Bitcoin.Deposit.{UtxoInput, DetectedDeposit, as_input, aggregate_utxos}
use miradex_client.Bitcoin.Totals.{aggregate_utxos-IsTotal}
use miradex_client.Bitcoin.Fees.{LockTxFee, ProviderRate, priced, estimate_lock_tx_fee}
use miradex_client.Bitcoin.FeeBounds.{priced-IsAffordable}
use miradex_client.Bitcoin.Spend.{
  SweepEstimate, Tx, estimate_sweep_vbytes, estimate_sweep, tx_input, build_sweep_tx,
  build_unsigned_funding, swap_sats, best_from, pick_primary_utxo, aggregate_utxos_as_deposit,
}

choice_above :
    (best u x : Utxo)
    → (if ltb best.value u.value then u else best).value ≤ x.value
    → (best.value ≤ x.value) × (u.value ≤ x.value)
choice_above best u x h = ground arith

choice_among : (best u x : Utxo) (b : Bool) → (if b then u else best) ≡ x → (best ≡ x) ⊎ (u ≡ x)
choice_among best u x true e = inr e
choice_among best u x false e = inl e

best_above :
    (best : Utxo) (rest : List Utxo)
    → All (λ u. u.value ≤ (best_from best rest).value) (best ∷ rest)
best_above best [] = (omega arith, tt)
best_above best (u ∷ rest) =
    let chosen : Utxo = if ltb best.value u.value then u else best in
    let (here, there) = best_above chosen rest in
    let (left, right) = choice_above best u (best_from chosen rest) here in (left, (right, there))

best_among : (best : Utxo) (rest : List Utxo) → Any (λ u. u ≡ best_from best rest) (best ∷ rest)
best_among best [] = inl refl
best_among best (u ∷ rest) =
    let chosen : Utxo = if ltb best.value u.value then u else best in
    elim (best_among chosen rest) [
      | inl e ↦ elim (choice_among best u (best_from chosen rest) (ltb best.value u.value) e) [
        | inl f ↦ inl f
        | inr f ↦ inr (inl f)
      ]
      | inr later ↦ inr (inr later)
    ]

-- The primary output of a wallet is one of its outputs, and none is worth more.
pub pick_primary_utxo-best :
    (utxos : List Utxo) (u : Utxo)
    → pick_primary_utxo utxos ≡ some u
    → Any (λ v. v ≡ u) utxos × All (λ v. v.value ≤ u.value) utxos
unfolding pick_primary_utxo
pick_primary_utxo-best [] u e = absurd (ground arith)
pick_primary_utxo-best (v ∷ rest) u e =
    subst (λ x. Any (λ w. w ≡ x) (v ∷ rest) × All (λ w. w.value ≤ x.value) (v ∷ rest))
      (ground (arith, e)) (best_among v rest, best_above v rest)

inputs_worth :
    (utxos : List Utxo)
    → sum_by (λ i. i.value) (map tx_input (map as_input utxos)) ≡ sum_by (λ u. u.value) utxos
inputs_worth [] = refl
inputs_worth (u ∷ rest) = omega (arith, inputs_worth rest)

length-tx_input : (us : List UtxoInput) → length (map tx_input us) ≡ length us
length-tx_input [] = refl
length-tx_input (u ∷ rest) = omega (arith, length-tx_input rest)

length-as_input : (us : List Utxo) → length (map as_input us) ≡ length us
length-as_input [] = refl
length-as_input (u ∷ rest) = omega (arith, length-as_input rest)

aggregated_inputs :
    (utxos : List Utxo) (d : DetectedDeposit)
    → aggregate_utxos_as_deposit utxos ≡ ok (some d)
    → (d.value ≡ sum_by (λ u. u.value) utxos) × (d.utxos ≡ some (map as_input utxos))
unfolding aggregate_utxos_as_deposit pick_primary_utxo
aggregated_inputs [] d e = absurd (ground arith)
aggregated_inputs (u ∷ rest) d e = ground arith

-- What a sweep is: all outputs of the wallet go in, their worth is the amount sent and the fee,
-- the amount is above the dust, and there are at most ten inputs.
pub record IsSweep (utxos : List Utxo) (e : SweepEstimate) (tx : Tx) : Type 0 where
  pub inputs : tx.inputs ≡ map tx_input (map as_input utxos)
  pub few : length tx.inputs ≤ max_deposit_utxos
  pub balance : sum_by (λ i. i.value) tx.inputs ≡ tx.value + e.fee_sats
  pub fee : e.fee_sats ≡ estimate_sweep_vbytes (length tx.inputs) * e.fee_rate
  pub dust : p2wpkh_dust_sats ≤ tx.value

-- A wallet that is put together as a deposit, estimated, and built into a sweep of the estimated
-- amount: the transaction spends all its outputs and loses nothing but the estimated fee. See
-- `IsSweep`.
pub build_sweep_tx-IsSweep :
    (is_address : String → Bool) (utxos : List Utxo) (d : DetectedDeposit) (fee : LockTxFee)
    (from_address dest_address : String) (e : SweepEstimate) (tx : Tx)
    → aggregate_utxos_as_deposit utxos ≡ ok (some d)
    → estimate_sweep fee d from_address dest_address ≡ ok e
    → build_sweep_tx is_address d dest_address e.send_sats ≡ ok tx
    → IsSweep utxos e tx
unfolding estimate_sweep build_sweep_tx
build_sweep_tx-IsSweep is_address utxos d fee from_address dest_address e tx h k b =
    let total = aggregated_inputs utxos d h in
    record {
      inputs = ground (arith, total);
      few = ground (arith, total);
      balance = ground (arith, total, inputs_worth utxos);
      fee = ground (arith, total, length-tx_input (map as_input utxos));
      dust = ground arith;
    }

-- A deposit of two outputs or more, locked whole less the fee that was estimated for the lock
-- transaction: it pays that fee, which by the estimate of `estimateSweepVbytes` for its number of
-- inputs is less than the estimated rate asks for.
pub lock_fee_ignores_inputs :
    (is_address : String → Bool) (utxos : List Utxo) (d : DetectedDeposit)
    (provider : Option (Result ProviderRate)) (mempool : Result ℕ) (network : Network)
    (fee : LockTxFee) (lock_address : String) (sats : ℕ) (tx : Tx)
    → aggregate_utxos utxos ≡ ok d
    → 2 ≤ length utxos
    → estimate_lock_tx_fee provider mempool network ≡ priced fee
    → swap_sats d fee ≡ ok sats
    → build_unsigned_funding is_address (map as_input utxos) lock_address (some sats) ≡ ok tx
    → (sum_by (λ i. i.value) tx.inputs ≡ tx.value + fee.fee_sats)
      × (fee.fee_sats < estimate_sweep_vbytes (length tx.inputs) * fee.fee_rate)
unfolding swap_sats build_unsigned_funding estimate_sweep_vbytes
lock_fee_ignores_inputs is_address [] d provider mempool network fee lock_address sats tx a n
      priced_at s b =
    absurd (omega arith)
lock_fee_ignores_inputs is_address (u ∷ rest) d provider mempool network fee lock_address sats tx a
      n priced_at s b =
    let bounds = priced-IsAffordable provider mempool network fee priced_at in
    let total = aggregate_utxos-IsTotal (u ∷ rest) d a in
    let inputs : tx.inputs ≡ map tx_input (map as_input (u ∷ rest)) = ground arith in
    let counted : length tx.inputs ≡ length (u ∷ rest) =
      rw inputs (length-tx_input (map as_input (u ∷ rest)) ∙ length-as_input (u ∷ rest)) in
    let size : 178 ≤ 68 * length tx.inputs + 42 = omega arith in
    (
      ground (arith, inputs, total.sum, inputs_worth (u ∷ rest)),
      omega (arith, bounds.floor, bounds.total, mul-le-mul_right fee.fee_rate size),
    )
