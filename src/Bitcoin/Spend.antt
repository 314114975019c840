-- ===== src/Bitcoin/Spend.antt =====
-- src/lib/bitcoin/sweep.ts, wallet.ts, and the amount that src/atomic-swap/run.ts asks to swap:
-- the transactions that spend a deposit. A transaction is its inputs and its one output; the
-- signing of it, and the test that an address is one of the network, are parameters.
use Prim.Native.String.{String}
use miradex_client.Prelude.{
  ℕ, ◌+◌, ◌-◌, ◌*◌, Bool, not, Option, none, some, List, [], ◌∷◌, map, ltb, leb, str_eq,
  if◌then◌else◌, length, sum_by,
}
use miradex_client.Errors.Codes.{
  Result, ok, err, verification_error, plain_error, e_deposit_too_many_utxos, e_dest_addr_invalid,
  e_sweep_dust,
}
use miradex_client.Quorum.{Utxo}
use miradex_client.Bitcoin.{max_deposit_utxos, p2wpkh_dust_sats}
use miradex_client.Bitcoin.Deposit.{
  UtxoInput, DetectedDeposit, in_mempool, confirmed, has_unconfirmed, as_input,
}
use miradex_client.Bitcoin.Fees.{LockTxFee}

pub record SweepEstimate : Type 0 where
  pub send_sats : ℕ
  pub fee_sats : ℕ
  pub fee_rate : ℕ
  pub dest_address : String
  pub from_address : String

pub record TxInput : Type 0 where
  pub hash : String
  pub index : ℕ
  pub value : ℕ

pub record Tx : Type 0 where
  pub inputs : List TxInput
  pub address : String
  pub value : ℕ

unfoldable pub estimate_sweep_vbytes : ℕ → ℕ
estimate_sweep_vbytes input_count = 68 * input_count + 42

abbrev pub input_count : DetectedDeposit → ℕ
input_count d = elim d.utxos [ some utxos ↦ length utxos | none ↦ 1 ]

unfoldable pub estimate_sweep :
    LockTxFee → DetectedDeposit → (from_address dest_address : String) → Result SweepEstimate
estimate_sweep fee d from_address dest_address =
    let fee_sats = estimate_sweep_vbytes (input_count d) * fee.fee_rate in
    if leb d.value fee_sats
    then err plain_error
    else ok (record {
      send_sats = d.value - fee_sats;
      fee_sats = fee_sats;
      fee_rate = fee.fee_rate;
      dest_address = dest_address;
      from_address = from_address;
    })

abbrev pub tx_input : UtxoInput → TxInput
tx_input u = record { hash = u.txid; index = u.vout; value = u.value }

-- `deposit.utxos ?? [deposit]`
abbrev pub sweep_inputs : DetectedDeposit → List TxInput
sweep_inputs d = elim d.utxos [
  | some utxos ↦ map tx_input utxos
  | none ↦ record { hash = d.txid; index = d.vout; value = d.value } ∷ []
]

-- Up to the signing.
unfoldable pub build_sweep_tx :
    (is_address : String → Bool)
    → DetectedDeposit
    → (dest_address : String) (send_sats : ℕ) → Result Tx
build_sweep_tx is_address d dest_address send_sats =
    if not (is_address dest_address)
    then err (verification_error e_dest_addr_invalid)
    else if ltb max_deposit_utxos (length (sweep_inputs d))
    then err (verification_error e_deposit_too_many_utxos)
    else if ltb send_sats p2wpkh_dust_sats
    then err (verification_error e_sweep_dust)
    else ok (record { inputs = sweep_inputs d; address = dest_address; value = send_sats })

-- `buildUnsignedFundingPsbt`, up to the encoding.
unfoldable pub build_unsigned_funding :
    (is_address : String → Bool)
    → List UtxoInput
    → (lock_address : String) → (lock_amount_sats : Option ℕ) → Result Tx
build_unsigned_funding is_address [] lock_address lock_amount_sats = err plain_error
build_unsigned_funding is_address (u ∷ rest) lock_address lock_amount_sats =
    let total = sum_by (λ v. v.value) (u ∷ rest) in
    let output_sats : ℕ = elim lock_amount_sats [
      | some n ↦ if ltb 0 n then n else total
      | none ↦ total
    ] in
    if not (is_address lock_address)
    then err (verification_error e_dest_addr_invalid)
    else ok
        (record { inputs = map tx_input (u ∷ rest); address = lock_address; value = output_sats })

-- `swapSats` of `runAtomicSwap`
unfoldable pub swap_sats : DetectedDeposit → LockTxFee → Result ℕ
swap_sats d fee = if leb d.value fee.fee_sats then err plain_error else ok (d.value - fee.fee_sats)

-- `broadcastSweep`: an empty txid of the provider counts as a failure.
unfoldable pub broadcast_sweep :
    (provider : Option (Result String)) (mempool : Result String) → Result String
broadcast_sweep none mempool = mempool
broadcast_sweep (some (err e)) mempool = mempool
broadcast_sweep (some (ok txid)) mempool = if str_eq txid "" then mempool else ok txid

-- `reduce((best, u) => (u.value > best.value ? u : best))`
abbrev pub best_from : Utxo → List Utxo → Utxo
best_from best [] = best
best_from best (u ∷ rest) = best_from (if ltb best.value u.value then u else best) rest

unfoldable pub pick_primary_utxo : List Utxo → Option Utxo
pick_primary_utxo [] = none
pick_primary_utxo (u ∷ rest) = some (best_from u rest)

unfoldable pub aggregate_utxos_as_deposit : List Utxo → Result (Option DetectedDeposit)
aggregate_utxos_as_deposit [] = ok none
aggregate_utxos_as_deposit (u ∷ rest) =
    let utxos = u ∷ rest in
    if ltb max_deposit_utxos (length utxos)
    then err (verification_error e_deposit_too_many_utxos)
    else elim (pick_primary_utxo utxos) [
      | none ↦ ok none
      | some primary ↦ ok (
          some (record {
            txid = primary.txid;
            vout = primary.vout;
            value = sum_by (λ v. v.value) utxos;
            confirmations = if has_unconfirmed utxos then 0 else 1;
            status = if has_unconfirmed utxos then in_mempool else confirmed;
            utxos = some (map as_input utxos);
          }))
    ]

-- `listConfirmedUtxos`: nothing without a provider, or where it fails.
unfoldable pub list_confirmed_utxos : Option (Result (List Utxo)) → List Utxo
list_confirmed_utxos none = []
list_confirmed_utxos (some (err e)) = []
list_confirmed_utxos (some (ok utxos)) = utxos

unfoldable pub fetch_utxo : Option (Result (List Utxo)) → Option DetectedDeposit
fetch_utxo provider = elim (aggregate_utxos_as_deposit (list_confirmed_utxos provider)) [
  | ok d ↦ d
  | err e ↦ none
]
