-- ===== src/Bitcoin/Tests.antt =====
-- Deposits, fees and sweeps of src/lib/bitcoin on sample outputs.
use Prim.Native.String.{String}
use native.Mathlib.Omega.{arith}
use miradex_client.Prelude.{
  ℕ, ◌+◌, ◌*◌, ◌≡◌, refl, ◌<◌, Bool, true, false, none, some, List, [], ◌∷◌, ◌++◌, map, length,
  sum_by,
}
use miradex_client.Errors.Codes.{ok, err, plain_error}
use miradex_client.Quorum.{Utxo}
use miradex_client.Bitcoin.{mainnet}
use miradex_client.Bitcoin.Deposit.{
  DetectedDeposit, MempoolTx, in_mempool, as_input, aggregate_utxos, check_deposit_mempool, Look,
  watch_for_deposit,
}
use miradex_client.Bitcoin.Fees.{
  sats_per_kb, not_a_number, unpriced, estimate_fee_provider, LockTxFee, apply_fee_policy,
  estimate_fee_mempool, estimate_lock_tx_fee,
}
use miradex_client.Bitcoin.Spend.{
  SweepEstimate, Tx, tx_input, estimate_sweep_vbytes, estimate_sweep, build_sweep_tx,
  build_unsigned_funding, swap_sats, pick_primary_utxo, aggregate_utxos_as_deposit,
}
use miradex_client.Bitcoin.Totals.{IsTotal, aggregate_utxos-IsTotal}
use miradex_client.Bitcoin.Listing.{paid, unconfirmed_counts_twice}
use miradex_client.Bitcoin.FeeBounds.{IsPriced, estimate_lock_tx_fee-IsPriced}
use miradex_client.Bitcoin.Spending.{IsSweep, build_sweep_tx-IsSweep, lock_fee_ignores_inputs}

abbrev coin : (txid : String) → ℕ → ℕ → Utxo
coin txid value confirmations = record {
  txid = txid;
  vout = 0;
  value = value;
  confirmations = confirmations;
  height = none;
}

abbrev wallet : List Utxo
wallet = coin "a" 20000 3 ∷ coin "b" 30000 0 ∷ []

abbrev deposit : DetectedDeposit
deposit = record {
  txid = "a";
  vout = 0;
  value = 50000;
  confirmations = 0;
  status = in_mempool;
  utxos = some (map as_input wallet);
}

aggregated : aggregate_utxos wallet ≡ ok deposit
unfolding aggregate_utxos
aggregated = refl

aggregate_utxos-IsTotal_example : IsTotal wallet deposit
aggregate_utxos-IsTotal_example = aggregate_utxos-IsTotal wallet deposit aggregated

estimate_lock_tx_fee-IsPriced_example :
    IsPriced mainnet (estimate_lock_tx_fee (some (ok (sats_per_kb 20000))) (ok 20) mainnet)
estimate_lock_tx_fee-IsPriced_example =
    estimate_lock_tx_fee-IsPriced (some (ok (sats_per_kb 20000))) (ok 20) mainnet refl

nan_unpriced : estimate_lock_tx_fee (some (ok not_a_number)) (ok 20) mainnet ≡ unpriced
unfolding estimate_lock_tx_fee estimate_fee_provider
nan_unpriced = refl

abbrev fee : LockTxFee
fee = record { fee_sats = 1300; fee_rate = 10 }

abbrev swept : DetectedDeposit
swept = record deposit { txid = "b" }

abbrev estimate : SweepEstimate
estimate = record {
  send_sats = 48220;
  fee_sats = 1780;
  fee_rate = 10;
  dest_address = "dest";
  from_address = "from";
}

abbrev sweep_tx : Tx
sweep_tx = record { inputs = map tx_input (map as_input wallet); address = "dest"; value = 48220 }

build_sweep_tx-IsSweep_example : IsSweep wallet estimate sweep_tx
build_sweep_tx-IsSweep_example =
    build_sweep_tx-IsSweep (λ address. true) wallet swept fee "from" "dest" estimate sweep_tx
      (unfold aggregate_utxos_as_deposit pick_primary_utxo in refl)
      (unfold estimate_sweep estimate_sweep_vbytes in refl) (unfold build_sweep_tx in refl)

abbrev lock_tx : Tx
lock_tx = record { inputs = map tx_input (map as_input wallet); address = "lock"; value = 46750 }

lock_fee_ignores_inputs_example :
    (sum_by (λ i. i.value) lock_tx.inputs ≡ lock_tx.value + 3250)
    × (3250 < estimate_sweep_vbytes (length lock_tx.inputs) * 25)
lock_fee_ignores_inputs_example =
    lock_fee_ignores_inputs (λ address. true) wallet deposit none (ok 20) mainnet
      (record { fee_sats = 3250; fee_rate = 25 }) "lock" 46750 lock_tx aggregated (omega arith)
      (unfold estimate_lock_tx_fee estimate_fee_mempool apply_fee_policy in refl)
      (unfold swap_sats in refl) (unfold build_unsigned_funding in refl)

abbrev tx_of : (txid : String) → ℕ → Bool → MempoolTx
tx_of txid value is_confirmed = record {
  txid = txid;
  vout = record { scriptpubkey_address = "me"; value = value } ∷ [];
  is_confirmed = is_confirmed;
}

abbrev fresh : List MempoolTx
fresh = tx_of "c" 70 false ∷ []

abbrev old : List MempoolTx
old = tx_of "d" 5 true ∷ []

abbrev doubled : DetectedDeposit
doubled = record {
  txid = "c";
  vout = 0;
  value = 145;
  confirmations = 0;
  status = in_mempool;
  utxos = some (
      record { txid = "c"; vout = 0; value = 70; height = 0 }
      ∷ record { txid = "c"; vout = 0; value = 70; height = 0 }
      ∷ record { txid = "d"; vout = 0; value = 5; height = 1 }
      ∷ []);
}

found_twice : check_deposit_mempool "me" (ok fresh) (ok (fresh ++ old)) ≡ some doubled
unfolding check_deposit_mempool
found_twice = refl

unconfirmed_counts_twice_example : 145 ≡ 2 * paid "me" fresh + paid "me" old
unconfirmed_counts_twice_example = unconfirmed_counts_twice "me" fresh old doubled found_twice

abbrev eleven : List Utxo
eleven =
    coin "a" 1 1
    ∷ coin "b" 1 1
    ∷ coin "c" 1 1
    ∷ coin "d" 1 1
    ∷ coin "e" 1 1
    ∷ coin "f" 1 1
    ∷ coin "g" 1 1
    ∷ coin "h" 1 1
    ∷ coin "i" 1 1
    ∷ coin "j" 1 1
    ∷ coin "k" 1 1
    ∷ []

abbrev stormy : Look
stormy = record { aborted = false; listed = ok eleven; mempool_answer = ok []; txs_answer = ok old }

-- The provider fails, mempool.space has nothing, and then the deposit.
abbrev looks : List Look
looks =
    record { aborted = false; listed = err plain_error; mempool_answer = ok []; txs_answer = ok [] }
    ∷ record { aborted = false; listed = ok wallet; mempool_answer = ok []; txs_answer = ok [] }
    ∷ record {
      aborted = false;
      listed = ok [];
      mempool_answer = ok fresh;
      txs_answer = ok (fresh ++ old);
    }
    ∷ []

watched : watch_for_deposit "me" true looks ≡ some (ok doubled)
unfolding watch_for_deposit check_deposit_mempool
watched = refl
