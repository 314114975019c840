-- ===== src/Bitcoin/Listing.antt =====
-- What src/lib/bitcoin/deposit-watcher.ts makes of the answers it looks a deposit up in.
use Prim.Native.String.{String}
use miradex_client.Prelude.{
  ℕ, ◌+◌, ◌*◌, ◌≡◌, ◌<◌, Bool, true, false, some, List, [], ◌∷◌, ◌++◌, arith, length, sum_by,
  sum_by-append, str_eq, if◌then◌else◌,
}
use miradex_client.Errors.Codes.{ok}
use miradex_client.Quorum.{Utxo}
use miradex_client.Bitcoin.{max_deposit_utxos}
use miradex_client.Bitcoin.Deposit.{
  UtxoInput, DetectedDeposit, MempoolVout, MempoolTx, collect_output, collect_outputs,
  collect_mempool, collect_txs, deposit_of_collected, aggregate_utxos, check_deposit_provider,
  check_deposit_mempool, check_deposit, Look,
}

-- The amount that transactions pay to an address.
abbrev pub paid_by_tx : String → List MempoolVout → ℕ
paid_by_tx address outputs =
    sum_by (λ o. if str_eq o.scriptpubkey_address address then o.value else 0) outputs

abbrev pub paid : String → List MempoolTx → ℕ
paid address txs = sum_by (λ tx. paid_by_tx address tx.vout) txs

abbrev worth : List UtxoInput → ℕ
worth utxos = sum_by (λ u. u.value) utxos

output_worth :
    (is_ours : Bool) (txid : String) (c : Bool) (i : ℕ) (o : MempoolVout)
    (found : List UtxoInput × Bool)
    → worth (collect_output is_ours txid c i o found).0
      ≡ worth found.0 + (if is_ours then o.value else 0)
output_worth false txid c i o found = omega arith
output_worth true txid c i o (collected, b) = omega (
  arith,
  sum_by-append (λ u. u.value) collected
      (record { txid = txid; vout = i; value = o.value; height = if c then 1 else 0 } ∷ []),
)

outputs_worth :
    (address txid : String) (c : Bool) (i : ℕ) (outputs : List MempoolVout)
    (found : List UtxoInput × Bool)
    → worth (collect_outputs address txid c i outputs found).0
      ≡ worth found.0 + paid_by_tx address outputs
outputs_worth address txid c i [] found = omega arith
outputs_worth address txid c i (o ∷ rest) found =
    let is_ours = str_eq o.scriptpubkey_address address in
    omega (
      arith,
      outputs_worth address txid c (i + 1) rest (collect_output is_ours txid c i o found),
      output_worth is_ours txid c i o found,
    )

txs_worth :
    (address : String) (txs : List MempoolTx) (found : List UtxoInput × Bool)
    → worth (collect_txs address txs found).0 ≡ worth found.0 + paid address txs
txs_worth address [] found = omega arith
txs_worth address (tx ∷ rest) found =
    let here = collect_outputs address tx.txid tx.is_confirmed 0 tx.vout found in
    omega (
      arith,
      txs_worth address rest here,
      outputs_worth address tx.txid tx.is_confirmed 0 tx.vout found,
    )

mempool_worth :
    (address : String) (txs : List MempoolTx) (found : List UtxoInput × Bool)
    → worth (collect_mempool address txs found).0 ≡ worth found.0 + paid address txs
mempool_worth address [] found = omega arith
mempool_worth address (tx ∷ rest) found =
    let here = collect_outputs address tx.txid false 0 tx.vout found in
    omega
      (arith, mempool_worth address rest here, outputs_worth address tx.txid false 0 tx.vout found)

collected_value :
    (found : List UtxoInput × Bool) (d : DetectedDeposit)
    → deposit_of_collected found ≡ some d
    → d.value ≡ worth found.0
collected_value ([], b) d e = absurd (ground arith)
collected_value (u ∷ rest, b) d e = ground arith

-- The deposit found at mempool.space is worth what the first answer pays to the address and what
-- the second pays. A transaction that is in both is counted twice.
pub check_deposit_mempool-paid :
    (address : String) (mempool_txs txs : List MempoolTx) (d : DetectedDeposit)
    → check_deposit_mempool address (ok mempool_txs) (ok txs) ≡ some d
    → d.value ≡ paid address mempool_txs + paid address txs
unfolding check_deposit_mempool
check_deposit_mempool-paid address mempool_txs txs d e =
    let first = collect_mempool address mempool_txs ([], false) in
    omega (
      arith,
      collected_value (collect_txs address txs first) d e,
      txs_worth address txs first,
      mempool_worth address mempool_txs ([], false),
    )

-- Where the second answer holds the unconfirmed transactions of the first before the confirmed
-- ones, the deposit is worth what the confirmed ones pay to the address and twice what the
-- unconfirmed ones pay.
pub unconfirmed_counts_twice :
    (address : String) (mempool_txs confirmed_txs : List MempoolTx) (d : DetectedDeposit)
    → check_deposit_mempool address (ok mempool_txs) (ok (mempool_txs ++ confirmed_txs)) ≡ some d
    → d.value ≡ 2 * paid address mempool_txs + paid address confirmed_txs
unconfirmed_counts_twice address mempool_txs confirmed_txs d e = omega (
  arith,
  check_deposit_mempool-paid address mempool_txs (mempool_txs ++ confirmed_txs) d e,
  sum_by-append (λ tx. paid_by_tx address tx.vout) mempool_txs confirmed_txs,
)

-- More outputs than the cap of ten at the provider are no error for the caller of `checkDeposit`:
-- the result is the one of mempool.space.
too_many_falls_back :
    (address : String) (l : Look) (utxos : List Utxo)
    → l.listed ≡ ok utxos
    → max_deposit_utxos < length utxos
    → check_deposit address true l ≡ check_deposit_mempool address l.mempool_answer l.txs_answer
unfolding check_deposit check_deposit_provider aggregate_utxos
too_many_falls_back address l [] e h = absurd (omega arith)
too_many_falls_back address l (u ∷ rest) e h = ground arith
