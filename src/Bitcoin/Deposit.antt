-- ===== src/Bitcoin/Deposit.antt =====
-- src/lib/bitcoin/deposit-watcher.ts: what was paid to the deposit address. A provider is first
-- asked, mempool.space is the fallback. Requests are values: an answer, or an exception.
use Prim.Native.String.{String}
use miradex_client.Prelude.{
  ℕ, ◌+◌, Bool, true, false, not, ◌||◌, Option, none, some, List, [], ◌∷◌, ◌++◌, map, min, ltb,
  ◌==◌, str_eq, if◌then◌else◌, length, any, sum_by,
}
use miradex_client.Errors.Codes.{
  Result, ok, err, verification_error, plain_error, e_deposit_too_many_utxos,
}
use miradex_client.Protocol.{or_value}
use miradex_client.Quorum.{Utxo}
use miradex_client.Bitcoin.{max_deposit_utxos}

pub record UtxoInput : Type 0 where
  pub txid : String
  pub vout : ℕ
  pub value : ℕ
  pub height : ℕ

pub data DepositStatus : Type 0 where
  in_mempool confirmed : DepositStatus

pub record DetectedDeposit : Type 0 where
  pub txid : String
  pub vout : ℕ
  pub value : ℕ
  pub confirmations : ℕ
  pub status : DepositStatus
  pub utxos : Option (List UtxoInput)

pub record MempoolVout : Type 0 where
  pub scriptpubkey_address : String
  pub value : ℕ

pub record MempoolTx : Type 0 where
  pub txid : String
  pub vout : List MempoolVout
  pub is_confirmed : Bool

-- `u.confirmations === 0` of some one
abbrev pub has_unconfirmed : List Utxo → Bool
has_unconfirmed utxos = any (λ u. u.confirmations == 0) utxos

-- `Math.min(...)` of the confirmations
abbrev pub min_confirmations : Utxo → List Utxo → ℕ
min_confirmations u [] = u.confirmations
min_confirmations u (v ∷ rest) = min u.confirmations (min_confirmations v rest)

abbrev pub as_input : Utxo → UtxoInput
as_input u = record { txid = u.txid; vout = u.vout; value = u.value; height = or_value u.height 0 }

unfoldable pub aggregate_utxos : List Utxo → Result DetectedDeposit
aggregate_utxos [] = err plain_error
aggregate_utxos (primary ∷ rest) =
    let utxos = primary ∷ rest in
    if ltb max_deposit_utxos (length utxos)
    then err (verification_error e_deposit_too_many_utxos)
    else ok (record {
      txid = primary.txid;
      vout = primary.vout;
      value = sum_by (λ u. u.value) utxos;
      confirmations = if has_unconfirmed utxos then 0 else min_confirmations primary rest;
      status = if has_unconfirmed utxos then in_mempool else confirmed;
      utxos = some (map as_input utxos);
    })

-- A null or an exception of the provider are one: the mempool is asked next.
unfoldable pub check_deposit_provider : Result (List Utxo) → Option DetectedDeposit
check_deposit_provider (err e) = none
check_deposit_provider (ok []) = none
check_deposit_provider (ok (primary ∷ rest)) = elim (aggregate_utxos (primary ∷ rest)) [
  | ok d ↦ some d
  | err e ↦ none
]

abbrev pub collect_output :
    (is_ours : Bool) (txid : String) (is_confirmed : Bool) (i : ℕ)
    → MempoolVout
    → List UtxoInput × Bool
    → List UtxoInput × Bool
collect_output false txid is_confirmed i o found = found
collect_output true txid is_confirmed i o (collected, has_mempool) = (
  collected
      ++ (record { txid = txid; vout = i; value = o.value; height = if is_confirmed then 1 else 0 }
          ∷ []),
  has_mempool || not is_confirmed,
)

-- The outputs of one transaction to the address, after those collected before, and whether any of
-- them is unconfirmed; `i` is the index of the first output.
abbrev pub collect_outputs :
    (address txid : String) (is_confirmed : Bool) (i : ℕ)
    → List MempoolVout
    → List UtxoInput × Bool
    → List UtxoInput × Bool
collect_outputs address txid is_confirmed i [] found = found
collect_outputs address txid is_confirmed i (o ∷ rest) found =
    collect_outputs address txid is_confirmed (i + 1) rest
      (collect_output (str_eq o.scriptpubkey_address address) txid is_confirmed i o found)

-- The loop over the answer of `/txs/mempool`, which takes each for unconfirmed, and the loop over
-- the answer of `/txs`.
abbrev pub collect_mempool : String → List MempoolTx → List UtxoInput × Bool → List UtxoInput × Bool
collect_mempool address [] found = found
collect_mempool address (tx ∷ rest) found =
    collect_mempool address rest (collect_outputs address tx.txid false 0 tx.vout found)

abbrev pub collect_txs : String → List MempoolTx → List UtxoInput × Bool → List UtxoInput × Bool
collect_txs address [] found = found
collect_txs address (tx ∷ rest) found =
    collect_txs address rest (collect_outputs address tx.txid tx.is_confirmed 0 tx.vout found)

abbrev pub deposit_of_collected : List UtxoInput × Bool → Option DetectedDeposit
deposit_of_collected ([], has_mempool) = none
deposit_of_collected (primary ∷ rest, has_mempool) = some (record {
  txid = primary.txid;
  vout = primary.vout;
  value = sum_by (λ u. u.value) (primary ∷ rest);
  confirmations = if has_mempool then 0 else 1;
  status = if has_mempool then in_mempool else confirmed;
  utxos = some (primary ∷ rest);
})

unfoldable pub check_deposit_mempool :
    (address : String) (mempool_answer txs_answer : Result (List MempoolTx))
    → Option DetectedDeposit
check_deposit_mempool address (ok mempool_txs) (ok txs) =
    deposit_of_collected (collect_txs address txs (collect_mempool address mempool_txs ([], false)))
check_deposit_mempool address (ok mempool_txs) (err e) = none
check_deposit_mempool address (err e) txs_answer = none

-- What the network answers to one look for the deposit.
pub record Look : Type 0 where
  pub aborted : Bool
  pub listed : Result (List Utxo)
  pub mempool_answer : Result (List MempoolTx)
  pub txs_answer : Result (List MempoolTx)

unfoldable pub check_deposit :
    (address : String) (has_provider : Bool) → Look → Option DetectedDeposit
check_deposit address false l = check_deposit_mempool address l.mempool_answer l.txs_answer
check_deposit address true l = elim (check_deposit_provider l.listed) [
  | some d ↦ some d
  | none ↦ check_deposit_mempool address l.mempool_answer l.txs_answer
]

-- What the provider's list leads `watchForDeposit` to: the deposit, or one of the two ways to go on.
abbrev pub provider_answered :
    Result (List Utxo)
    → (with_provider without : Option (Result DetectedDeposit)) → Option (Result DetectedDeposit)
provider_answered (err e) with_provider without = without
provider_answered (ok []) with_provider without = with_provider
provider_answered (ok (primary ∷ others)) with_provider without =
    elim (aggregate_utxos (primary ∷ others)) [ ok d ↦ some (ok d) | err e ↦ without ]

-- The loop `watchForDeposit`, for an address that decodes, over what the network answers to each
-- look; none where the looks end before the loop. A provider that fails is not asked again.
unfoldable pub watch_for_deposit :
    (address : String) (has_provider : Bool) → List Look → Option (Result DetectedDeposit)
watch_for_deposit address has_provider [] = none
watch_for_deposit address false (l ∷ rest) =
    let later = watch_for_deposit address false rest in
    if l.aborted
    then some (err plain_error)
    else elim (check_deposit_mempool address l.mempool_answer l.txs_answer) [
      | some d ↦ some (ok d)
      | none ↦ later
    ]
watch_for_deposit address true (l ∷ rest) =
    let with_provider = watch_for_deposit address true rest in
    let without = watch_for_deposit address false rest in
    if l.aborted then some (err plain_error) else provider_answered l.listed with_provider without
