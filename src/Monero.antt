-- ===== src/Monero.antt =====
-- src/lib/monero/rpc.ts: a transaction is fetched from nodes, one after the other or as one that a
-- quorum of them agrees on. A node is what it answers to the request, or an exception. The texts
-- that `JSON.stringify` makes of a transaction's fields are compared as the fields, in one order.
pub mod Scalars
pub mod Scanner
pub mod Lock
pub mod Sweep
pub mod Agreement
pub mod Secret
pub mod Locked
pub mod Sweeping
pub mod Recovered
mod Tests
use miradex_client.Prelude.{
  get_or, ◌/◌, ℕ, Bool, true, false, not, ◌&&◌, Option, none, some, List, [], ◌∷◌, ◌++◌, map, leb,
  ltb, ◌==◌, length, if◌then◌else◌,
}
use miradex_client.Errors.Codes.{Result, ok, err, plain_error, verification_error, e_monero_quorum}
use miradex_client.Presign.{◌>>=◌}
use miradex_client.Quorum.{sort, finite_values}
use miradex_client.Refund.Der.{Bytes}
use miradex_client.Monero.Scalars.{Text}

pub record TaggedKey : Type 0 where
  pub key : Text
  pub view_tag : Text

pub record TxOutput : Type 0 where
  pub amount : ℕ
  pub tagged_key : Option TaggedKey
  pub key : Option Text
  pub unlock_time : Option ℕ

pub record RctSignatures : Type 0 where
  pub rct_type : ℕ
  pub ecdh_info : List Text
  pub out_pk : List Text

pub record MoneroTxJson : Type 0 where
  pub extra : Bytes
  pub unlock_time : Option ℕ
  pub vout : List TxOutput
  pub rct_signatures : RctSignatures

pub record FetchedTransaction : Type 0 where
  pub tx_json : MoneroTxJson
  pub block_height : ℕ
  pub confirmations : Option ℕ
  pub in_pool : Bool
  pub output_indices : List ℕ
  pub tx_hash : Text

-- An entry of `txs`, where `as_json` is what `JSON.parse` makes of it. Nothing checks the fields; a
-- node leaves `confirmations` out for a transaction in its pool.
pub record TxEntry : Type 0 where
  pub as_json : Result MoneroTxJson
  pub block_height : ℕ
  pub confirmations : Option ℕ
  pub in_pool : Bool
  pub tx_hash : Text
  pub output_indices : Option (List ℕ)

pub record TxsResult : Type 0 where
  pub status_ok : Bool
  pub txs : Option (List TxEntry)

-- The answer of `fetch`: whether its status is one of success, and the body's JSON.
pub record Response : Type 0 where
  pub is_success : Bool
  pub body : Result TxsResult

-- A node: what it answers, and whether that takes longer than the timeout.
pub record Node : Type 0 where
  pub response : Result Response
  pub times_out : Bool

abbrev pub or_empty : Option (List ℕ) → List ℕ
or_empty none = []
or_empty (some l) = l

unfoldable pub read_entry : TxEntry → Result FetchedTransaction
read_entry entry = do
  json ← entry.as_json
  ok (record {
    tx_json = json;
    block_height = entry.block_height;
    confirmations = entry.confirmations;
    in_pool = entry.in_pool;
    output_indices = or_empty entry.output_indices;
    tx_hash = entry.tx_hash;
  })

abbrev pub first_entry : Option (List TxEntry) → Result FetchedTransaction
first_entry none = err plain_error
first_entry (some []) = err plain_error
first_entry (some (entry ∷ entries)) = read_entry entry

unfoldable pub request : Node → Result FetchedTransaction
request node = do
  response ← node.response
  if not response.is_success then err plain_error else (do
    result ← response.body
    if not result.status_ok then err plain_error else first_entry result.txs)

-- `tryNodes`
abbrev pub try_nodes : {A : Type 0} → (Node → Result A) → List Node → Result A
try_nodes make_request [] = err plain_error
try_nodes make_request (node ∷ nodes) =
    let rest = try_nodes make_request nodes in
    elim (make_request node) [ ok a ↦ ok a | err e ↦ rest ]

unfoldable pub fetch_transaction : List Node → Result FetchedTransaction
fetch_transaction nodes = try_nodes request nodes

unfoldable pub attempt : Node → Result FetchedTransaction
attempt node = if node.times_out then err plain_error else fetch_transaction (node ∷ [])

abbrev pub successes : List (Result FetchedTransaction) → List FetchedTransaction
successes [] = []
successes (err e ∷ rest) = successes rest
successes (ok tx ∷ rest) = tx ∷ successes rest

-- The fields that `canonicalTxKey` puts into its text.
pub record CanonicalTx : Type 0 where
  pub extra : Bytes
  pub unlock_time : ℕ
  pub vout : List TxOutput
  pub ecdh_info : List Text
  pub out_pk : List Text

abbrev pub or_zero : Option ℕ → ℕ
or_zero none = 0
or_zero (some n) = n

unfoldable pub canonical_tx_key : FetchedTransaction → CanonicalTx
canonical_tx_key tx = record {
  extra = tx.tx_json.extra;
  unlock_time = or_zero tx.tx_json.unlock_time;
  vout = tx.tx_json.vout;
  ecdh_info = tx.tx_json.rct_signatures.ecdh_info;
  out_pk = tx.tx_json.rct_signatures.out_pk;
}

module _ {A : Type 0} (same : A → A → Bool) where
  abbrev pub same_list : List A → List A → Bool
  same_list [] [] = true
  same_list [] (b ∷ bs) = false
  same_list (a ∷ others) [] = false
  same_list (a ∷ others) (b ∷ bs) = same a b && same_list others bs

  abbrev pub same_option : Option A → Option A → Bool
  same_option none none = true
  same_option none (some b) = false
  same_option (some a) none = false
  same_option (some a) (some b) = same a b

abbrev pub same_number : ℕ → ℕ → Bool
same_number a b = a == b

abbrev pub same_text : Text → Text → Bool
same_text = same_list same_number

abbrev pub same_tagged : TaggedKey → TaggedKey → Bool
same_tagged s t = same_text s.key t.key && same_text s.view_tag t.view_tag

abbrev pub same_tx_output : TxOutput → TxOutput → Bool
same_tx_output a b =
    a.amount == b.amount
    && same_option same_tagged a.tagged_key b.tagged_key
    && same_option same_text a.key b.key
    && same_option same_number a.unlock_time b.unlock_time

unfoldable pub same_key : CanonicalTx → CanonicalTx → Bool
same_key s t =
    same_text s.extra t.extra
    && s.unlock_time == t.unlock_time
    && same_list same_tx_output s.vout t.vout
    && same_list same_text s.ecdh_info t.ecdh_info
    && same_list same_text s.out_pk t.out_pk

-- `buckets.get(key)`, and one more in it: a new key goes to the end.
abbrev pub add_to_bucket :
    FetchedTransaction
    → List (CanonicalTx × List FetchedTransaction)
    → List (CanonicalTx × List FetchedTransaction)
add_to_bucket tx [] = (canonical_tx_key tx, tx ∷ []) ∷ []
add_to_bucket tx ((key, txs) ∷ rest) =
    let later = add_to_bucket tx rest in
    if same_key key (canonical_tx_key tx) then (key, txs ++ tx ∷ []) ∷ rest else (key, txs) ∷ later

abbrev pub fill_buckets :
    List FetchedTransaction
    → List (CanonicalTx × List FetchedTransaction)
    → List (CanonicalTx × List FetchedTransaction)
fill_buckets [] buckets = buckets
fill_buckets (tx ∷ rest) buckets = fill_buckets rest (add_to_bucket tx buckets)

abbrev pub confirmations_of : List FetchedTransaction → List (Option ℕ)
confirmations_of [] = []
confirmations_of (tx ∷ rest) = tx.confirmations ∷ confirmations_of rest

-- `sort` puts the missing ones last, and one at the middle place counts as 0.
unfoldable pub median_confirmations : List FetchedTransaction → ℕ
median_confirmations txs = get_or (sort (finite_values (confirmations_of txs))) (length txs / 2) 0

-- The first of a bucket, with the median of its confirmations.
abbrev pub of_bucket :
    List FetchedTransaction → Result FetchedTransaction → Result FetchedTransaction
of_bucket [] later = later
of_bucket (first_one ∷ others) later =
    ok (record first_one { confirmations = some (median_confirmations (first_one ∷ others)) })

abbrev pub first_agreeing :
    (quorum : ℕ) → List (CanonicalTx × List FetchedTransaction) → Result FetchedTransaction
first_agreeing quorum [] = err (verification_error e_monero_quorum)
first_agreeing quorum ((key, txs) ∷ rest) =
    let later = first_agreeing quorum rest in
    if leb quorum (length txs) then of_bucket txs later else later

unfoldable pub pick_agreeing_transaction :
    List FetchedTransaction → (quorum : ℕ) → Result FetchedTransaction
pick_agreeing_transaction txs quorum = first_agreeing quorum (fill_buckets txs [])

unfoldable pub fetch_transaction_quorum : List Node → (quorum : ℕ) → Result FetchedTransaction
unfolding pick_agreeing_transaction
fetch_transaction_quorum nodes quorum =
    let found = successes (map attempt nodes) in
    if ltb (length found) quorum
    then err (verification_error e_monero_quorum)
    else pick_agreeing_transaction found quorum
