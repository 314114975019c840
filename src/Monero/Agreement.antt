-- ===== src/Monero/Agreement.antt =====
-- src/lib/monero/rpc.ts: what a quorum of nodes that agrees on a transaction means.
use mathlib.Core.Path.{subst}
use miradex_client.Prelude.{
  ℕ, suc, none, some, Option, ◌&&◌, ==_iff, ◌+◌, ◌≤◌, ◌<◌, ◌≡◌, refl, inl, inr, Bool, true, false,
  List, [], ◌∷◌, ◌++◌, map, arith, ltb, leb, length, length-append, count_if, All, Any, Bool-cases,
}
use miradex_client.Errors.Codes.{Failure, Result, ok, err}
use miradex_client.Presign.Chains.{returned}
use miradex_client.Monero.Scalars.{Text}
use miradex_client.Monero.{
  TaggedKey, TxOutput, same_list, same_option, same_number, same_text, same_tagged, same_tx_output,
  FetchedTransaction, CanonicalTx, Node, attempt, successes, canonical_tx_key, same_key,
  add_to_bucket, fill_buckets, first_agreeing, pick_agreeing_transaction, fetch_transaction_quorum,
}

-- Whether a transaction has the key.
abbrev pub has_key : CanonicalTx → FetchedTransaction → Bool
has_key key tx = same_key key (canonical_tx_key tx)

-- A comparison of a thing with itself holds.
same_list_refl :
    {A : Type 0} (same : A → A → Bool)
    → ((a : A) → same a a ≡ true)
    → (l : List A) → same_list same l l ≡ true
same_list_refl same h [] = refl
same_list_refl same h (a ∷ l) = rw (h a, same_list_refl same h l) refl

same_option_refl :
    {A : Type 0} (same : A → A → Bool)
    → ((a : A) → same a a ≡ true)
    → (o : Option A) → same_option same o o ≡ true
same_option_refl same h none = refl
same_option_refl same h (some a) = h a

same_number_refl : (n : ℕ) → same_number n n ≡ true
same_number_refl n = (==_iff n n).1 refl

same_text_refl : (t : Text) → same_text t t ≡ true
same_text_refl t = same_list_refl same_number same_number_refl t

both : (a b : Bool) → a ≡ true → b ≡ true → (a && b) ≡ true
both a b h k = rw (h, k) refl

same_tagged_refl : (t : TaggedKey) → same_tagged t t ≡ true
same_tagged_refl t = both _ _ (same_text_refl t.key) (same_text_refl t.view_tag)

same_tx_output_refl : (o : TxOutput) → same_tx_output o o ≡ true
same_tx_output_refl o =
    both _ _
      (both _ _
        (both _ _ (same_number_refl o.amount)
          (same_option_refl same_tagged same_tagged_refl o.tagged_key))
        (same_option_refl same_text same_text_refl o.key))
      (same_option_refl same_number same_number_refl o.unlock_time)

same_key_refl : (k : CanonicalTx) → same_key k k ≡ true
unfolding same_key
same_key_refl k =
    both _ _
      (both _ _
        (both _ _ (both _ _ (same_text_refl k.extra) (same_number_refl k.unlock_time))
          (same_list_refl same_tx_output same_tx_output_refl k.vout))
        (same_list_refl same_text same_text_refl k.ecdh_info))
      (same_list_refl same_text same_text_refl k.out_pk)

-- A bucket's key is that of its first transaction, and it has no more of them than counted.
abbrev IsHeld : (CanonicalTx → ℕ) → CanonicalTx × List FetchedTransaction → Type 0
IsHeld counted (key, []) = ⊥
IsHeld counted (key, first_one ∷ others) =
    (key ≡ canonical_tx_key first_one) × (suc (length others) ≤ counted key)

-- The count with one transaction more.
abbrev one_more : (CanonicalTx → ℕ) → FetchedTransaction → CanonicalTx → ℕ
one_more counted tx key = counted key + count_if (has_key key) (tx ∷ [])

IsHeld-mono :
    (counted more : CanonicalTx → ℕ)
    → ((key : CanonicalTx) → counted key ≤ more key)
    → (bucket : CanonicalTx × List FetchedTransaction) → IsHeld counted bucket
    → IsHeld more bucket
IsHeld-mono counted more h (key, []) held = elim held [ ]
IsHeld-mono counted more h (key, first_one ∷ others) (k, n) = (k, omega (arith, h key, n))

All-IsHeld-mono :
    (counted more : CanonicalTx → ℕ)
    → ((key : CanonicalTx) → counted key ≤ more key)
    → (buckets : List (CanonicalTx × List FetchedTransaction)) → All (IsHeld counted) buckets
    → All (IsHeld more) buckets
All-IsHeld-mono counted more h [] held = tt
All-IsHeld-mono counted more h (bucket ∷ rest) (held, others) =
    (IsHeld-mono counted more h bucket held, All-IsHeld-mono counted more h rest others)

counts_one :
    (key : CanonicalTx) (tx : FetchedTransaction)
    → has_key key tx ≡ true
    → count_if (has_key key) (tx ∷ []) ≡ 1
counts_one key tx same = ground arith

IsHeld-append :
    (counted : CanonicalTx → ℕ) (tx : FetchedTransaction) (key : CanonicalTx)
    (txs : List FetchedTransaction)
    → has_key key tx ≡ true
    → IsHeld counted (key, txs)
    → IsHeld (one_more counted tx) (key, txs ++ tx ∷ [])
IsHeld-append counted tx key [] same held = elim held [ ]
IsHeld-append counted tx key (first_one ∷ others) same (k, n) =
    (k, omega (arith, length-append others (tx ∷ []), counts_one key tx same, n))

add_to_bucket-IsHeld :
    (counted : CanonicalTx → ℕ) (tx : FetchedTransaction)
    (buckets : List (CanonicalTx × List FetchedTransaction))
    → All (IsHeld counted) buckets
    → All (IsHeld (one_more counted tx)) (add_to_bucket tx buckets)
add_to_bucket-IsHeld counted tx [] held =
    ((refl, omega (arith, counts_one _ tx (same_key_refl (canonical_tx_key tx)))), tt)
add_to_bucket-IsHeld counted tx ((key, txs) ∷ rest) (held, others) =
    elim (Bool-cases (same_key key (canonical_tx_key tx))) [
      | inl same ↦ rw same (
        IsHeld-append counted tx key txs same held,
        All-IsHeld-mono counted (one_more counted tx) (λ k. omega arith) rest others,
      )
      | inr differs ↦ rw differs (
        IsHeld-mono counted (one_more counted tx) (λ k. omega arith) (key, txs) held,
        add_to_bucket-IsHeld counted tx rest others,
      )
    ]

fill_buckets-IsHeld :
    (counted : CanonicalTx → ℕ) (txs : List FetchedTransaction)
    (buckets : List (CanonicalTx × List FetchedTransaction))
    → All (IsHeld counted) buckets
    → All (IsHeld (λ key. counted key + count_if (has_key key) txs)) (fill_buckets txs buckets)
fill_buckets-IsHeld counted [] buckets held =
    All-IsHeld-mono counted _ (λ k. omega arith) buckets held
fill_buckets-IsHeld counted (tx ∷ txs) buckets held =
    All-IsHeld-mono (λ key. one_more counted tx key + count_if (has_key key) txs)
      (λ key. counted key + count_if (has_key key) (tx ∷ txs)) (λ k. ground arith)
      (fill_buckets txs (add_to_bucket tx buckets))
      (fill_buckets-IsHeld (one_more counted tx) txs (add_to_bucket tx buckets)
        (add_to_bucket-IsHeld counted tx buckets held))

first_agreeing_held :
    (counted : CanonicalTx → ℕ) (quorum : ℕ)
    (buckets : List (CanonicalTx × List FetchedTransaction)) (tx : FetchedTransaction)
    → All (IsHeld counted) buckets
    → first_agreeing quorum buckets ≡ ok tx
    → quorum ≤ counted (canonical_tx_key tx)
unfolding canonical_tx_key
first_agreeing_held counted quorum [] tx held e = ground arith
first_agreeing_held counted quorum ((key, []) ∷ rest) tx (held, others) e = elim held [ ]
first_agreeing_held counted quorum ((key, first_one ∷ others) ∷ rest) tx ((k, n), held) e =
    elim (Bool-cases (leb quorum (suc (length others)))) [
      | inr few ↦ first_agreeing_held counted quorum rest tx held (rw few at e)
      | inl enough ↦
          returned (λ t. quorum ≤ counted (canonical_tx_key t)) (rw enough at e)
            (subst (λ j. quorum ≤ counted j) k (ground arith))
    ]

-- At least quorum of the nodes answered with the transaction's fields.
pub fetch_transaction_quorum_held :
    (nodes : List Node) (quorum : ℕ) (tx : FetchedTransaction)
    → fetch_transaction_quorum nodes quorum ≡ ok tx
    → quorum ≤ count_if (has_key (canonical_tx_key tx)) (successes (map attempt nodes))
unfolding fetch_transaction_quorum pick_agreeing_transaction
fetch_transaction_quorum_held nodes quorum tx e =
    let found = successes (map attempt nodes) in
    elim (Bool-cases (ltb (length found) quorum)) [
      | inl few ↦ refused (rw few at e)
      | inr many ↦
          let held =
            first_agreeing_held (λ key. 0 + count_if (has_key key) found) quorum
              (fill_buckets found []) tx (fill_buckets-IsHeld (λ key. 0) found [] tt)
              (rw many at e) in
          omega (arith, held)
    ]
  where
    refused : {P : Type 0} {failure : Failure} → err failure ≡ ok tx → P
    refused h = ground arith

-- The nodes, each marked by whether it is honest.
abbrev pub liars : List (Bool × Node) → ℕ
liars [] = 0
liars ((true, node) ∷ rest) = liars rest
liars ((false, node) ∷ rest) = suc (liars rest)

abbrev pub asked : List (Bool × Node) → List Node
asked [] = []
asked ((honest, node) ∷ rest) = node ∷ asked rest

-- The node is honest, and what it answered with passes the test.
abbrev pub IsHonestAnswer : (FetchedTransaction → Bool) → Bool × Node → Type 0
IsHonestAnswer p (honest, node) =
    (honest ≡ true) × ((tx : FetchedTransaction) × (attempt node ≡ ok tx) × (p tx ≡ true))

by_answer :
    (p : FetchedTransaction → Bool) (honest : Bool) (node : Node) (rest : List (Bool × Node))
    (answer : Result FetchedTransaction)
    → (liars rest < count_if p (successes (map attempt (asked rest))) → Any (IsHonestAnswer p) rest)
    → attempt node ≡ answer
    → liars ((honest, node) ∷ rest) < count_if p (successes (answer ∷ map attempt (asked rest)))
    → Any (IsHonestAnswer p) ((honest, node) ∷ rest)
by_answer p true node rest (err failure) later e h = inr (later h)
by_answer p false node rest (err failure) later e h = inr (later (omega (arith, h)))
by_answer p false node rest (ok tx) later e h = inr (later (ground arith))
by_answer p true node rest (ok tx) later e h = elim (Bool-cases (p tx)) [
  | inl t ↦ inl (refl, (tx, e, t))
  | inr f ↦ inr (later (rw f at h))
]

Any-honest :
    (p : FetchedTransaction → Bool) (nodes : List (Bool × Node))
    → liars nodes < count_if p (successes (map attempt (asked nodes)))
    → Any (IsHonestAnswer p) nodes
Any-honest p [] h = omega arith
Any-honest p ((honest, node) ∷ rest) h =
    by_answer p honest node rest (attempt node) (Any-honest p rest) refl h

-- If fewer of the nodes than the quorum are dishonest, an honest node answered with the extra, the
-- time lock, the outputs, the encrypted amounts and the commitments of the transaction that the
-- quorum read returns.
pub fetch_transaction_quorum_honest :
    (nodes : List (Bool × Node)) (quorum : ℕ) (tx : FetchedTransaction)
    → liars nodes < quorum
    → fetch_transaction_quorum (asked nodes) quorum ≡ ok tx
    → Any (IsHonestAnswer (has_key (canonical_tx_key tx))) nodes
fetch_transaction_quorum_honest nodes quorum tx few e =
    Any-honest (has_key (canonical_tx_key tx)) nodes
      (omega (arith, few, fetch_transaction_quorum_held (asked nodes) quorum tx e))
