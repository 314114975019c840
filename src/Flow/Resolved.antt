-- ===== src/Flow/Resolved.antt =====
-- src/engine/flows/atomic-flow.ts: the keys, the parameters and the address that a refund goes by.
use Prim.Native.String.{String}
use miradex_client.Prelude.{
  ◌⊎◌, arith, ◌∙◌, ◌≡◌, refl, true, false, Option, none, some, str_eq, Bool-cases, inl, inr,
}
use miradex_client.Errors.Codes.{Result, ok, err}
use miradex_client.Refund.{RefundKeys}
use miradex_client.Flow.Refunding.{
  RefundTerms, RefundDetail, RefundWorld, has_refund_escape_hatch, resolve_lock_address,
  resolve_protocol_params, text_or_empty, from_cache, or_server,
}

-- The address of the lock is the deposit address of the swap's detail, or where it has none the
-- verified one, and it is not empty.
abbrev pub IsLockAddress : RefundDetail → String → Type 0
IsLockAddress detail lock_address =
    (str_eq lock_address "" ≡ false)
    × ((text_or_empty detail.deposit_address ≡ lock_address)
        ⊎ ((str_eq (text_or_empty detail.deposit_address) "" ≡ true)
            × (text_or_empty detail.lock_address ≡ lock_address)))

-- What a refund goes by: Bob's own keys with Alice's key of the parameters, parameters that the
-- server or the cache holds, and the address of the lock.
pub record IsResolved (w : RefundWorld) (keys : RefundKeys) (terms : RefundTerms)
    (lock_address : String) : Type 0 where
  pub own_keys : RefundKeys
  pub detail : RefundDetail
  pub has_keys : w.keys ≡ some own_keys
  pub has_detail : w.detail ≡ some detail
  pub same_keys : keys ≡ record own_keys { a_pub = terms.a_pub }
  pub has_terms : (detail.params ≡ some terms) ⊎ (w.cached ≡ some (ok (some terms)))
  pub at_lock : IsLockAddress detail lock_address

pub lock_held :
    (detail : RefundDetail)
    → str_eq (resolve_lock_address detail) "" ≡ false
    → IsLockAddress detail (resolve_lock_address detail)
unfolding resolve_lock_address
lock_held detail h = elim (Bool-cases (str_eq (text_or_empty detail.deposit_address) "")) [
  | inl empty ↦ (h, inr (empty, rw empty refl))
  | inr there ↦ (h, inl (rw there refl))
]

cache_held :
    (cached : Option (Result (Option RefundTerms))) (terms : RefundTerms)
    → from_cache cached ≡ some terms
    → cached ≡ some (ok (some terms))
cache_held none terms e = ground arith
cache_held (some (err failure)) terms e = ground arith
cache_held (some (ok none)) terms e = ground arith
cache_held (some (ok (some held))) terms e = ground arith

pub terms_held :
    (from_server : Option RefundTerms) (cached : Option (Result (Option RefundTerms)))
    (terms : RefundTerms)
    → resolve_protocol_params from_server cached ≡ some terms
    → (from_server ≡ some terms) ⊎ (cached ≡ some (ok (some terms)))
unfolding resolve_protocol_params
terms_held none cached terms e = inr (cache_held cached terms e)
terms_held (some sent) cached terms e = elim (Bool-cases (has_refund_escape_hatch sent)) [
  | inl h ↦ inl (rw h at e)
  | inr h ↦ from_either (from_cache cached) refl (rw h at e)
]
  where
    from_either :
        (o : Option RefundTerms)
        → from_cache cached ≡ o
        → or_server o (some sent) ≡ some terms
        → (some sent ≡ some terms) ⊎ (cached ≡ some (ok (some terms)))
    from_either none c f = inl f
    from_either (some held) c f = inr (cache_held cached terms (c ∙ f))
