-- ===== src/Monero/Secret.antt =====
-- src/lib/monero/verify-lock.ts: the secret that the one-time keys of a lock are derived from.
use miradex_client.Prelude.{
  ℕ, ◌≡◌, true, Option, none, some, [], ◌∷◌, arith, Bool-cases, inl, inr, ap, ◌∙◌,
}
use miradex_client.Errors.Codes.{ok}
use miradex_client.Presign.Chains.{bound}
use miradex_client.Refund.Der.{Bytes}
use miradex_client.Monero.Scalars.{Text, hex_to_scalar}
use miradex_client.Monero.{same_text}
use miradex_client.Monero.Scanner.{Curve, point_hex, secret_of}
use miradex_client.Monero.Lock.{secret_by_tx_key, secret_by_view_key, shared_secret}

-- The secret is 8vR where no transaction key is given, and 8rV for V = vG where r is given, which R
-- then belongs to.
pub data IsSecret {Point : Type 0} (c : Curve Point) (view_key : Text) (r_bytes d8 : Bytes)
    : Option Text → Type 0 where
  no_tx_key : secret_of c view_key r_bytes ≡ ok d8 → IsSecret c view_key r_bytes d8 none
  empty_tx_key : secret_of c view_key r_bytes ≡ ok d8 → IsSecret c view_key r_bytes d8 (some [])
  by_tx_key :
      (tx_key : Text) (r v : ℕ) (expected_r view_pub shared : Point)
      → hex_to_scalar tx_key ≡ ok r
      → c.multiply c.base r ≡ ok expected_r
      → same_text (point_hex c expected_r) (c.bytes_to_hex r_bytes) ≡ true
      → hex_to_scalar view_key ≡ ok v
      → c.multiply c.base v ≡ ok view_pub
      → c.multiply view_pub r ≡ ok shared
      → c.to_bytes (c.clear_cofactor shared) ≡ d8
      → IsSecret c view_key r_bytes d8 (some tx_key)

some_bytes : {a b : Bytes} → ok (some a) ≡ ok (some b) → a ≡ b
some_bytes e = ground arith

module _ {Point : Type 0} (c : Curve Point) (view_key : Text) (r_bytes d8 : Bytes) where
  by_view_key :
      secret_by_view_key c view_key r_bytes ≡ ok (some d8) → secret_of c view_key r_bytes ≡ ok d8
  unfolding secret_by_view_key
  by_view_key e =
      let secret = bound (secret_of c view_key r_bytes) _ e in
      secret.1 ∙ ap ok (some_bytes secret.2)

  secret_by_tx_key-IsSecret :
      (tx_key : Text)
      → secret_by_tx_key c view_key tx_key r_bytes ≡ ok (some d8)
      → IsSecret c view_key r_bytes d8 (some tx_key)
  unfolding secret_by_tx_key
  secret_by_tx_key-IsSecret tx_key e =
      let r = bound (hex_to_scalar tx_key) _ e in
      let expected_r = bound (c.multiply c.base r.0) _ r.2 in
      elim (Bool-cases (same_text (point_hex c expected_r.0) (c.bytes_to_hex r_bytes))) [
        | inr differs ↦ not_none (rw differs at expected_r.2)
        | inl same ↦
            let v = bound (hex_to_scalar view_key) _ (rw same at expected_r.2) in
            let view_pub = bound (c.multiply c.base v.0) _ v.2 in
            let shared = bound (c.multiply view_pub.0 r.0) _ view_pub.2 in
            by_tx_key tx_key r.0 v.0 expected_r.0 view_pub.0 shared.0 r.1 expected_r.1 same v.1
              view_pub.1 shared.1 (some_bytes shared.2)
      ]
    where
      not_none : {P : Type 0} → ok none ≡ ok (some d8) → P
      not_none h = ground arith

  pub shared_secret-IsSecret :
      (tx_key : Option Text)
      → shared_secret c view_key tx_key r_bytes ≡ ok (some d8)
      → IsSecret c view_key r_bytes d8 tx_key
  shared_secret-IsSecret none e = no_tx_key (by_view_key e)
  shared_secret-IsSecret (some []) e = empty_tx_key (by_view_key e)
  shared_secret-IsSecret (some (d ∷ ds)) e = secret_by_tx_key-IsSecret (d ∷ ds) e
