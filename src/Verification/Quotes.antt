-- ===== src/Verification/Quotes.antt =====
-- What the checks of src/quote-binding.ts refuse.
use Prim.Native.String.{String}
use text.Mathlib.TextEquality.{eq_iff}
use miradex_client.Prelude.{
  ℕ, ◌≡◌, ◌+◌, ◌≤◌, ◌↔◌, arith, Bool, true, false, not, List, ap, refl, if◌then◌else◌,
}
use miradex_client.Errors.Codes.{Result, is_ok, ok, err, verification_error, e_quote_tampered}
use miradex_client.Verification.{
  QuoteFields, Scalar, quote_entries, hash_quote, require_quote_hash_matches, require_quote_fresh,
}

same_entries : (q r : QuoteFields) → quote_entries q ≡ quote_entries r → q ≡ r
unfolding quote_entries
same_entries q r e = ground arith

guard : Bool → Result (Unit {0})
guard b = if not b then err (verification_error e_quote_tampered) else ok tt

passes : (b : Bool) → is_ok (guard b) ≡ true → b ≡ true
unfolding guard
passes true h = refl
passes false h = h

passed : (b : Bool) → b ≡ true → is_ok (guard b) ≡ true
unfolding guard
passed true h = refl
passed false h = h

-- Where the digest does not collide on the entries of the two quotes, a quote whose hash was taken
-- when it was accepted passes before funding exactly if all of its nine fields are as they were, and
-- exactly as long as no more than 300000 milliseconds have passed.
pub accepted_quote_iff :
    (digest : List (String × Scalar) → String) (accepted current : QuoteFields) (now : ℕ)
    → (digest (quote_entries current) ≡ digest (quote_entries accepted)
        → quote_entries current ≡ quote_entries accepted)
    → ((is_ok (
            require_quote_hash_matches digest
              (record { fields = accepted; quote_hash = hash_quote digest accepted })
              current)
          ≡ true)
        ↔ (current ≡ accepted))
      × ((is_ok (
              require_quote_fresh
                (record { fields = accepted; quote_hash = hash_quote digest accepted })
                now)
            ≡ true)
          ↔ (now ≤ accepted.accepted_at_epoch_ms + 300000))
unfolding require_quote_hash_matches require_quote_fresh hash_quote guard
accepted_quote_iff digest accepted current now no_collision =
    let same = eq_iff (digest (quote_entries current)) (digest (quote_entries accepted)) in
    (
      (
        λ h. same_entries current accepted (no_collision (same.0 (passes _ h))),
        λ h. passed _ (same.1 (ap (λ q. digest (quote_entries q)) h)),
      ),
      (λ h. ground arith, λ h. ground arith),
    )
