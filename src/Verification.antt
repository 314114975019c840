-- ===== src/Verification.antt =====
-- src/verification/rate-oracle.ts and src/quote-binding.ts: the rate that several oracles agree on,
-- and the accepted quote that is checked again before funding. Rates are whole numbers of one small
-- unit, and the division behind the spread is exact. SHA-256 over the JSON text of a quote's
-- entries is a parameter. The sort and the median are the same as those of the quorum provider.
pub mod Consensus
pub mod Quotes
mod Tests
use Prim.Native.String.{String}
use miradex_client.Prelude.{
  ℕ, ◌-◌, ◌*◌, min, max, not, Option, List, [], ◌∷◌, ltb, str_eq, if◌then◌else◌, length, keep,
}
use miradex_client.Errors.Codes.{
  Result, ok, err, verification_error, e_oracle_quorum, e_oracle_spread, e_quote_tampered,
  e_quote_stale,
}
use miradex_client.Quorum.{Settled, fulfilled_values, finite_values, median}

abbrev pub min_from : ℕ → List ℕ → ℕ
min_from r [] = r
min_from r (q ∷ rest) = min r (min_from q rest)

abbrev pub max_from : ℕ → List ℕ → ℕ
max_from r [] = r
max_from r (q ∷ rest) = max r (max_from q rest)

-- `Math.max(...rates) - Math.min(...rates)`
abbrev pub range : List ℕ → ℕ
range [] = 0
range (r ∷ rest) = max_from r rest - min_from r rest

-- The answers that are finite and positive.
abbrev pub positive_rates : List (Settled (Option ℕ)) → List ℕ
positive_rates settled = keep (λ r. ltb 0 r) (finite_values (fulfilled_values settled))

-- `spread > DEFAULT_SPREAD_CAP`, 2 percent
unfoldable pub fetch_consensus_rate : ℕ → List (Settled (Option ℕ)) → Result ℕ
fetch_consensus_rate quorum settled =
    let rates = positive_rates settled in
    if ltb (length rates) quorum
    then err (verification_error e_oracle_quorum)
    else if ltb (median rates) (50 * range rates)
    then err (verification_error e_oracle_spread)
    else ok (median rates)

abbrev pub quote_max_age_ms : ℕ
quote_max_age_ms = 300000

-- The fields that `hashQuote` covers. A rate deviation is kept as its decimal text.
pub record QuoteFields : Type 0 where
  pub provider : String
  pub from_asset : String
  pub to_asset : String
  pub amount : String
  pub dest_address : String
  pub refund_address : String
  pub expected_output_amount : String
  pub rate_bps_from_oracle : String
  pub accepted_at_epoch_ms : ℕ

-- A value of the quote's JSON: a text, or a number.
pub data Scalar : Type 0 where
  as_text as_number : String → Scalar
  as_time : ℕ → Scalar

-- The entries of a quote by its keys, sorted.
unfoldable pub quote_entries : QuoteFields → List (String × Scalar)
quote_entries q =
    ("acceptedAtEpochMs", as_time q.accepted_at_epoch_ms)
    ∷ ("amount", as_text q.amount)
    ∷ ("destAddress", as_text q.dest_address)
    ∷ ("expectedOutputAmount", as_text q.expected_output_amount)
    ∷ ("fromAsset", as_text q.from_asset)
    ∷ ("provider", as_text q.provider)
    ∷ ("rateBpsFromOracle", as_number q.rate_bps_from_oracle)
    ∷ ("refundAddress", as_text q.refund_address)
    ∷ ("toAsset", as_text q.to_asset)
    ∷ []

-- `hashQuote`, where `digest` is SHA-256 in hex over the JSON text of the entries.
unfoldable pub hash_quote : (digest : List (String × Scalar) → String) → QuoteFields → String
hash_quote digest q = digest (quote_entries q)

pub record AcceptedQuote : Type 0 where
  pub fields : QuoteFields
  pub quote_hash : String

unfoldable pub require_quote_hash_matches :
    (digest : List (String × Scalar) → String) → AcceptedQuote → QuoteFields → Result (Unit {0})
unfolding hash_quote
require_quote_hash_matches digest accepted current =
    if not (str_eq (hash_quote digest current) accepted.quote_hash)
    then err (verification_error e_quote_tampered)
    else ok tt

-- A quote from after `now` has a negative age, which is not above the bound either.
unfoldable pub require_quote_fresh : AcceptedQuote → (now_epoch_ms : ℕ) → Result (Unit {0})
require_quote_fresh accepted now_epoch_ms =
    if ltb quote_max_age_ms (now_epoch_ms - accepted.fields.accepted_at_epoch_ms)
    then err (verification_error e_quote_stale)
    else ok tt
