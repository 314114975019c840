-- ===== src/Verification/Tests.antt =====
-- Rates and quotes of src/verification/rate-oracle.ts and src/quote-binding.ts on sample values.
use Prim.Native.String.{String}
use miradex_client.Prelude.{
  false, arith, ℕ, ◌≡◌, refl, ◌+◌, ◌≤◌, ◌↔◌, true, Option, none, some, List, [], ◌∷◌,
}
use miradex_client.Errors.Codes.{ok, err, verification_error, e_oracle_spread, is_ok}
use text.Mathlib.TextEquality.{eq_iff}
use miradex_client.Quorum.{Settled, fulfilled, rejected, median, sort}
use miradex_client.Verification.{
  positive_rates, fetch_consensus_rate, QuoteFields, Scalar, as_text, quote_entries, hash_quote,
  require_quote_hash_matches, require_quote_fresh,
}
use miradex_client.Verification.Consensus.{IsConsensus, fetch_consensus_rate-IsConsensus}
use miradex_client.Verification.Quotes.{accepted_quote_iff}

abbrev oracles : List (Settled (Option ℕ))
oracles = fulfilled (some 1000) ∷ rejected ∷ fulfilled (some 1010) ∷ fulfilled none ∷ []

agreed : fetch_consensus_rate 2 oracles ≡ ok 1010
unfolding fetch_consensus_rate median sort
agreed = refl

fetch_consensus_rate-IsConsensus_example : IsConsensus 2 (positive_rates oracles) 1010
fetch_consensus_rate-IsConsensus_example = fetch_consensus_rate-IsConsensus 2 oracles 1010 agreed

-- One rate that is far off is enough for an exception, however many agree.
outlier_refused :
    fetch_consensus_rate 2 (fulfilled (some 1000) ∷ fulfilled (some 1000) ∷ fulfilled (some 5) ∷ [])
    ≡ err (verification_error e_oracle_spread)
unfolding fetch_consensus_rate median sort
outlier_refused = refl

abbrev quote : QuoteFields
quote = record {
  provider = "thorchain";
  from_asset = "BTC";
  to_asset = "XMR";
  amount = "0.1";
  dest_address = "dest";
  refund_address = "refund";
  expected_output_amount = "20";
  rate_bps_from_oracle = "10";
  accepted_at_epoch_ms = 1000;
}

abbrev lower : QuoteFields
lower = record quote { expected_output_amount = "19" }

-- A digest that tells two quotes apart by their expected output.
abbrev output_of : List (String × Scalar) → String
output_of (a ∷ b ∷ c ∷ (key, as_text output) ∷ rest) = output
output_of _ = ""

told_apart : ◌≡◌ {A = String} "19" "20" → ⊥
told_apart h = let same : false ≡ true = (eq_iff "19" "20").1 h in ground arith

accepted_quote_iff_example :
    ((is_ok (
          require_quote_hash_matches output_of
            (record { fields = quote; quote_hash = hash_quote output_of quote })
            lower)
        ≡ true)
      ↔ (lower ≡ quote))
    × ((is_ok (
            require_quote_fresh
              (record { fields = quote; quote_hash = hash_quote output_of quote })
              5000)
          ≡ true)
        ↔ (5000 ≤ 1000 + 300000))
unfolding quote_entries
accepted_quote_iff_example =
    accepted_quote_iff output_of quote lower 5000 (λ h. elim (told_apart h) [ ])
