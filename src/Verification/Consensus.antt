-- ===== src/Verification/Consensus.antt =====
-- What the rate of src/verification/rate-oracle.ts says of the rates it was made from.
use miradex_client.Prelude.{
  ℕ, ◌-◌, ◌*◌, ◌≡◌, ◌≤◌, ◌<◌, Option, List, [], ◌∷◌, arith, ltb, length, count_if, All,
}
use miradex_client.Errors.Codes.{ok}
use miradex_client.Quorum.{Settled, median}
use miradex_client.Quorum.Median.{median_balanced}
use miradex_client.Verification.{min_from, max_from, range, positive_rates, fetch_consensus_rate}

-- Enough oracles delivered a rate, and each of their rates is within 2 percent of this one.
pub record IsConsensus (quorum : ℕ) (rates : List ℕ) (m : ℕ) : Type 0 where
  pub enough : quorum ≤ length rates
  pub close : All (λ r. (50 * (r - m) ≤ m) × (50 * (m - r) ≤ m)) rates

count_above :
    (m r : ℕ) (rest : List ℕ)
    → m < min_from r rest
    → count_if (λ v. ltb m v) (r ∷ rest) ≡ length (r ∷ rest)
count_above m r [] h = ground arith
count_above m r (q ∷ rest) h = ground (arith, count_above m q rest)

count_below :
    (m r : ℕ) (rest : List ℕ)
    → max_from r rest < m
    → count_if (λ v. ltb v m) (r ∷ rest) ≡ length (r ∷ rest)
count_below m r [] h = ground arith
count_below m r (q ∷ rest) h = ground (arith, count_below m q rest)

median_between :
    (r : ℕ) (rest : List ℕ)
    → (min_from r rest ≤ median (r ∷ rest)) × (median (r ∷ rest) ≤ max_from r rest)
median_between r rest =
    let m = median (r ∷ rest) in
    let balanced = median_balanced (r ∷ rest) (omega arith) in
    (ground (arith, balanced, count_above m r rest), ground (arith, balanced, count_below m r rest))

All-close :
    (m low high r : ℕ) (rest : List ℕ)
    → low ≤ m
    → m ≤ high
    → 50 * (high - low) ≤ m
    → low ≤ min_from r rest
    → max_from r rest ≤ high
    → All (λ v. (50 * (v - m) ≤ m) × (50 * (m - v) ≤ m)) (r ∷ rest)
All-close m low high r [] a b c d e = ((omega arith, omega arith), tt)
All-close m low high r (q ∷ rest) a b c d e =
    ((omega arith, omega arith), All-close m low high q rest a b c (omega arith) (omega arith))

-- A rate that is returned has at least `quorum` positive rates behind it, and all of them are
-- within 2 percent of it.
pub fetch_consensus_rate-IsConsensus :
    (quorum : ℕ) (settled : List (Settled (Option ℕ))) (m : ℕ)
    → fetch_consensus_rate quorum settled ≡ ok m
    → IsConsensus quorum (positive_rates settled) m
unfolding fetch_consensus_rate
fetch_consensus_rate-IsConsensus quorum settled m e = record {
  enough = ground arith;
  close = at_rates (positive_rates settled) (ground arith) (ground arith);
}
  where
    at_rates :
        (rates : List ℕ)
        → median rates ≡ m
        → 50 * range rates ≤ median rates
        → All (λ r. (50 * (r - m) ≤ m) × (50 * (m - r) ≤ m)) rates
    at_rates [] f g = tt
    at_rates (r ∷ rest) f g =
        let (low, high) = median_between r rest in
        All-close m (min_from r rest) (max_from r rest) r rest (omega (arith, low, f))
          (omega (arith, high, f)) (omega (arith, f, g)) (omega arith) (omega arith)
