-- ===== src/Quorum/Median.antt =====
-- The median of src/blockchain/quorum-provider.ts, and the reads that rest on it.
use miradex_client.Prelude.{
  ℕ, suc, ◌+◌, ◌*◌, ◌/◌, ◌≤◌, ◌<◌, ◌≡◌, refl, ◌⊎◌, inl, inr, Bool, true, false, List, [], ◌∷◌,
  Option, none, some, arith, ltb, leb, ap, length, get_or, count_if, Bool-cases,
}
use miradex_client.Errors.Codes.{ok}
use miradex_client.Quorum.{
  Settled, fulfilled, rejected, fulfilled_values, finite_values, sort, median, near,
  pick_quorum_number, estimate_fee,
}
use miradex_client.Quorum.Sorting.{sort-IsSorted, count-sort, below_place, above_place}

all_count : (l : List ℕ) → count_if (λ v. true) l ≡ length l
all_count [] = refl
all_count (a ∷ l) = ground (arith, all_count l)

length-sort : (l : List ℕ) → length (sort l) ≡ length l
length-sort l = omega (arith, all_count (sort l), all_count l, count-sort (λ v. true) l)

-- At most half of the values are below the median, and less than half of them above it.
pub median_balanced :
    (l : List ℕ)
    → 0 < length l
    → (2 * count_if (λ v. ltb v (median l)) l ≤ length l)
      × (2 * count_if (λ v. ltb (median l) v) l < length l)
unfolding median
median_balanced l h =
    let k = length l / 2 in
    let sorted = sort-IsSorted l in
    let m = get_or (sort l) k 0 in
    let low = below_place (sort l) k sorted (omega (arith, length-sort l)) in
    let high = above_place (sort l) k sorted (omega (arith, length-sort l)) in
    (
      omega (arith, low, count-sort (λ v. ltb v m) l),
      omega (arith, high, length-sort l, count-sort (λ v. ltb m v) l),
    )

-- Reports of the providers, each marked by whether the provider is honest.
abbrev pub reports : List (Bool × ℕ) → List ℕ
reports [] = []
reports ((honest, v) ∷ rest) = v ∷ reports rest

abbrev pub liars : List (Bool × ℕ) → ℕ
liars [] = 0
liars ((true, v) ∷ rest) = liars rest
liars ((false, v) ∷ rest) = suc (liars rest)

-- An honest provider reported a value that passes the test.
abbrev pub HonestReport : (ℕ → Bool) → List (Bool × ℕ) → Type 0
HonestReport p [] = ⊥
HonestReport p ((honest, v) ∷ rest) = ((honest ≡ true) × (p v ≡ true)) ⊎ HonestReport p rest

outvoted :
    (p : ℕ → Bool) (answers : List (Bool × ℕ))
    → liars answers < count_if p (reports answers)
    → HonestReport p answers
outvoted p [] h = omega arith
outvoted p ((true, v) ∷ rest) h = elim (Bool-cases (p v)) [
  | inl e ↦ inl (refl, e)
  | inr e ↦ inr (outvoted p rest (ground arith))
]
outvoted p ((false, v) ∷ rest) h = inr (outvoted p rest (ground arith))

-- The settled promises of the providers, marked likewise, and the values that they delivered.
abbrev pub answers : List (Bool × Settled (Option ℕ)) → List (Settled (Option ℕ))
answers [] = []
answers ((honest, s) ∷ rest) = s ∷ answers rest

abbrev pub delivered : List (Bool × Settled (Option ℕ)) → List (Bool × ℕ)
delivered [] = []
delivered ((honest, fulfilled (some v)) ∷ rest) = (honest, v) ∷ delivered rest
delivered ((honest, fulfilled none) ∷ rest) = delivered rest
delivered ((honest, rejected) ∷ rest) = delivered rest

reports-delivered :
    (polled : List (Bool × Settled (Option ℕ)))
    → finite_values (fulfilled_values (answers polled)) ≡ reports (delivered polled)
reports-delivered [] = refl
reports-delivered ((honest, fulfilled (some v)) ∷ rest) = ap (λ l. v ∷ l) (reports-delivered rest)
reports-delivered ((honest, fulfilled none) ∷ rest) = reports-delivered rest
reports-delivered ((honest, rejected) ∷ rest) = reports-delivered rest

-- If fewer dishonest providers than the quorum deliver a number, a height that is accepted lies
-- within one of a number that an honest provider delivered.
pub pick_quorum_number_honest :
    (quorum : ℕ) (polled : List (Bool × Settled (Option ℕ))) (m : ℕ)
    → liars (delivered polled) < quorum
    → pick_quorum_number quorum (answers polled) ≡ ok m
    → HonestReport (near m) (delivered polled)
unfolding pick_quorum_number
pick_quorum_number_honest quorum polled m few e =
    outvoted (near m) (delivered polled) (ground (arith, reports-delivered polled))

count_at_least : (m : ℕ) (l : List ℕ) → count_if (leb m) l + count_if (λ v. ltb v m) l ≡ length l
count_at_least m [] = omega arith
count_at_least m (v ∷ l) = ground (arith, count_at_least m l)

count_at_most :
    (m : ℕ) (l : List ℕ) → count_if (λ v. leb v m) l + count_if (λ v. ltb m v) l ≡ length l
count_at_most m [] = omega arith
count_at_most m (v ∷ l) = ground (arith, count_at_most m l)

length-reports : (polled : List (Bool × ℕ)) → length (reports polled) ≡ length polled
length-reports [] = refl
length-reports ((honest, v) ∷ rest) = ap suc (length-reports rest)

fee_is_median :
    (settled : List (Settled (Option ℕ))) (m : ℕ)
    → estimate_fee settled ≡ ok m
    → let nums = finite_values (fulfilled_values settled) in (m ≡ median nums) × (0 < length nums)
unfolding estimate_fee
fee_is_median settled m e = ground arith

-- If the dishonest providers are fewer than half of those that deliver a fee, the estimate lies
-- between two fees that honest providers delivered.
pub estimate_fee_between :
    (polled : List (Bool × Settled (Option ℕ))) (m : ℕ)
    → 2 * liars (delivered polled) < length (delivered polled)
    → estimate_fee (answers polled) ≡ ok m
    → HonestReport (leb m) (delivered polled) × HonestReport (λ v. leb v m) (delivered polled)
estimate_fee_between polled m few e =
    let nums = reports (delivered polled) in
    let found : (m ≡ median nums) × (0 < length nums) =
      rw (reports-delivered polled) at (fee_is_median (answers polled) m e) in
    let balanced : (2 * count_if (λ v. ltb v m) nums ≤ length nums)
        × (2 * count_if (λ v. ltb m v) nums < length nums) =
      rw (found.0) (median_balanced nums found.1) in
    let total = length-reports (delivered polled) in
    (
      outvoted (leb m) (delivered polled) (omega (arith, count_at_least m nums, total)),
      outvoted (λ v. leb v m) (delivered polled) (omega (arith, count_at_most m nums, total)),
    )
