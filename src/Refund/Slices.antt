-- ===== src/Refund/Slices.antt =====
-- src/atomic-swap/refund.ts: `subarray`, `trimLeadingZeros` and `padTo32` on the two halves of a
-- signature: the padding undoes the trimming.
use miradex_client.Prelude.{
  ℕ, zero, suc, ◌+◌, ◌-◌, ◌≤◌, ◌≡◌, refl, sym, ap, ◌∙◌, inl, inr, [], ◌∷◌, ◌++◌, length, get_elem?,
  arith, Bool-cases, ◌==◌, ==_iff,
}
use miradex_client.Refund.Der.{
  Bytes, take, drop, zeros, trim_leading_zeros, needs_prefix, der_value, pad_to_32,
}

pub take-append : (xs ys : Bytes) → take (length xs) (xs ++ ys) ≡ xs
take-append [] ys = refl
take-append (x ∷ xs) ys = ap (x ∷◌) (take-append xs ys)

pub take_all : (xs : Bytes) → take (length xs) xs ≡ xs
take_all [] = refl
take_all (x ∷ xs) = ap (x ∷◌) (take_all xs)

pub drop-append : (xs ys : Bytes) (n : ℕ) → drop (length xs + n) (xs ++ ys) ≡ drop n ys
drop-append [] ys n = ap (λ m. drop m ys) {x = 0 + n} (omega arith)
drop-append (x ∷ xs) ys n =
    ap (λ m. drop m (x ∷ xs ++ ys)) {y = suc (length xs + n)} (omega arith) ∙ drop-append xs ys n

pub get_elem?-append :
    (xs ys : Bytes) (n : ℕ) → get_elem? (xs ++ ys) (length xs + n) ≡ get_elem? ys n
get_elem?-append [] ys n = ap (λ m. get_elem? ys m) {x = 0 + n} (omega arith)
get_elem?-append (x ∷ xs) ys n =
    ap (λ m. get_elem? (x ∷ xs ++ ys) m) {y = suc (length xs + n)} (omega arith)
    ∙ get_elem?-append xs ys n

pub append-take-drop : (n : ℕ) (xs : Bytes) → take n xs ++ drop n xs ≡ xs
append-take-drop zero xs = refl
append-take-drop (suc n) [] = refl
append-take-drop (suc n) (x ∷ xs) = ap (x ∷◌) (append-take-drop n xs)

pub length-take : (n : ℕ) (xs : Bytes) → n ≤ length xs → length (take n xs) ≡ n
length-take zero xs h = refl
length-take (suc n) [] h = omega arith
length-take (suc n) (x ∷ xs) h = ap suc (length-take n xs (omega arith))

pub length-drop : (n : ℕ) (xs : Bytes) → length (drop n xs) ≡ length xs - n
length-drop zero xs = omega arith
length-drop (suc n) [] = omega arith
length-drop (suc n) (x ∷ xs) = omega (arith, length-drop n xs)

zeros-snoc : (n : ℕ) (xs : Bytes) → zeros n ++ 0 ∷ xs ≡ zeros (suc n) ++ xs
zeros-snoc zero xs = refl
zeros-snoc (suc n) xs = ap (0 ∷◌) (zeros-snoc n xs)

pub trim_le : (xs : Bytes) → length (trim_leading_zeros xs) ≤ length xs
unfolding trim_leading_zeros
trim_le [] = omega arith
trim_le (x ∷ []) = omega arith
trim_le (x ∷ y ∷ xs) = ground (arith, trim_le (y ∷ xs))

trim_keeps : (x : ℕ) (xs : Bytes) → 1 ≤ length (trim_leading_zeros (x ∷ xs))
unfolding trim_leading_zeros
trim_keeps x [] = omega arith
trim_keeps x (y ∷ xs) = ground (arith, trim_keeps y xs)

pub trim_keeps_some : (xs : Bytes) → 1 ≤ length xs → 1 ≤ length (trim_leading_zeros xs)
trim_keeps_some [] h = absurd (omega (arith, h))
trim_keeps_some (x ∷ xs) h = trim_keeps x xs

-- The zeros that `trimLeadingZeros` takes off are those that fill the 32 bytes again.
Restores : Bytes → Bytes → Type 0
Restores xs t = zeros (length xs - length t) ++ t ≡ xs

one_more :
    (x : ℕ) (xs t : Bytes) → length t ≤ length xs → x ≡ 0 → Restores xs t → Restores (x ∷ xs) t
unfolding Restores
one_more x xs t le is_zero h =
    ap (λ n. zeros n ++ t) {y = suc (length xs - length t)} (omega (arith, le))
    ∙ ap (0 ∷◌) h
    ∙ ap (λ z. z ∷ xs) (sym is_zero)

nothing_more : (xs : Bytes) → Restores xs xs
unfolding Restores
nothing_more xs = ap (λ n. zeros n ++ xs) {y = 0} (omega arith)

zeros-trim : (xs : Bytes) → Restores xs (trim_leading_zeros xs)
unfolding trim_leading_zeros
zeros-trim [] = nothing_more []
zeros-trim (x ∷ []) = nothing_more (x ∷ [])
zeros-trim (x ∷ y ∷ xs) = elim (Bool-cases (x == 0)) [
  | inl h ↦ rw h (one_more x (y ∷ xs) _ (trim_le (y ∷ xs)) ((==_iff x 0).0 h) (zeros-trim (y ∷ xs)))
  | inr h ↦ rw h (nothing_more (x ∷ y ∷ xs))
]

pad_short : (t : Bytes) → length t ≤ 32 → pad_to_32 t ≡ zeros (32 - length t) ++ t
unfolding pad_to_32
pad_short t hi = elim (Bool-cases (length t == 32)) [
  | inl h ↦ rw h (ap (λ n. zeros n ++ t) {x = 0} (omega (arith, (==_iff (length t) 32).0 h)))
  | inr h ↦ rw h (ground arith)
]

pad_long : (t : Bytes) → length t ≡ 32 → pad_to_32 (0 ∷ t) ≡ t
unfolding pad_to_32
pad_long t h = rw h refl

pad-prefixed :
    (t : Bytes) → 1 ≤ length t → length t ≤ 32 → pad_to_32 (0 ∷ t) ≡ zeros (32 - length t) ++ t
pad-prefixed t lo hi = elim (Bool-cases (length t == 32)) [
  | inl h ↦
      pad_long t ((==_iff (length t) 32).0 h)
      ∙ ap (λ n. zeros n ++ t) {x = 0} (omega (arith, (==_iff (length t) 32).0 h))
  | inr h ↦
      pad_short (0 ∷ t) (ground arith)
      ∙ zeros-snoc (32 - suc (length t)) t
      ∙ ap (λ n. zeros n ++ t) {x = suc (32 - suc (length t))} (ground arith)
]

-- The value of a DER integer, padded, is the integer, padded.
pad-der_value :
    (t : Bytes)
    → 1 ≤ length t
    → length t ≤ 32
    → pad_to_32 (der_value t) ≡ zeros (32 - length t) ++ t
pad-der_value t lo hi = elim (Bool-cases (needs_prefix t)) [
  | inl h ↦ rw h (pad-prefixed t lo hi)
  | inr h ↦ rw h (pad_short t hi)
]

pub pad-trim : (xs : Bytes) → length xs ≡ 32 → pad_to_32 (der_value (trim_leading_zeros xs)) ≡ xs
unfolding Restores
pad-trim [] h = absurd (omega (arith, h))
pad-trim (x ∷ xs) h =
    pad-der_value t (trim_keeps x xs) (omega (arith, h, trim_le (x ∷ xs)))
    ∙ ap (λ n. zeros (n - length t) ++ t) (sym h)
    ∙ zeros-trim (x ∷ xs)
  where
    t : Bytes
    t = trim_leading_zeros (x ∷ xs)
