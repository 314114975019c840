-- ===== src/Refund/RoundTrip.antt =====
-- src/atomic-swap/refund.ts: `derToCompact` reads back what `compactToDer` writes.
use miradex_client.Prelude.{
  some, ltb, ℕ, suc, ◌+◌, ◌-◌, ◌%◌, ◌≤◌, ◌≡◌, refl, ap, ◌∙◌, false, ◌∷◌, ◌++◌, length, get_elem?,
  length-append, arith,
}
use miradex_client.Errors.Codes.{ok}
use miradex_client.Refund.Der.{
  Bytes, take, drop, subarray, trim_leading_zeros, der_value, encode_der_integer, der_body,
  compact_to_der, pad_to_32, second_integer, der_to_compact,
}
use miradex_client.Refund.Slices.{
  take-append, take_all, drop-append, get_elem?-append, append-take-drop, length-take, length-drop,
  trim_le, trim_keeps_some, pad-trim,
}

-- A buffer of four bytes, the first integer, and the rest.
module _ (a b c d : ℕ) (r ys : Bytes) where
  abbrev buffer : Bytes
  buffer = a ∷ b ∷ c ∷ d ∷ r ++ ys

  byte_behind : (i n : ℕ) → i ≡ 4 + length r + n → get_elem? buffer i ≡ get_elem? ys n
  byte_behind i n h =
      ap (λ m. get_elem? buffer m) {y = suc (suc (suc (suc (length r + n))))} (omega (arith, h))
      ∙ get_elem?-append r ys n

  bytes_behind :
      (i j n m : ℕ) → i ≡ 4 + length r + n → j ≡ i + m → subarray buffer i j ≡ take m (drop n ys)
  bytes_behind i j n m hi hj =
      ap (λ k. take k (drop i buffer)) {y = m} (omega (arith, hj))
      ∙ ap (λ k. take m (drop k buffer)) {y = suc (suc (suc (suc (length r + n))))}
          (omega (arith, hi))
      ∙ ap (take m) (drop-append r ys n)

  first_bytes : subarray buffer 4 (4 + length r) ≡ r
  first_bytes =
      ap (λ k. take k (r ++ ys)) {x = 4 + length r - 4} {y = length r} (omega arith)
      ∙ take-append r ys

second_read :
    (der r s : Bytes) (i : ℕ)
    → get_elem? der i ≡ some 2
    → get_elem? der (i + 1) ≡ some (length s)
    → subarray der (i + 2) (i + 2 + length s) ≡ s
    → second_integer der r i ≡ ok (pad_to_32 r ++ pad_to_32 s)
unfolding second_integer
second_read der r s i tag len bytes = ground arith

-- The decoder on two integers that are written one behind the other.
module _ (r s : Bytes) (l : ℕ) where
  abbrev written : Bytes
  written = 48 ∷ l ∷ 2 ∷ length r ∷ r ++ 2 ∷ length s ∷ s

  second_of_written : second_integer written r (4 + length r) ≡ ok (pad_to_32 r ++ pad_to_32 s)
  second_of_written =
      second_read written r s (4 + length r)
        (byte_behind 48 l 2 (length r) r rest (4 + length r) 0 (omega arith))
        (byte_behind 48 l 2 (length r) r rest (4 + length r + 1) 1 (omega arith))
        (bytes_behind 48 l 2 (length r) r rest (4 + length r + 2) (4 + length r + 2 + length s) 2
            (length s) (omega arith) (omega arith)
          ∙ take_all s)
    where
      rest : Bytes
      rest = 2 ∷ length s ∷ s

  not_short : 1 ≤ length r → 1 ≤ length s → ltb (length written) 8 ≡ false
  not_short one_r one_s = ground (arith, length-append r (2 ∷ length s ∷ s))

  read_written :
      1 ≤ length r → 1 ≤ length s → der_to_compact written ≡ ok (pad_to_32 r ++ pad_to_32 s)
  unfolding der_to_compact
  read_written one_r one_s =
      rw (not_short one_r one_s, first_bytes 48 l 2 (length r) r (2 ∷ length s ∷ s))
        second_of_written

encoded :
    (t : Bytes) → length t ≤ 32 → encode_der_integer t ≡ 2 ∷ length (der_value t) ∷ der_value t
unfolding encode_der_integer
encoded t h = ap (λ n. 2 ∷ n ∷ der_value t) (ground arith)

-- The encoder on the two integers of a signature, without their leading zeros.
module _ (t u : Bytes) (t_fits : length t ≤ 32) (u_fits : length u ≤ 32) where
  encoded_body :
      encode_der_integer t ++ encode_der_integer u
      ≡ 2 ∷ length (der_value t) ∷ der_value t ++ 2 ∷ length (der_value u) ∷ der_value u
  encoded_body = rw (encoded t t_fits, encoded u u_fits) refl

  body_fits : ltb 255 (length (encode_der_integer t ++ encode_der_integer u)) ≡ false
  body_fits =
      rw encoded_body
        (ground (arith, length-append (der_value t) (2 ∷ length (der_value u) ∷ der_value u)))

  -- What is decoded of it: the two integers with their zeros again.
  read_encoded :
      (l : ℕ)
      → 1 ≤ length t
      → 1 ≤ length u
      → der_to_compact (48 ∷ l ∷ encode_der_integer t ++ encode_der_integer u)
        ≡ ok (pad_to_32 (der_value t) ++ pad_to_32 (der_value u))
  read_encoded l one_t one_u =
      rw encoded_body (read_written (der_value t) (der_value u) l (ground arith) (ground arith))

-- The halves of a signature of 64 bytes.
module _ (compact : Bytes) (long : length compact ≡ 64) where
  r_half : Bytes
  r_half = subarray compact 0 32

  s_half : Bytes
  s_half = subarray compact 32 64

  r_half-length : length r_half ≡ 32
  unfolding r_half
  r_half-length = length-take 32 compact (omega (arith, long))

  s_half-length : length s_half ≡ 32
  unfolding s_half
  s_half-length = length-take 32 (drop 32 compact) (omega (arith, long, length-drop 32 compact))

  halves : r_half ++ s_half ≡ compact
  unfolding r_half s_half
  halves =
      ap (λ n. take 32 compact ++ take n (drop 32 compact)) {x = 32} {y = length (drop 32 compact)}
        (omega (arith, long, length-drop 32 compact))
      ∙ ap (take 32 compact ++◌) (take_all (drop 32 compact))
      ∙ append-take-drop 32 compact

  r_fits : length (trim_leading_zeros r_half) ≤ 32
  r_fits = omega (arith, r_half-length, trim_le r_half)

  s_fits : length (trim_leading_zeros s_half) ≤ 32
  s_fits = omega (arith, s_half-length, trim_le s_half)

  encodes : compact_to_der compact ≡ ok (48 ∷ length (der_body compact) % 256 ∷ der_body compact)
  unfolding compact_to_der r_half s_half
  encodes =
      rw (long, body_fits (trim_leading_zeros r_half) (trim_leading_zeros s_half) r_fits s_fits)
        refl

  decodes : (l : ℕ) → der_to_compact (48 ∷ l ∷ der_body compact) ≡ ok compact
  unfolding r_half s_half
  decodes l =
      read_encoded (trim_leading_zeros r_half) (trim_leading_zeros s_half) r_fits s_fits l
        (trim_keeps_some r_half (omega (arith, r_half-length)))
        (trim_keeps_some s_half (omega (arith, s_half-length)))
      ∙ ap ok (cc (pad-trim r_half r_half-length, pad-trim s_half s_half-length, halves))

-- A signature of 64 bytes has a DER form, and that form is decoded to the signature.
pub der_to_compact-compact_to_der :
    (compact : Bytes)
    → length compact ≡ 64
    → (der : Bytes) × (compact_to_der compact ≡ ok der) × (der_to_compact der ≡ ok compact)
der_to_compact-compact_to_der compact long =
    (_, encodes compact long, decodes compact long (length (der_body compact) % 256))
