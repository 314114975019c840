-- ===== src/Refund/Der.antt =====
-- src/atomic-swap/refund.ts: signatures of 64 bytes and their DER form, `compactToDer`,
-- `derToCompact` and `isLowS`. A buffer is the list of its bytes.
use miradex_client.Prelude.{
  ℕ, zero, suc, ◌+◌, ◌-◌, ◌*◌, ◌/◌, ◌%◌, Bool, false, not, ◌&&◌, ◌||◌, none, some, List, [], ◌∷◌,
  ◌++◌, length, get_elem?, ltb, leb, ◌==◌, if◌then◌else◌,
}
use miradex_client.Errors.Codes.{Result, ok, err, plain_error}

abbrev pub Bytes : Type 0
Bytes = List ℕ

abbrev pub take : ℕ → Bytes → Bytes
take zero bytes = []
take (suc n) [] = []
take (suc n) (b ∷ bytes) = b ∷ take n bytes

abbrev pub drop : ℕ → Bytes → Bytes
drop zero bytes = bytes
drop (suc n) [] = []
drop (suc n) (b ∷ bytes) = drop n bytes

-- `Buffer.alloc`
abbrev pub zeros : ℕ → Bytes
zeros zero = []
zeros (suc n) = 0 ∷ zeros n

-- `buf.subarray(from, to)`
abbrev pub subarray : Bytes → (from to : ℕ) → Bytes
subarray bytes from to = take (to - from) (drop from bytes)

unfoldable pub trim_leading_zeros : Bytes → Bytes
trim_leading_zeros [] = []
trim_leading_zeros (b ∷ []) = b ∷ []
trim_leading_zeros (b ∷ c ∷ bytes) =
    let rest = trim_leading_zeros (c ∷ bytes) in if b == 0 then rest else b ∷ c ∷ bytes

-- `(high & 0x80) !== 0` for the first byte.
abbrev pub needs_prefix : Bytes → Bool
needs_prefix [] = false
needs_prefix (high ∷ bytes) = high / 128 % 2 == 1

abbrev pub der_value : Bytes → Bytes
der_value integer = if needs_prefix integer then 0 ∷ integer else integer

unfoldable pub encode_der_integer : Bytes → Bytes
encode_der_integer integer = 2 ∷ length (der_value integer) % 256 ∷ der_value integer

abbrev pub der_body : Bytes → Bytes
der_body compact =
    encode_der_integer (trim_leading_zeros (subarray compact 0 32))
    ++ encode_der_integer (trim_leading_zeros (subarray compact 32 64))

unfoldable pub compact_to_der : Bytes → Result Bytes
compact_to_der compact =
    if not (length compact == 64)
    then err plain_error
    else if ltb 255 (length (der_body compact))
    then err plain_error
    else ok (48 ∷ length (der_body compact) % 256 ∷ der_body compact)

unfoldable pub pad_to_32 : Bytes → Bytes
pad_to_32 bytes =
    if length bytes == 32
    then bytes
    else if ltb 32 (length bytes)
    then drop (length bytes - 32) bytes
    else zeros (32 - length bytes) ++ bytes

-- Whether the byte at `i` is there and is `b`.
abbrev pub has_byte : Bytes → (i b : ℕ) → Bool
has_byte bytes i b = elim (get_elem? bytes i) [ none ↦ false | some c ↦ c == b ]

-- The second integer, whose tag is at `i`.
unfoldable pub second_integer : (der r : Bytes) → (i : ℕ) → Result Bytes
second_integer der r i =
    if not (has_byte der i 2) then err plain_error else elim (get_elem? der (i + 1)) [
      | none ↦ err plain_error
      | some s_len ↦ ok (pad_to_32 r ++ pad_to_32 (subarray der (i + 2) (i + 2 + s_len)))
    ]

unfoldable pub der_to_compact : Bytes → Result Bytes
der_to_compact der =
    if ltb (length der) 8 || not (has_byte der 0 48)
    then err plain_error
    else if not (has_byte der 2 2)
    then err plain_error
    else elim (get_elem? der 3) [
      | none ↦ err plain_error
      | some r_len ↦ second_integer der (subarray der 4 (4 + r_len)) (4 + r_len)
    ]

-- `BigInt('0x' + hex)`
abbrev pub be_value : ℕ → Bytes → ℕ
be_value acc [] = acc
be_value acc (b ∷ bytes) = be_value (acc * 256 + b) bytes

abbrev pub secp256k1_n : ℕ
secp256k1_n = 0xfffffffffffffffffffffffffffffffebaaedce6af48a03bbfd25e8cd0364141

abbrev pub secp256k1_n_half : ℕ
secp256k1_n_half = secp256k1_n / 2

unfoldable pub is_low_s : Bytes → Bool
is_low_s compact =
    if not (length compact == 64)
    then false
    else let s = be_value 0 (subarray compact 32 64) in ltb 0 s && leb s secp256k1_n_half
