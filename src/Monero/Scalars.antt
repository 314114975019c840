-- ===== src/Monero/Scalars.antt =====
-- src/lib/crypto/scalars.ts and the codes of src/lib/monero/output-scanner.ts: scalars in hex and in
-- bytes, least byte first, and `encodeVarint`. A text of hex is the list of its UTF-16 units.
use miradex_client.Prelude.{
  ℕ, zero, suc, ◌+◌, ◌-◌, ◌*◌, ◌/◌, ◌%◌, ◌^◌, Bool, ◌&&◌, ◌||◌, Option, none, some, List, [], ◌∷◌,
  leb, ◌==◌, if◌then◌else◌,
}
use miradex_client.Errors.Codes.{Result, ok, err, plain_error}
use miradex_client.Presign.{◌>>=◌}
use miradex_client.Refund.Der.{Bytes}

abbrev pub Text : Type 0
Text = List ℕ

abbrev pub ed25519_group_order : ℕ
ed25519_group_order = 2 ^ 252 + 27742317777372353535851937790883648493

abbrev pub bytes_to_nat_le : Bytes → ℕ
bytes_to_nat_le [] = 0
bytes_to_nat_le (b ∷ bytes) = b + 256 * bytes_to_nat_le bytes

abbrev pub bytes_from : (count n : ℕ) → Bytes
bytes_from zero n = []
bytes_from (suc count) n = n % 256 ∷ bytes_from count (n / 256)

-- `bigIntToBytes`
unfoldable pub nat_to_bytes : ℕ → Bytes
nat_to_bytes n = bytes_from 32 (n % ed25519_group_order)

-- The value of a hex digit.
abbrev pub hex_digit : ℕ → Option ℕ
hex_digit c =
    if leb 48 c && leb c 57
    then some (c - 48)
    else if leb 97 c && leb c 102
    then some (c - 87)
    else if leb 65 c && leb c 70
    then some (c - 55)
    else none

-- The white space that `parseInt` passes over.
abbrev pub is_space : ℕ → Bool
is_space c =
    (leb 9 c && leb c 13)
    || c == 32
    || c == 160
    || c == 5760
    || (leb 8192 c && leb c 8202)
    || c == 8232
    || c == 8233
    || c == 8239
    || c == 8287
    || c == 12288
    || c == 65279

-- `Number.parseInt` of two units in base 16, as it is stored in a byte: a digit may have white space
-- or a sign before it or anything behind it, but "0x" has no digits.
abbrev pub parse_pair : ℕ → ℕ → Option ℕ
parse_pair c d = elim (hex_digit c) [
  | some high ↦ elim (hex_digit d) [
    | some low ↦ some (16 * high + low)
    | none ↦ if high == 0 && (d == 120 || d == 88) then none else some high
  ]
  | none ↦ elim (hex_digit d) [
    | none ↦ none
    | some low ↦
        if is_space c || c == 43
        then some low
        else if c == 45
        then some ((256 - low) % 256)
        else none
  ]
]

abbrev pub hex_to_bytes_local : Text → Result Bytes
hex_to_bytes_local [] = ok []
hex_to_bytes_local (c ∷ []) = err plain_error
hex_to_bytes_local (c ∷ d ∷ rest) =
    let later = hex_to_bytes_local rest in
    elim (parse_pair c d) [
      | none ↦ err plain_error
      | some byte ↦ (do bytes ← later; ok (byte ∷ bytes))
    ]

-- `hexToScalarLE`
unfoldable pub hex_to_scalar : Text → Result ℕ
hex_to_scalar hex = do
  bytes ← hex_to_bytes_local hex
  ok (bytes_to_nat_le bytes % ed25519_group_order)

-- The loop of `encodeVarint`, from the value's 32 bits.
abbrev pub varint_loop : (fuel v : ℕ) → Bytes
varint_loop zero v = []
varint_loop (suc fuel) v =
    let more = varint_loop fuel (v / 128) in
    if v / 128 == 0 then v % 128 ∷ [] else (v % 128 + 128) ∷ more

unfoldable pub encode_varint : ℕ → Bytes
encode_varint value = varint_loop 5 (value % 2 ^ 32)
