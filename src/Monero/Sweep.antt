-- ===== src/Monero/Sweep.antt =====
-- src/lib/monero/verify-sweep.ts and src/atomic-swap/monero-sweep/ring-select.ts: the data of a
-- sweep and the members of its rings, checked before the sweep is signed.
use miradex_client.Prelude.{
  ℕ, suc, ◌+◌, ◌*◌, ◌/◌, Bool, true, false, not, ◌||◌, Option, none, some, List, [], ◌∷◌, length,
  ltb, leb, ◌==◌, if◌then◌else◌,
}
use miradex_client.Errors.Codes.{Result, ok, err, plain_error}
use miradex_client.Presign.{◌>>=◌}
use miradex_client.Prelude.{ℤ, pos, negsuc, above_zero}
use miradex_client.Monero.Scalars.{Text, hex_digit, is_space}
use miradex_client.Monero.{same_text}
use miradex_client.Monero.Scanner.{Curve}

-- `BigInt(text)`: white space around is passed over, no digits are 0, a sign goes with decimal digits
-- only, and "0x", "0o" and "0b" name other bases.
abbrev pub trim_start : Text → Text
trim_start [] = []
trim_start (c ∷ cs) = let later = trim_start cs in if is_space c then later else c ∷ cs

abbrev pub trim_end : Text → Text
trim_end [] = []
trim_end (c ∷ cs) =
    let later = trim_end cs in
    elim later [ [] ↦ if is_space c then [] else c ∷ [] | (d ∷ ds) ↦ c ∷ d ∷ ds ]

-- Digits of a base behind a value.
abbrev pub digits_from : (base n : ℕ) → Text → Option ℕ
digits_from base n [] = some n
digits_from base n (c ∷ cs) = elim (hex_digit c) [
  | none ↦ none
  | some d ↦ if ltb d base then digits_from base (base * n + d) cs else none
]

abbrev pub digits : (base : ℕ) → Text → Option ℕ
digits base [] = none
digits base (c ∷ cs) = digits_from base 0 (c ∷ cs)

abbrev pub negated : ℕ → ℤ
negated ℕ.zero = pos 0
negated (suc n) = negsuc n

abbrev pub as_pos : Option ℕ → Result ℤ
as_pos none = err plain_error
as_pos (some n) = ok (pos n)

abbrev pub as_neg : Option ℕ → Result ℤ
as_neg none = err plain_error
as_neg (some n) = ok (negated n)

-- Behind a first unit of "0".
abbrev pub based : Text → Result ℤ
based [] = ok (pos 0)
based (c ∷ cs) =
    if c == 120 || c == 88
    then as_pos (digits 16 cs)
    else if c == 111 || c == 79
    then as_pos (digits 8 cs)
    else if c == 98 || c == 66
    then as_pos (digits 2 cs)
    else as_pos (digits 10 (c ∷ cs))

abbrev pub trimmed_big_int : Text → Result ℤ
trimmed_big_int [] = ok (pos 0)
trimmed_big_int (c ∷ cs) =
    if c == 48
    then based cs
    else if c == 43
    then as_pos (digits 10 cs)
    else if c == 45
    then as_neg (digits 10 cs)
    else as_pos (digits 10 (c ∷ cs))

unfoldable pub big_int : Text → Result ℤ
big_int text = trimmed_big_int (trim_end (trim_start text))

abbrev pub clsag_ring_size : ℕ
clsag_ring_size = 16

abbrev pub pre_clsag_ring_size : ℕ
pre_clsag_ring_size = 11

pub record RingMember : Type 0 where
  pub public_key : Text
  pub commitment : Text

-- A number that is only compared from above: whole, or one that compares with none.
pub data Index : Type 0 where
  whole : ℤ → Index
  not_a_number : Index

abbrev pub is_at_least : (bound : ℕ) → Index → Bool
is_at_least bound (whole (pos n)) = leb bound n
is_at_least bound (whole (negsuc n)) = false
is_at_least bound not_a_number = false

pub record SweepInputData : Type 0 where
  pub ring_members : List RingMember
  pub real_output_index : Index

-- `SweepConstructionData`, with the fields that the check reads: an amount is the text that `String`
-- makes of it.
pub record SweepConstructionData : Type 0 where
  pub inputs : List SweepInputData
  pub address : Text
  pub amount : Text
  pub fee : Text
  pub rct_type : ℕ

-- The texts of `reason`, with the number of the input.
pub data SweepRefusal : Type 0 where
  destination_mismatch amount_not_positive fee_not_positive fee_too_high no_inputs : SweepRefusal
  ring_size_differs real_output_out_of_range : (input : ℕ) → SweepRefusal

pub record SweepVerificationResult : Type 0 where
  pub valid : Bool
  pub amount : Text
  pub fee : Text
  pub reason : Option SweepRefusal

abbrev pub value_of : ℤ → ℕ
value_of (pos n) = n
value_of (negsuc n) = 0

abbrev pub expected_ring_size : SweepConstructionData → ℕ
expected_ring_size data_of = if data_of.rct_type == 6 then clsag_ring_size else pre_clsag_ring_size

-- The loop over the inputs: why the first bad one is refused.
abbrev pub check_inputs : (ring_size i : ℕ) → List SweepInputData → Option SweepRefusal
check_inputs ring_size i [] = none
check_inputs ring_size i (input ∷ inputs) =
    let later = check_inputs ring_size (suc i) inputs in
    if not (length input.ring_members == ring_size)
    then some (ring_size_differs i)
    else if is_at_least (length input.ring_members) input.real_output_index
    then some (real_output_out_of_range i)
    else later

-- The checks of the two amounts, which are above 0 where they are compared.
unfoldable pub check_values : (amount fee : ℤ) → SweepConstructionData → Option SweepRefusal
check_values amount fee data_of =
    if not (above_zero fee)
    then some fee_not_positive
    else if ltb (value_of amount / 10) (value_of fee)
    then some fee_too_high
    else if length data_of.inputs == 0
    then some no_inputs
    else check_inputs (expected_ring_size data_of) 0 data_of.inputs

unfoldable pub refuse_sweep :
    SweepConstructionData → (expected_address : Text) → Result (Option SweepRefusal)
refuse_sweep data_of expected_address =
    if not (same_text data_of.address expected_address) then ok (some destination_mismatch) else (do
      amount ← big_int data_of.amount
      if not (above_zero amount)
          then ok (some amount_not_positive)
          else (do fee ← big_int data_of.fee; ok (check_values amount fee data_of)))

abbrev pub is_none : Option SweepRefusal → Bool
is_none none = true
is_none (some r) = false

unfoldable pub verify_sweep_tx :
    SweepConstructionData → (expected_address : Text) → Result SweepVerificationResult
verify_sweep_tx data_of expected_address = do
  reason ← refuse_sweep data_of expected_address
  ok (record {
    valid = is_none reason;
    amount = data_of.amount;
    fee = data_of.fee;
    reason = reason;
  })

-- `OutputKeyInfo`
pub record OutputKeyInfo : Type 0 where
  pub key : Text
  pub mask : Text
  pub unlocked : Bool
  pub height : ℕ

-- The texts of `reason` for a ring member.
pub data MemberFault : Type 0 where
  identity_key invalid_key_point invalid_commitment_point : MemberFault
  not_yet_unlocked : (height : ℕ) → MemberFault

-- `'00'.repeat(n)`
abbrev pub repeat_zero : ℕ → Text
repeat_zero ℕ.zero = []
repeat_zero (suc n) = 48 ∷ 48 ∷ repeat_zero n

abbrev pub identity_hex : Text
identity_hex = 48 ∷ 49 ∷ repeat_zero 31

module _ {Point : Type 0} (c : Curve Point) where
  unfoldable pub member_fault : OutputKeyInfo → Option MemberFault
  member_fault member = elim (c.from_hex member.key) [
    | err e ↦ some invalid_key_point
    | ok key ↦
        if same_text member.key identity_hex
        then some identity_key
        else elim (c.from_hex member.mask) [
          | err e ↦ some invalid_commitment_point
          | ok mask ↦ if not member.unlocked then some (not_yet_unlocked member.height) else none
        ]
  ]

  -- `validateRingMembers`, from the index `i`.
  abbrev pub validate_from : ℕ → List OutputKeyInfo → List (ℕ × MemberFault)
  validate_from i [] = []
  validate_from i (member ∷ members) =
      let later = validate_from (suc i) members in
      elim (member_fault member) [ none ↦ later | some fault ↦ (i, fault) ∷ later ]

  unfoldable pub validate_ring_members : List OutputKeyInfo → List (ℕ × MemberFault)
  validate_ring_members members = validate_from 0 members
