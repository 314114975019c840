-- ===== src/Monero/Sweeping.antt =====
-- src/lib/monero/verify-sweep.ts and src/atomic-swap/monero-sweep/ring-select.ts: what passes.
use miradex_client.Prelude.{
  ℕ, suc, ◌*◌, ◌≤◌, ◌<◌, ◌≡◌, refl, ◌↔◌, true, false, Option, none, some, List, [], ◌∷◌, ◌∙◌, ap,
  arith, length, All, Bool-cases, inl, inr,
}
use miradex_client.Errors.Codes.{Result, ok, is_ok}
use miradex_client.Presign.Chains.{bound}
use miradex_client.Prelude.{ℤ, pos, negsuc, above_zero}
use miradex_client.Monero.Scalars.{Text}
use miradex_client.Monero.{same_text}
use miradex_client.Monero.Scanner.{Curve}
use miradex_client.Monero.Sweep.{
  big_int, SweepInputData, SweepConstructionData, SweepRefusal, SweepVerificationResult,
  expected_ring_size, is_at_least, check_inputs, check_values, refuse_sweep, verify_sweep_tx,
  OutputKeyInfo, identity_hex, member_fault, validate_from, validate_ring_members,
}

-- The ring has the size, and the real output's index is not at or above it: it may be negative, or
-- not a number.
abbrev pub IsRing : ℕ → SweepInputData → Type 0
IsRing size input =
    (length input.ring_members ≡ size) × (is_at_least size input.real_output_index ≡ false)

check_inputs_iff :
    (size i : ℕ) (inputs : List SweepInputData)
    → (check_inputs size i inputs ≡ none) ↔ All (IsRing size) inputs
check_inputs_iff size i [] = (λ e. tt, λ h. refl)
check_inputs_iff size i (input ∷ inputs) =
    let later = check_inputs_iff size (suc i) inputs in ground (arith, later)

-- What a sweep is checked for.
pub record IsSweepable (data_of : SweepConstructionData) (expected_address : Text) : Type 0 where
  pub amount : ℕ
  pub fee : ℕ
  pub same_address : same_text data_of.address expected_address ≡ true
  pub is_amount : big_int data_of.amount ≡ ok (pos amount)
  pub is_fee : big_int data_of.fee ≡ ok (pos fee)
  pub fee_positive : 0 < fee
  pub fee_low : 10 * fee ≤ amount
  pub has_inputs : 0 < length data_of.inputs
  pub rings : All (IsRing (expected_ring_size data_of)) data_of.inputs

some_not_none : {P : Type 0} {r : SweepRefusal} → ok (some r) ≡ ok none → P
some_not_none e = ground arith

above_zero_pos : (n : ℤ) → above_zero n ≡ true → (m : ℕ) × (n ≡ pos m) × (0 < m)
above_zero_pos (pos m) e = (m, refl, ground arith)
above_zero_pos (negsuc m) e = ground arith

-- The two amounts and the inputs, where nothing is refused.
check_values_iff :
    (amount : ℕ) (fee : ℕ) (data_of : SweepConstructionData)
    → (check_values (pos amount) (pos fee) data_of ≡ none) ↔ (
        (0 < fee)
        × (10 * fee ≤ amount)
        × (0 < length data_of.inputs)
        × All (IsRing (expected_ring_size data_of)) data_of.inputs)
unfolding check_values
check_values_iff amount fee data_of =
    let rings = check_inputs_iff (expected_ring_size data_of) 0 data_of.inputs in
    ground (arith, rings)

fee_above_zero :
    (amount fee : ℤ) (data_of : SweepConstructionData)
    → check_values amount fee data_of ≡ none
    → above_zero fee ≡ true
unfolding check_values
fee_above_zero amount fee data_of e = elim (Bool-cases (above_zero fee)) [
  | inl h ↦ h
  | inr h ↦ refused (rw h at e)
]
  where
    refused : {P : Type 0} {r : SweepRefusal} → some r ≡ none → P
    refused k = ground arith

same_reason : {r s : Option SweepRefusal} → ok r ≡ ok s → r ≡ s
same_reason e = ground arith

values-IsSweepable :
    (data_of : SweepConstructionData) (expected_address : Text) (amount fee : ℤ)
    → same_text data_of.address expected_address ≡ true
    → big_int data_of.amount ≡ ok amount
    → above_zero amount ≡ true
    → big_int data_of.fee ≡ ok fee
    → check_values amount fee data_of ≡ none
    → IsSweepable data_of expected_address
values-IsSweepable data_of address (negsuc n) fee s a positive f e = ground arith
values-IsSweepable data_of address (pos n) (negsuc m) s a positive f e =
    let positive_fee = fee_above_zero (pos n) (negsuc m) data_of e in ground arith
values-IsSweepable data_of address (pos n) (pos m) s a positive f e =
    let holds = (check_values_iff n m data_of).0 e in
    record {
      amount = n;
      fee = m;
      same_address = s;
      is_amount = a;
      is_fee = f;
      fee_positive = holds.0;
      fee_low = holds.1;
      has_inputs = holds.2;
      rings = holds.3;
    }

refuse_sweep-IsSweepable :
    (data_of : SweepConstructionData) (expected_address : Text)
    → refuse_sweep data_of expected_address ≡ ok none
    → IsSweepable data_of expected_address
unfolding refuse_sweep
refuse_sweep-IsSweepable data_of address e = elim (Bool-cases (same_text data_of.address address)) [
  | inr differs ↦ some_not_none (rw differs at e)
  | inl same ↦
      let amount = bound (big_int data_of.amount) _ (rw same at e) in
      elim (Bool-cases (above_zero amount.0)) [
        | inr low ↦ some_not_none (rw low at amount.2)
        | inl positive ↦
            let fee = bound (big_int data_of.fee) _ (rw positive at amount.2) in
            values-IsSweepable data_of address amount.0 fee.0 same amount.1 positive fee.1
              (same_reason fee.2)
      ]
]

IsSweepable-refuse_sweep :
    (data_of : SweepConstructionData) (expected_address : Text)
    → IsSweepable data_of expected_address
    → refuse_sweep data_of expected_address ≡ ok none
unfolding refuse_sweep
IsSweepable-refuse_sweep data_of address s =
    let clear =
      (check_values_iff s.amount s.fee data_of).1
        (s.fee_positive, s.fee_low, s.has_inputs, s.rings) in
    rw
      (
        s.same_address,
        s.is_amount,
        positive s.amount s.fee s.fee_positive s.fee_low,
        s.is_fee,
        clear,
      )
      refl
  where
    positive : (amount fee : ℕ) → 0 < fee → 10 * fee ≤ amount → above_zero (pos amount) ≡ true
    positive amount fee h k = ground arith

abbrev pub sweep_passed : SweepConstructionData → SweepVerificationResult
sweep_passed data_of = record {
  valid = true;
  amount = data_of.amount;
  fee = data_of.fee;
  reason = none;
}

-- The data of a sweep passes exactly if it names the expected address, both amounts are numbers, the
-- fee is positive and at most a tenth of the amount, there are inputs, and each has a ring of the
-- size of its type and an index of the real output that is not at or above that size (see
-- `IsSweepable`). There is no lower bound on the index.
pub verify_sweep_tx_iff :
    (data_of : SweepConstructionData) (expected_address : Text)
    → (verify_sweep_tx data_of expected_address ≡ ok (sweep_passed data_of))
      ↔ IsSweepable data_of expected_address
unfolding verify_sweep_tx
verify_sweep_tx_iff data_of address = (
  λ e.
      let reason = bound (refuse_sweep data_of address) _ e in
      refuse_sweep-IsSweepable data_of address
        (no_reason (refuse_sweep data_of address) reason.0 reason.1 (result_reason reason.2)),
  λ s. rw (IsSweepable-refuse_sweep data_of address s) refl,
)
  where
    no_reason :
        (answer : Result (Option SweepRefusal)) (reason : Option SweepRefusal)
        → answer ≡ ok reason
        → reason ≡ none
        → answer ≡ ok none
    no_reason answer reason e h = e ∙ ap ok h

    result_reason : {v w : SweepVerificationResult} → ok v ≡ ok w → v.reason ≡ w.reason
    result_reason e = ground arith

module _ {Point : Type 0} (c : Curve Point) where
  -- A member of a ring that can be signed with.
  abbrev pub IsMember : OutputKeyInfo → Type 0
  IsMember member =
      (is_ok (c.from_hex member.key) ≡ true)
      × (same_text member.key identity_hex ≡ false)
      × (is_ok (c.from_hex member.mask) ≡ true)
      × (member.unlocked ≡ true)

  member_fault_iff : (member : OutputKeyInfo) → (member_fault c member ≡ none) ↔ IsMember member
  unfolding member_fault
  member_fault_iff member = ground arith

  validate_from_iff :
      (i : ℕ) (members : List OutputKeyInfo)
      → (validate_from c i members ≡ []) ↔ All IsMember members
  validate_from_iff i [] = (λ e. tt, λ h. refl)
  validate_from_iff i (member ∷ members) =
      let first_one = member_fault_iff member in
      let later = validate_from_iff (suc i) members in ground arith

  -- No member of a ring has to be replaced exactly if each has a key that is a point and not the
  -- identity, a commitment that is a point, and is unlocked.
  pub validate_ring_members_iff :
      (members : List OutputKeyInfo) → (validate_ring_members c members ≡ []) ↔ All IsMember members
  unfolding validate_ring_members
  validate_ring_members_iff members = validate_from_iff 0 members
