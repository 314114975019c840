-- ===== src/Flow/Context.antt =====
-- src/engine/flow-context.ts: what the engine knows of a swap, built up step by step, and the two
-- stricter forms of it that the phases of a flow ask for. Null is `none`. The texts of the
-- validation's issues are left out; their paths are kept, in the schema's order.
use Prim.Native.String.{String}
use miradex_client.Prelude.{
  ℕ, Bool, false, Option, none, some, List, [], ◌∷◌, ◌++◌, str_eq, if◌then◌else◌,
}

pub record VerificationCheck : Type 0 where
  pub name : String
  pub passed : Bool
  pub detail : String

-- `VerificationResult`
pub record Verification : Type 0 where
  pub verified : Bool
  pub provider : String
  pub checks : List VerificationCheck
  pub timestamp : ℕ

-- `EXTRA_TYPES`
pub data ExtraType : Type 0 where
  prompt message warning error : ExtraType

pub record Extra : Type 0 where
  pub text : String
  pub kind : ExtraType

pub record FlowContext : Type 0 where
  pub restricted : Bool
  pub deposit_addr : Option String
  pub dest_address : Option String
  pub refund_address : Option String
  pub keystore_id : Option String
  pub deposit_amount : Option String
  pub from_token : Option String
  pub to_token : Option String
  pub expected_out : Option String
  pub amount_in_usd : Option String
  pub expected_out_usd : Option String
  pub qr : Option String
  pub verification : Option Verification
  pub verification_source_url : Option String
  pub expires_at : Option String
  pub deposit_memo : Option String
  pub provider : Option String
  pub swap_id : Option String
  pub swap_number : Option String
  pub extra : Option Extra

-- `Partial<FlowContext>`: a key that is there has its value, which can be null.
pub record Patch : Type 0 where
  pub restricted : Option Bool
  pub deposit_addr : Option (Option String)
  pub dest_address : Option (Option String)
  pub refund_address : Option (Option String)
  pub keystore_id : Option (Option String)
  pub deposit_amount : Option (Option String)
  pub from_token : Option (Option String)
  pub to_token : Option (Option String)
  pub expected_out : Option (Option String)
  pub amount_in_usd : Option (Option String)
  pub expected_out_usd : Option (Option String)
  pub qr : Option (Option String)
  pub verification : Option (Option Verification)
  pub verification_source_url : Option (Option String)
  pub expires_at : Option (Option String)
  pub deposit_memo : Option (Option String)
  pub provider : Option (Option String)
  pub swap_id : Option (Option String)
  pub swap_number : Option (Option String)
  pub extra : Option (Option Extra)

-- The patch without a key.
abbrev pub no_change : Patch
no_change = record {
  restricted = none;
  deposit_addr = none;
  dest_address = none;
  refund_address = none;
  keystore_id = none;
  deposit_amount = none;
  from_token = none;
  to_token = none;
  expected_out = none;
  amount_in_usd = none;
  expected_out_usd = none;
  qr = none;
  verification = none;
  verification_source_url = none;
  expires_at = none;
  deposit_memo = none;
  provider = none;
  swap_id = none;
  swap_number = none;
  extra = none;
}

abbrev pub empty_flow_context : FlowContext
empty_flow_context = record {
  restricted = false;
  deposit_addr = none;
  dest_address = none;
  refund_address = none;
  keystore_id = none;
  deposit_amount = none;
  from_token = none;
  to_token = none;
  expected_out = none;
  amount_in_usd = none;
  expected_out_usd = none;
  qr = none;
  verification = none;
  verification_source_url = none;
  expires_at = none;
  deposit_memo = none;
  provider = none;
  swap_id = none;
  swap_number = none;
  extra = none;
}

-- A key of the patch, or else the value that was there.
abbrev pub or_keep {ℓ} : {A : Type ℓ} → Option A → A → A
or_keep none kept = kept
or_keep (some given) kept = given

unfoldable pub merge_flow_context : (current : FlowContext) (change : Patch) → FlowContext
merge_flow_context current change = record {
  restricted = or_keep change.restricted current.restricted;
  deposit_addr = or_keep change.deposit_addr current.deposit_addr;
  dest_address = or_keep change.dest_address current.dest_address;
  refund_address = or_keep change.refund_address current.refund_address;
  keystore_id = or_keep change.keystore_id current.keystore_id;
  deposit_amount = or_keep change.deposit_amount current.deposit_amount;
  from_token = or_keep change.from_token current.from_token;
  to_token = or_keep change.to_token current.to_token;
  expected_out = or_keep change.expected_out current.expected_out;
  amount_in_usd = or_keep change.amount_in_usd current.amount_in_usd;
  expected_out_usd = or_keep change.expected_out_usd current.expected_out_usd;
  qr = or_keep change.qr current.qr;
  verification = or_keep change.verification current.verification;
  verification_source_url = or_keep change.verification_source_url current.verification_source_url;
  expires_at = or_keep change.expires_at current.expires_at;
  deposit_memo = or_keep change.deposit_memo current.deposit_memo;
  provider = or_keep change.provider current.provider;
  swap_id = or_keep change.swap_id current.swap_id;
  swap_number = or_keep change.swap_number current.swap_number;
  extra = or_keep change.extra current.extra;
}

unfoldable pub create_flow_context : Patch → FlowContext
unfolding merge_flow_context
create_flow_context change = merge_flow_context empty_flow_context change

-- `z.string().min(1)`: the path of an issue, unless the text is there and is not empty.
abbrev pub filled : (path : String) → Option String → List String
filled path none = path ∷ []
filled path (some text) = if str_eq text "" then path ∷ [] else []

-- The schema of `extra`, which every form has.
abbrev pub extra_issues : Option Extra → List String
extra_issues none = []
extra_issues (some extra) = if str_eq extra.text "" then "extra.text" ∷ [] else []

abbrev pub given : (path : String) → Option Verification → List String
given path none = path ∷ []
given path (some verification) = []

-- The forms of a context that passed: the same values, with the types that the schema gives them.
pub record PopulatedFlowContext : Type 0 where
  pub context : FlowContext
  pub deposit_addr : String
  pub dest_address : String
  pub from_token : String
  pub to_token : String
  pub qr : String
  pub provider : String

pub record VerifiedFlowContext : Type 0 where
  pub populated : PopulatedFlowContext
  pub verification : Verification

-- `FlowContextResult`, with the paths of the issues.
pub data FlowContextResult {ℓ} (A : Type ℓ) : Type ℓ where
  valid : A → FlowContextResult A
  invalid : (fields : List String) → FlowContextResult A

abbrev pub if_no_issue {ℓ} : {A : Type ℓ} → List String → A → FlowContextResult A
if_no_issue [] a = valid a
if_no_issue (path ∷ paths) a = invalid (path ∷ paths)

unfoldable pub validate_base : FlowContext → FlowContextResult FlowContext
validate_base ctx = if_no_issue (extra_issues ctx.extra) ctx

-- The issues of the schema, in the order of its keys.
abbrev pub populated_issues : FlowContext → (on_verification : List String) → List String
populated_issues ctx on_verification =
    filled "depositAddr" ctx.deposit_addr
    ++ filled "destAddress" ctx.dest_address
    ++ filled "fromToken" ctx.from_token
    ++ filled "toToken" ctx.to_token
    ++ filled "qr" ctx.qr
    ++ on_verification
    ++ filled "provider" ctx.provider
    ++ extra_issues ctx.extra

abbrev pub text_of : Option String → String
text_of none = ""
text_of (some text) = text

abbrev pub narrowed : FlowContext → PopulatedFlowContext
narrowed ctx = record {
  context = ctx;
  deposit_addr = text_of ctx.deposit_addr;
  dest_address = text_of ctx.dest_address;
  from_token = text_of ctx.from_token;
  to_token = text_of ctx.to_token;
  qr = text_of ctx.qr;
  provider = text_of ctx.provider;
}

unfoldable pub validate_populated : FlowContext → FlowContextResult PopulatedFlowContext
validate_populated ctx = if_no_issue (populated_issues ctx []) (narrowed ctx)

-- The verification is one of the issues' keys too, so it is there where there is no issue.
abbrev pub with_verification :
    List String → PopulatedFlowContext → Option Verification → FlowContextResult VerifiedFlowContext
with_verification issues populated none = invalid issues
with_verification issues populated (some verification) =
    if_no_issue issues (record { populated = populated; verification = verification })

unfoldable pub validate_verified : FlowContext → FlowContextResult VerifiedFlowContext
validate_verified ctx =
    with_verification (populated_issues ctx (given "verification" ctx.verification)) (narrowed ctx)
      ctx.verification
