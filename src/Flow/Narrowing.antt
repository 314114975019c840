-- ===== src/Flow/Narrowing.antt =====
-- src/engine/flow-context.ts: what the stricter forms of a context hold.
use Prim.Native.String.{String}
use mathlib.Core.Path.{subst}
use text.Mathlib.TextEquality.{eq_iff}
use miradex_client.Prelude.{
  ◌≡◌, refl, ap, ◌∙◌, ◌↔◌, ◌≢◌, Option, none, some, List, [], ◌∷◌, ◌++◌, arith,
}
use miradex_client.Flow.Context.{
  FlowContext, Extra, Verification, PopulatedFlowContext, VerifiedFlowContext, valid, filled, given,
  extra_issues, populated_issues, narrowed, if_no_issue, text_of, with_verification,
  validate_populated, validate_verified,
}

-- The text is there, and is not empty.
abbrev pub IsFilled : Option String → Type 0
IsFilled none = ⊥
IsFilled (some text) = ◌≢◌ {A = String} text ""

abbrev pub IsSound : Option Extra → Type 0
IsSound none = Unit
IsSound (some extra) = ◌≢◌ {A = String} extra.text ""

abbrev pub IsGiven : Option Verification → Type 0
IsGiven none = ⊥
IsGiven (some verification) = Unit

pub record IsPopulated (ctx : FlowContext) : Type 0 where
  pub deposit_addr : IsFilled ctx.deposit_addr
  pub dest_address : IsFilled ctx.dest_address
  pub from_token : IsFilled ctx.from_token
  pub to_token : IsFilled ctx.to_token
  pub qr : IsFilled ctx.qr
  pub provider : IsFilled ctx.provider
  pub extra : IsSound ctx.extra

filled-IsFilled : (path : String) (o : Option String) → (filled path o ≡ []) ↔ IsFilled o
filled-IsFilled path none = ground arith
filled-IsFilled path (some text) = ground (arith, eq_iff text "")

extra-IsSound : (o : Option Extra) → (extra_issues o ≡ []) ↔ IsSound o
extra-IsSound none = ground arith
extra-IsSound (some extra) = ground (arith, eq_iff extra.text "")

given-IsGiven : (path : String) (o : Option Verification) → (given path o ≡ []) ↔ IsGiven o
given-IsGiven path none = ground arith
given-IsGiven path (some verification) = ground arith

append_empty : (xs ys : List String) → ◌≡◌ {A = List String} (xs ++ ys) [] → (xs ≡ []) × (ys ≡ [])
append_empty [] ys e = (refl, e)
append_empty (x ∷ xs) ys e = ground arith

-- No issue, exactly if the texts are there and the further issues are none.
no_issue :
    (ctx : FlowContext) (more : List String)
    → populated_issues ctx more ≡ []
    → (more ≡ []) × IsPopulated ctx
no_issue ctx more e =
    let h = append_empty _ (extra_issues ctx.extra) e in
    let g = append_empty _ (filled "provider" ctx.provider) h.0 in
    let f = append_empty _ more g.0 in
    let d = append_empty _ (filled "qr" ctx.qr) f.0 in
    let c = append_empty _ (filled "toToken" ctx.to_token) d.0 in
    let b = append_empty _ (filled "fromToken" ctx.from_token) c.0 in
    let a = append_empty (filled "depositAddr" ctx.deposit_addr) _ b.0 in
    (
      f.1,
      record {
        deposit_addr = (filled-IsFilled _ _).0 a.0;
        dest_address = (filled-IsFilled _ _).0 a.1;
        from_token = (filled-IsFilled _ _).0 b.1;
        to_token = (filled-IsFilled _ _).0 c.1;
        qr = (filled-IsFilled _ _).0 d.1;
        provider = (filled-IsFilled _ _).0 g.1;
        extra = (extra-IsSound _).0 h.1;
      },
    )

-- The text of the narrowed form is the one of the context, and is not empty.
abbrev pub IsText : Option String → String → Type 0
IsText o text = (o ≡ some text) × (◌≢◌ {A = String} text "")

-- A populated form has the context's own texts, none of them empty.
pub record Narrows (ctx : FlowContext) (p : PopulatedFlowContext) : Type 0 where
  pub context : p.context ≡ ctx
  pub deposit_addr : IsText ctx.deposit_addr p.deposit_addr
  pub dest_address : IsText ctx.dest_address p.dest_address
  pub from_token : IsText ctx.from_token p.from_token
  pub to_token : IsText ctx.to_token p.to_token
  pub qr : IsText ctx.qr p.qr
  pub provider : IsText ctx.provider p.provider

filled-IsText : (o : Option String) → IsFilled o → IsText o (text_of o)
filled-IsText none h = absurd h
filled-IsText (some text) h = (refl, h)

narrowed-Narrows : (ctx : FlowContext) → IsPopulated ctx → Narrows ctx (narrowed ctx)
narrowed-Narrows ctx h = record {
  context = refl;
  deposit_addr = filled-IsText _ h.deposit_addr;
  dest_address = filled-IsText _ h.dest_address;
  from_token = filled-IsText _ h.from_token;
  to_token = filled-IsText _ h.to_token;
  qr = filled-IsText _ h.qr;
  provider = filled-IsText _ h.provider;
}

if_no_issue-valid :
    {A : Type 0} (issues : List String) (a b : A)
    → if_no_issue issues a ≡ valid b
    → (issues ≡ []) × (a ≡ b)
if_no_issue-valid [] a b e = (refl, ground arith)
if_no_issue-valid (path ∷ paths) a b e = ground arith

pub validate_populated-IsPopulated :
    (ctx : FlowContext) (p : PopulatedFlowContext)
    → validate_populated ctx ≡ valid p
    → IsPopulated ctx × Narrows ctx p
unfolding validate_populated
validate_populated-IsPopulated ctx p e =
    let none_left = if_no_issue-valid (populated_issues ctx []) (narrowed ctx) p e in
    let populated = no_issue ctx [] none_left.0 in
    (populated.1, subst (Narrows ctx) none_left.1 (narrowed-Narrows ctx populated.1))

-- A verified form is a populated form, and its verification is the context's. That the
-- verification was passed is not asked for.
pub record IsVerified (ctx : FlowContext) (v : VerifiedFlowContext) : Type 0 where
  pub populated : Narrows ctx v.populated
  pub filled : IsPopulated ctx
  pub also_populated : validate_populated ctx ≡ valid v.populated
  pub verification : ctx.verification ≡ some v.verification

verified_from :
    (ctx : FlowContext) (issues : List String) (o : Option Verification) (v : VerifiedFlowContext)
    → with_verification issues (narrowed ctx) o ≡ valid v
    → (issues ≡ []) × (o ≡ some v.verification) × (narrowed ctx ≡ v.populated)
verified_from ctx issues none v e = ground arith
verified_from ctx [] (some verification) v e = (refl, ground arith, ground arith)
verified_from ctx (path ∷ paths) (some verification) v e = ground arith

-- A context that passes for the phases behind the verification passes for those behind the deposit
-- too, in the same form; its texts are those of the context, none is empty, and its verification is
-- the context's (see `IsVerified`).
pub validate_verified-IsVerified :
    (ctx : FlowContext) (v : VerifiedFlowContext)
    → validate_verified ctx ≡ valid v
    → IsVerified ctx v
unfolding validate_verified validate_populated
validate_verified-IsVerified ctx v e =
    let facts = verified_from ctx _ ctx.verification v e in
    let populated = no_issue ctx (given "verification" ctx.verification) facts.0 in
    record {
      populated = subst (Narrows ctx) facts.2 (narrowed-Narrows ctx populated.1);
      filled = populated.1;
      also_populated =
          ap (λ issues. if_no_issue issues (narrowed ctx))
            (subst (λ more. populated_issues ctx more ≡ []) populated.0 facts.0)
          ∙ ap valid facts.2;
      verification = facts.1;
    }
