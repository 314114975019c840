-- ===== src/Engine/Stages.antt =====
-- The stages that src/engine/pipeline.ts takes for done.
use Prim.Native.String.{String}
use text.Mathlib.TextEquality.{eq_iff}
use miradex_client.Prelude.{
  ◌≡◌, refl, sym, ap, ◌↔◌, ◌⊎◌, inl, inr, true, some, List, [], ◌∷◌, ◌++◌, arith, Any, str_eq, ◌||◌,
}
use miradex_client.Status.{is_pre_funding, pre_funding_cases}
use miradex_client.Engine.{
  PipelineStage, stage_pending, stage_deposit, stage_confirming, stage_exchanging, stage_cancelling,
  stage_refunded, stage_expired, stage_complete, stage_order, compute_done_stages,
  map_server_status,
}

-- The done stages are the first ones of the order, without a gap, and the current stage is none of
-- them.
pub record IsProgress (stage : PipelineStage) (done : List PipelineStage) : Type 0 where
  pub left : List PipelineStage
  pub initial : done ++ left ≡ stage_order
  pub current : Any (λ s. s ≡ stage) done → ⊥

-- At every stage the stages marked as done are an initial part of the order, and the stage itself
-- is not marked: see `IsProgress`.
pub compute_done_stages-IsProgress :
    (stage : PipelineStage) → IsProgress stage (compute_done_stages (some stage))
unfolding compute_done_stages
compute_done_stages-IsProgress stage_pending = record {
  left = stage_order;
  initial = refl;
  current = λ h. h;
}
compute_done_stages-IsProgress stage_deposit = record {
  left = stage_deposit ∷ stage_confirming ∷ stage_exchanging ∷ [];
  initial = refl;
  current = λ h. ground arith;
}
compute_done_stages-IsProgress stage_confirming = record {
  left = stage_confirming ∷ stage_exchanging ∷ [];
  initial = refl;
  current = λ h. ground arith;
}
compute_done_stages-IsProgress stage_exchanging = record {
  left = stage_exchanging ∷ [];
  initial = refl;
  current = λ h. ground arith;
}
compute_done_stages-IsProgress stage_cancelling = record {
  left = [];
  initial = refl;
  current = λ h. ground arith;
}
compute_done_stages-IsProgress stage_refunded = record {
  left = stage_exchanging ∷ [];
  initial = refl;
  current = λ h. ground arith;
}
compute_done_stages-IsProgress stage_expired = record {
  left = stage_deposit ∷ stage_confirming ∷ stage_exchanging ∷ [];
  initial = refl;
  current = λ h. ground arith;
}
compute_done_stages-IsProgress stage_complete = record {
  left = [];
  initial = refl;
  current = λ h. ground arith;
}

str_eq_symm : (s t : String) → str_eq s t ≡ true → str_eq t s ≡ true
str_eq_symm s t h = ground (arith, eq_iff s t, eq_iff t s)

shown_early :
    (status : String)
    → (map_server_status status ≡ some stage_pending)
      ⊎ (map_server_status status ≡ some stage_deposit)
    → (str_eq status "initializing" || str_eq status "pending" || str_eq status "awaiting_funding")
      ≡ true
unfolding map_server_status
shown_early status h = ground arith

-- The server's status is shown at the stage of the order that is pending, or at the deposit, just
-- if src/types/status.ts counts it as one before the funding.
pub map_server_status-is_pre_funding :
    (status : String)
    → ((map_server_status status ≡ some stage_pending)
        ⊎ (map_server_status status ≡ some stage_deposit))
      ↔ (is_pre_funding status ≡ true)
unfolding map_server_status is_pre_funding
map_server_status-is_pre_funding status = (
  λ h. ground (
    arith,
    shown_early status h,
    str_eq_symm status "pending",
    str_eq_symm status "awaiting_funding",
    str_eq_symm status "initializing",
  ),
  λ h. shown (pre_funding_cases status h),
)
  where
    shown :
        ("pending" ≡ status) ⊎ (("awaiting_funding" ≡ status) ⊎ ("initializing" ≡ status))
        → (map_server_status status ≡ some stage_pending)
          ⊎ (map_server_status status ≡ some stage_deposit)
    shown (inl e) = inl (sym (ap map_server_status e))
    shown (inr (inl e)) = inr (sym (ap map_server_status e))
    shown (inr (inr e)) = inl (sym (ap map_server_status e))
