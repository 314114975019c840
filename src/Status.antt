-- ===== src/Status.antt =====
-- src/types/status.ts: which statuses of the server end a swap, and which come before its funding.
-- A status is a text, since the wire type has an open tail.
use Prim.Native.String.{String}
use text.Mathlib.TextEquality.{eq_iff}
use miradex_client.Prelude.{◌≡◌, ◌⊎◌, Bool, true, List, [], ◌∷◌, arith, str_eq, any}

abbrev pub terminal_statuses : List String
terminal_statuses = "completed" ∷ "failed" ∷ "refunded" ∷ "withheld" ∷ "expired" ∷ []

abbrev pub pre_funding_statuses : List String
pre_funding_statuses = "pending" ∷ "awaiting_funding" ∷ "initializing" ∷ []

abbrev pub has : List String → String → Bool
has set status = any (λ s. str_eq s status) set

unfoldable pub is_terminal : String → Bool
is_terminal status = has terminal_statuses status

unfoldable pub is_pre_funding : String → Bool
is_pre_funding status = has pre_funding_statuses status

pub pre_funding_cases :
    (status : String)
    → is_pre_funding status ≡ true
    → ("pending" ≡ status) ⊎ (("awaiting_funding" ≡ status) ⊎ ("initializing" ≡ status))
unfolding is_pre_funding
pre_funding_cases status h =
    ground (
      arith,
      eq_iff "pending" status,
      eq_iff "awaiting_funding" status,
      eq_iff "initializing" status,
    )
