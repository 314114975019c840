-- ===== src/Retry/Backoff.antt =====
-- The delays of src/lib/retry.ts.
use Prim.Native.Nat.{ℕ, zero, suc, ◌+◌, ◌-◌, ◌*◌, ◌^◌, ◌≤◌, min}
use native.Mathlib.Nat.{pow-suc, add-zero, add-suc}
use miradex_client.Prelude.{◌≡◌, arith}
use miradex_client.Retry.{compute_backoff_ms}

pow_pos : (k : ℕ) → 1 ≤ 2 ^ k
pow_pos zero = omega arith
pow_pos (suc k) = rw pow-suc (omega (arith, pow_pos k))

pow_mono : (a d : ℕ) → 2 ^ a ≤ 2 ^ (a + d)
pow_mono a zero = rw add-zero (omega arith)
pow_mono a (suc d) = rw (add-suc, pow-suc) (omega (arith, pow_mono a d))

pow_le : (a b : ℕ) → a ≤ b → 2 ^ a ≤ 2 ^ b
pow_le a b h = let e : b ≡ a + (b - a) = omega arith in rw e (pow_mono a (b - a))

delay_mono : (base p q cap : ℕ) → p ≤ q → min (base * p) cap ≤ min (base * q) cap
delay_mono base p q cap h = grind arith

-- A delay is never above the cap, and a later retry never waits less than an earlier one.
pub backoff_capped_mono :
    (n d base cap : ℕ)
    → (compute_backoff_ms n base cap ≤ cap)
      × (compute_backoff_ms n base cap ≤ compute_backoff_ms (n + d) base cap)
unfolding compute_backoff_ms
backoff_capped_mono zero d base cap = (omega arith, omega arith)
backoff_capped_mono (suc n) d base cap =
    let more : 2 ^ min n 30 ≤ 2 ^ min (n + d) 30 = pow_le _ _ (omega arith) in
    let first : suc n - 1 ≡ n = omega arith in
    let later : suc n + d - 1 ≡ n + d = omega arith in
    let grows = delay_mono base _ _ cap more in rw (first, later) (ground arith)
