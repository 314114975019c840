-- ===== src/Presign/Chains.antt =====
-- Chains of calls that can throw, taken apart: what a chain's result says of its steps.
use mathlib.Core.Path.{subst}
use miradex_client.Prelude.{◌≡◌, refl, arith}
use miradex_client.Errors.Codes.{Result, ok, err}
use miradex_client.Presign.{◌>>=◌, ◌>>◌}

pub bound :
    {A B : Type 0} (r : Result A) (f : A → Result B) {v : B}
    → (r >>= f) ≡ ok v
    → (a : A) × (r ≡ ok a) × (f a ≡ ok v)
bound (err failure) f e = ground arith
bound (ok a) f e = (a, refl, e)

pub passed :
    {B : Type 0} (r : Result (Unit {0})) (rest : Result B) {v : B}
    → (r >> rest) ≡ ok v
    → (r ≡ ok tt) × (rest ≡ ok v)
passed (err failure) rest e = ground arith
passed (ok tt) rest e = (refl, e)

-- What holds for the value that a chain ends with holds for its result.
pub returned :
    {A : Type 0} (P : A → Type 0) {a b : A} → ◌≡◌ {A = Result A} (ok a) (ok b) → P a → P b
returned P e p = subst P (ground arith) p
