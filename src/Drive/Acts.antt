-- ===== src/Drive/Acts.antt =====
-- Pieces of a round of src/atomic-swap/drive.ts: what they do, the state they leave, and how the
-- round goes on.
use miradex_client.Prelude.{List, [], ◌∷◌, ◌++◌}
use miradex_client.Errors.Codes.{Result, ok, err, Failure}
use miradex_client.Drive.{Event, State, Flow, next, again, stop, fail}

abbrev pub Act : Type 0 → Type 0
Act A = State → List Event × State × Flow A

abbrev pub follow :
    {A B : Type 0} → List Event → State → Flow A → (A → Act B) → List Event × State × Flow B
follow es s (next a) f = (es ++ (f a s).0, (f a s).1, (f a s).2)
follow es s again f = (es, s, again)
follow es s stop f = (es, s, stop)
follow es s (fail e) f = (es, s, fail e)

infixl 5 ◌>>=◌ ◌>>◌
abbrev pub ◌>>=◌ : {A B : Type 0} → Act A → (A → Act B) → Act B
◌>>=◌ m f s = follow (m s).0 (m s).1 (m s).2 f

abbrev pub ◌>>◌ : {B : Type 0} → Act (Unit {0}) → Act B → Act B
m >> k = m >>= λ _. k

abbrev pub pure : {A : Type 0} → A → Act A
pure a s = ([], s, next a)

abbrev pub tell : Event → Act (Unit {0})
tell e s = (e ∷ [], s, next tt)

abbrev pub modify : (State → State) → Act (Unit {0})
modify f s = ([], f s, next tt)

-- `await delay(POLL_MS, signal); continue`
abbrev pub poll_again : {A : Type 0} → Act A
poll_again s = ([], s, again)

abbrev pub finish : {A : Type 0} → Act A
finish s = ([], s, stop)

abbrev pub throw : {A : Type 0} → Failure → Act A
throw e s = ([], s, fail e)

-- A call that can throw.
abbrev pub attempt : {A : Type 0} → Result A → Act A
attempt (ok a) = pure a
attempt (err e) = throw e
