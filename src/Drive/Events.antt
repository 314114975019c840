-- ===== src/Drive/Events.antt =====
-- What a piece of a round does, in terms of its events and of one flag of the state: the rules by
-- which such facts go through src/atomic-swap/drive.ts.
use miradex_client.Prelude.{
  ◌≡◌, refl, sym, ◌∙◌, Bool, true, false, not, ◌&&◌, ◌||◌, List, [], ◌∷◌, ◌++◌, arith, any,
}
use miradex_client.Drive.{
  Event, snapshot_found, snapshot_written, post_fund, post_encsig, State, Flow, next, again, stop,
  fail,
}
use miradex_client.Drive.Acts.{Act, follow, ◌>>=◌}

module _ (mark target : Event → Bool) where
  -- Every target has a mark before it, or the mark was `seen` before the first event.
  abbrev pub guarded : Bool → List Event → Bool
  guarded seen [] = true
  guarded seen (e ∷ es) = (not (target e) || seen) && guarded (seen || mark e) es

  pub guarded_seen : (es : List Event) → guarded true es ≡ true
  guarded_seen [] = refl
  guarded_seen (e ∷ es) = ground (arith, guarded_seen es)

  pub guarded-append :
      (seen : Bool) (xs ys : List Event)
      → guarded seen (xs ++ ys) ≡ (guarded seen xs && guarded (seen || any mark xs) ys)
  guarded-append true [] ys = refl
  guarded-append false [] ys = refl
  guarded-append seen (x ∷ xs) ys = ground (arith, guarded-append (seen || mark x) xs ys)

  pub guarded_none :
      (seen : Bool) (es : List Event) → any target es ≡ false → guarded seen es ≡ true
  guarded_none seen [] h = refl
  guarded_none seen (e ∷ es) h = ground (arith, guarded_none (seen || mark e) es)

pub guarded_more :
    (mark target : Event → Bool) (b c : Bool) (es : List Event)
    → (b ≡ true → c ≡ true)
    → guarded mark target b es ≡ true
    → guarded mark target c es ≡ true
guarded_more mark target b c [] h g = refl
guarded_more mark target b c (e ∷ es) h g =
    ground (arith, guarded_more mark target (b || mark e) (c || mark e) es)

pub any-append : (p : Event → Bool) (xs ys : List Event) → any p (xs ++ ys) ≡ (any p xs || any p ys)
any-append p [] ys = refl
any-append p (x ∷ xs) ys = ground (arith, any-append p xs ys)

-- The piece raises no target and leaves the flag as it is.
pub record IsQuiet {F : Type 0} (target : Event → Bool) (flag : State → F) {A : Type 0} (m : Act A)
    : Type 0 where
  pub silent : (s : State) → any target (m s).0 ≡ false
  pub keeps : (s : State) → flag (m s).1 ≡ flag s

module _ {F : Type 0} (target : Event → Bool) (flag : State → F) {A B : Type 0} where
  follow_silent :
      (es : List Event) (s : State) (r : Flow A) (f : A → Act B)
      → any target es ≡ false
      → ((a : A) → IsQuiet target flag (f a))
      → (any target (follow es s r f).0 ≡ false) × (flag (follow es s r f).1 ≡ flag s)
  follow_silent es s (next a) f h q = (rw (any-append, h) ((q a).silent s), (q a).keeps s)
  follow_silent es s again f h q = (h, refl)
  follow_silent es s stop f h q = (h, refl)
  follow_silent es s (fail e) f h q = (h, refl)

  pub bind-IsQuiet :
      (m : Act A) (f : A → Act B)
      → IsQuiet target flag m
      → ((a : A) → IsQuiet target flag (f a))
      → IsQuiet target flag (m >>= f)
  bind-IsQuiet m f h q = record {
    silent = λ s. (follow_silent (m s).0 (m s).1 (m s).2 f (h.silent s) q).0;
    keeps = λ s. (follow_silent (m s).0 (m s).1 (m s).2 f (h.silent s) q).1 ∙ h.keeps s;
  }

abbrev pub is_post_fund : Event → Bool
is_post_fund (post_fund signed) = true
is_post_fund _ = false

abbrev pub is_post_encsig : Event → Bool
is_post_encsig (post_encsig encsig) = true
is_post_encsig _ = false

-- What commits Bob: the broadcast of the lock, and the release of the signature that lets Alice
-- redeem it.
abbrev pub is_commitment : Event → Bool
is_commitment (post_fund signed) = true
is_commitment (post_encsig encsig) = true
is_commitment _ = false

abbrev pub is_snapshot : Event → Bool
is_snapshot snapshot_found = true
is_snapshot (snapshot_written snapshot) = true
is_snapshot _ = false

-- The two checks of the state.
abbrev pub checks : State → Bool × Bool
checks s = (s.alice_dleq_verified, s.xmr_lock_verified)

any_weaken :
    (p q : Event → Bool)
    → ((e : Event) → p e ≡ true → q e ≡ true)
    → (es : List Event) → any q es ≡ false
    → any p es ≡ false
any_weaken p q w [] h = refl
any_weaken p q w (e ∷ es) h = ground (arith, w e, any_weaken p q w es)

fund_is_commitment : (e : Event) → is_post_fund e ≡ true → is_commitment e ≡ true
fund_is_commitment e h = ground arith

encsig_is_commitment : (e : Event) → is_post_encsig e ≡ true → is_commitment e ≡ true
encsig_is_commitment e h = ground arith

module _ {A : Type 0} (m : Act A) (q : IsQuiet is_commitment checks m) where
  pub IsQuiet-no_encsig : IsQuiet is_post_encsig checks m
  IsQuiet-no_encsig = record {
    silent = λ s. any_weaken is_post_encsig is_commitment encsig_is_commitment (m s).0 (q.silent s);
    keeps = q.keeps;
  }

  pub IsQuiet-no_fund : IsQuiet is_post_fund checks m
  IsQuiet-no_fund = record {
    silent = λ s. any_weaken is_post_fund is_commitment fund_is_commitment (m s).0 (q.silent s);
    keeps = q.keeps;
  }

-- Where a quiet piece is followed by one that raises a target, it went on to it.
module _ {F : Type 0} (target : Event → Bool) (flag : State → F) {A B : Type 0} where
  follow_raises :
      (es : List Event) (s : State) (r : Flow A) (f : A → Act B)
      → any target es ≡ false
      → any target (follow es s r f).0 ≡ true
      → (a : A) × (r ≡ next a) × (any target (f a s).0 ≡ true)
  follow_raises es s (next a) f h e = (a, refl, ground (arith, any-append target es (f a s).0))
  follow_raises es s again f h e = cc
  follow_raises es s stop f h e = cc
  follow_raises es s (fail x) f h e = cc

  pub bind_raises :
      (m : Act A) (f : A → Act B) (s : State)
      → IsQuiet target flag m
      → any target ((m >>= f) s).0 ≡ true
      → (a : A) × ((m s).2 ≡ next a) × (any target (f a (m s).1).0 ≡ true)
  bind_raises m f s q e = follow_raises (m s).0 (m s).1 (m s).2 f (q.silent s) e

-- Every target of the piece has a mark before it, unless the flag was up; and the flag is not put
-- up without a mark.
pub record IsGuarded (mark target : Event → Bool) (flag : State → Bool) {A : Type 0} (m : Act A)
    : Type 0 where
  pub ordered : (s : State) → guarded mark target (flag s) (m s).0 ≡ true
  pub honest : (s : State) → flag (m s).1 ≡ true → (flag s || any mark (m s).0) ≡ true

module _ (mark target : Event → Bool) (flag : State → Bool) {A : Type 0} where
  pub IsGuarded-of_quiet : (m : Act A) → IsQuiet target flag m → IsGuarded mark target flag m
  IsGuarded-of_quiet m q = record {
    ordered = λ s. guarded_none mark target (flag s) (m s).0 (q.silent s);
    honest = λ s h. rw (sym (q.keeps s) ∙ h) refl;
  }

  module _ {B : Type 0} where
    follow-guarded :
        (seen : Bool) (es : List Event) (s : State) (r : Flow A) (f : A → Act B)
        → guarded mark target seen es ≡ true
        → (flag s ≡ true → (seen || any mark es) ≡ true)
        → ((a : A) → r ≡ next a → flag s ≡ true)
        → ((a : A) (u : State) → flag (f a u).1 ≡ flag u)
        → (guarded mark target seen (follow es s r f).0 ≡ true)
          × (flag (follow es s r f).1 ≡ true → (seen || any mark (follow es s r f).0) ≡ true)
    follow-guarded seen es s (next a) f g h up keep =
        let raised = h (up a refl) in
        (
          rw (guarded-append, g, raised) (guarded_seen mark target (f a s).0),
          λ e. ground (arith, any-append mark es (f a s).0, raised),
        )
    follow-guarded seen es s again f g h up keep = (g, h)
    follow-guarded seen es s stop f g h up keep = (g, h)
    follow-guarded seen es s (fail x) f g h up keep = (g, h)

    -- A guarded piece that goes on only with the flag up may be followed by targets.
    pub bind-IsGuarded :
        (m : Act A) (f : A → Act B)
        → IsGuarded mark target flag m
        → ((s : State) (a : A) → (m s).2 ≡ next a → flag (m s).1 ≡ true)
        → ((a : A) (u : State) → flag (f a u).1 ≡ flag u)
        → IsGuarded mark target flag (m >>= f)
    bind-IsGuarded m f q up keep = record {
      ordered = λ s.
          (follow-guarded (flag s) (m s).0 (m s).1 (m s).2 f (q.ordered s) (q.honest s) (up s)
            keep).0;
      honest = λ s.
          (follow-guarded (flag s) (m s).0 (m s).1 (m s).2 f (q.ordered s) (q.honest s) (up s)
            keep).1;
    }
