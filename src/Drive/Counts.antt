-- ===== src/Drive/Counts.antt =====
-- src/atomic-swap/drive.ts: a refused request to /presigs counts one up.
use Prim.Native.String.{String}
use miradex_client.Prelude.{
  ℕ, zero, suc, ◌+◌, ◌≡◌, refl, ap, ◌∙◌, Bool, true, false, Option, none, some, List, arith, any,
  inl, inr, Bool-cases,
}
use miradex_client.Errors.Codes.{Result, ok, err}
use miradex_client.Protocol.{ProtocolParams, SwapDetail, ExtractedProtocolData, or_empty}
use miradex_client.Snapshot.{SnapshotInput}
use miradex_client.Drive.{
  UnsignedPsbt, PresigsEncsig, presigs_refused, Services, Tick, Event, post_presigs, State, Flow,
  next, again, stop, fail,
}
use miradex_client.Drive.Acts.{Act, ◌>>=◌, follow, attempt}
use miradex_client.Drive.Fund.{
  means_past_presigs, check_dleq, check_contract, check_lock_address, build_lock, presigs_answered,
  already_has_encsig, submit_presigs, check_encsig, fund_stored, fund_answered, fund_built,
  fund_derived, fund_linked, fund_address, fund, rearm,
}
use miradex_client.Drive.Store.{snapshot_input, write_snapshot, post_fund_from, fund_attempts}
use miradex_client.Drive.Events.{IsQuiet, bind-IsQuiet, bind_raises, any-append}
use miradex_client.Drive.Limits.{goes_on}

abbrev pub is_post_presigs : Event → Bool
is_post_presigs (post_presigs unsigned target pre_sigs) = true
is_post_presigs _ = false

-- A piece that raises the target and lets the loop go on counts one up.
abbrev pub Counts : (Event → Bool) → (State → ℕ) → {A : Type 0} → Act A → Type 0
Counts target count m =
    (s : State) → any target (m s).0 ≡ true → goes_on (m s).2 ≡ true → count (m s).1 ≡ suc (count s)

module _ (target : Event → Bool) (count : State → ℕ) {A B : Type 0} where
  follow-Counts :
      (es : List Event) (s : State) (r : Flow A) (f : A → Act B) (a : A)
      → r ≡ next a
      → ((x : A) → Counts target count (f x))
      → any target (f a s).0 ≡ true
      → goes_on (follow es s r f).2 ≡ true
      → count (follow es s r f).1 ≡ suc (count s)
  follow-Counts es s (next x) f a e h raised on =
      let same : x ≡ a = ground arith in h x s (rw same raised) on
  follow-Counts es s again f a e h raised on = ground arith
  follow-Counts es s stop f a e h raised on = ground arith
  follow-Counts es s (fail x) f a e h raised on = ground arith

  pub bind-Counts :
      (m : Act A) (f : A → Act B)
      → IsQuiet target count m
      → ((x : A) → Counts target count (f x))
      → Counts target count (m >>= f)
  bind-Counts m f q h s raised on =
      let (a, goes, later) = bind_raises target count m f s q raised in
      follow-Counts (m s).0 (m s).1 (m s).2 f a goes h later on ∙ ap suc (q.keeps s)

module _ (target : Event → Bool) (count : State → ℕ) {A B : Type 0} where
  follow_last :
      (es : List Event) (s : State) (r : Flow A) (f : A → Act B) (n : ℕ)
      → ((x : A) (u : State) → any target (f x u).0 ≡ false)
      → (any target es ≡ true → goes_on r ≡ true → (r ≡ again) × (count s ≡ suc n))
      → any target (follow es s r f).0 ≡ true
      → goes_on (follow es s r f).2 ≡ true
      → count (follow es s r f).1 ≡ suc n
  follow_last es s (next x) f n silent ends raised on =
      let here : any target es ≡ true =
        ground (arith, any-append target es (f x s).0, silent x s) in
      let (other, counted) = ends here refl in ground arith
  follow_last es s again f n silent ends raised on = (ends raised refl).1
  follow_last es s stop f n silent ends raised on = ground arith
  follow_last es s (fail x) f n silent ends raised on = ground arith

attempt-IsQuiet :
    {A : Type 0} (target : Event → Bool) (count : State → ℕ) (r : Result A)
    → IsQuiet target count (attempt r)
attempt-IsQuiet target count (ok a) = record { silent = λ s. refl; keeps = λ s. refl }
attempt-IsQuiet target count (err e) = record { silent = λ s. refl; keeps = λ s. refl }

abbrev pub failures : State → ℕ
failures s = s.encsig_failures

abbrev pub streak : State → ℕ
streak s = s.presigs_streak

module _ (sv : Services) where
  dleq-IsQuiet : (p : Option ProtocolParams) → IsQuiet is_post_presigs streak (check_dleq sv p)
  unfolding check_dleq
  dleq-IsQuiet none = record { silent = λ s. ground arith; keeps = λ s. ground arith }
  dleq-IsQuiet (some p) = record { silent = λ s. ground arith; keeps = λ s. ground arith }

  contract-IsQuiet :
      (t : Tick) (d : SwapDetail) → IsQuiet is_post_presigs streak (check_contract sv t d)
  unfolding check_contract
  contract-IsQuiet t d = record { silent = λ s. ground arith; keeps = λ s. ground arith }

  address-IsQuiet :
      (p : Option ProtocolParams) (a : String)
      → IsQuiet is_post_presigs streak (check_lock_address sv p a)
  unfolding check_lock_address
  address-IsQuiet none a = record { silent = λ s. refl; keeps = λ s. refl }
  address-IsQuiet (some p) a = record { silent = λ s. ground arith; keeps = λ s. ground arith }

  build-IsQuiet :
      (d : SwapDetail) (a : String) (p : ProtocolParams)
      → IsQuiet is_post_presigs streak (build_lock sv d a p)
  unfolding build_lock
  build-IsQuiet d a p = record { silent = λ s. ground arith; keeps = λ s. ground arith }

module _ (t : Tick) where
  post_fund-IsQuiet :
      (k n : ℕ) (a signed : String)
      → IsQuiet is_post_presigs (λ s. tt) (post_fund_from k n t a signed)
  unfolding post_fund_from
  post_fund-IsQuiet zero n a signed = record { silent = λ s. refl; keeps = λ s. refl }
  post_fund-IsQuiet (suc k) n a signed =
      let later = post_fund-IsQuiet k (n + 1) a signed in
      record { silent = λ s. ground (arith, later.silent s); keeps = λ s. refl }

module _ (sv : Services) (t : Tick) where
  check_encsig-IsQuiet : (x : PresigsEncsig) → IsQuiet is_post_presigs (λ s. tt) (check_encsig sv x)
  unfolding check_encsig
  check_encsig-IsQuiet x = record { silent = λ s. ground arith; keeps = λ s. refl }

  snapshot-IsQuiet : (i : SnapshotInput) → IsQuiet is_post_presigs (λ s. tt) (write_snapshot sv t i)
  unfolding write_snapshot
  snapshot-IsQuiet i = record { silent = λ s. ground arith; keeps = λ s. refl }

  stored-IsQuiet :
      (a signed : String) → IsQuiet is_post_presigs (λ s. tt) (fund_stored sv t a signed)
  unfolding fund_stored
  stored-IsQuiet a signed =
      let posted = post_fund-IsQuiet t fund_attempts 0 a signed in
      record { silent = λ s. ground (arith, posted.silent s); keeps = λ s. refl }

  answered-IsQuiet :
      (d : SwapDetail) (pdx : ExtractedProtocolData) (a : String) (p : ProtocolParams)
      (b : UnsignedPsbt × String × String) (x : PresigsEncsig)
      → IsQuiet is_post_presigs (λ s. tt) (fund_answered sv t d pdx a p b x)
  unfolding fund_answered
  answered-IsQuiet d pdx a p (unsigned, signed, pre_sigs) x =
      let input = snapshot_input sv t.now d pdx p a unsigned x in
      bind-IsQuiet is_post_presigs (λ s. tt) (check_encsig sv x)
        (λ _. write_snapshot sv t input >>= λ _. fund_stored sv t a signed) (check_encsig-IsQuiet x)
        (λ _.
          bind-IsQuiet is_post_presigs (λ s. tt) (write_snapshot sv t input)
            (λ _. fund_stored sv t a signed) (snapshot-IsQuiet input)
            (λ _. stored-IsQuiet a signed))

module _ (sv : Services) (t : Tick) (msg : String) (refused : t.presigs ≡ presigs_refused msg)
    (past : means_past_presigs sv msg ≡ true) where
  -- The refused request counts one up, and the round ends with it.
  refused_counts :
      (pdx : ExtractedProtocolData) (a : String) (p : ProtocolParams)
      (b : UnsignedPsbt × String × String) (s : State)
      → let m : Act PresigsEncsig = submit_presigs sv t pdx p a b in
        any is_post_presigs (m s).0 ≡ true
        → goes_on (m s).2 ≡ true
        → ((m s).2 ≡ again) × (streak (m s).1 ≡ suc (streak s))
  unfolding submit_presigs presigs_answered
  refused_counts pdx a p (unsigned, signed, pre_sigs) s raised on =
      elim (Bool-cases (already_has_encsig sv pdx p)) [
        | inl had ↦ ground arith
        | inr asks ↦ ground arith
      ]

  fund_built-Counts :
      (d : SwapDetail) (pdx : ExtractedProtocolData) (a : String) (p : ProtocolParams)
      (b : UnsignedPsbt × String × String)
      → Counts is_post_presigs streak (fund_built sv t d pdx a p b)
  unfolding fund_built
  fund_built-Counts d pdx a p b s raised on =
      let m : Act PresigsEncsig = submit_presigs sv t pdx p a b in
      follow_last is_post_presigs streak (m s).0 (m s).1 (m s).2 (fund_answered sv t d pdx a p b)
        (streak s) (λ x u. (answered-IsQuiet sv t d pdx a p b x).silent u)
        (refused_counts pdx a p b s) raised on

  fund_address-Counts :
      (d : SwapDetail) (pdx : ExtractedProtocolData) (a : String)
      → Counts is_post_presigs streak (fund_address sv t d pdx a)
  unfolding fund_address fund_linked fund_derived
  fund_address-Counts d pdx a =
      let lock : Act ProtocolParams = check_lock_address sv pdx.params a in
      bind-Counts is_post_presigs streak (check_dleq sv pdx.params) (λ _. fund_linked sv t d pdx a)
        (dleq-IsQuiet sv pdx.params)
        (λ _.
          bind-Counts is_post_presigs streak (check_contract sv t d)
            (λ _. lock >>= fund_derived sv t d pdx a) (contract-IsQuiet sv t d)
            (λ _.
              bind-Counts is_post_presigs streak lock (fund_derived sv t d pdx a)
                (address-IsQuiet sv pdx.params a)
                (λ p.
                  bind-Counts is_post_presigs streak (build_lock sv d a p)
                    (fund_built sv t d pdx a p) (build-IsQuiet sv d a p)
                    (λ b. fund_built-Counts d pdx a p b))))

  pub fund-Counts :
      (d : SwapDetail) (pdx : ExtractedProtocolData)
      → Counts is_post_presigs streak (fund sv t d pdx)
  unfolding fund rearm
  fund-Counts d pdx s raised on =
      ground (arith, fund_address-Counts d pdx (or_empty d.deposit_address) (rearm d s))
