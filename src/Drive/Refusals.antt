-- ===== src/Drive/Refusals.antt =====
-- src/atomic-swap/drive.ts: how often in a row /presigs and /encsig may refuse before the loop ends.
use Prim.Native.String.{String}
use miradex_client.Prelude.{
  ℕ, suc, ◌≡◌, refl, ◌<◌, ◌≤◌, Bool, true, false, Option, none, some, List, [], ◌∷◌, arith, any,
  inl, inr, Option-cases, ◌||◌,
}
use miradex_client.Errors.Codes.{Result, ok, err}
use miradex_client.Protocol.{
  ProtocolParams, SwapDetail, ExtractedProtocolData, XmrVerificationData, extract_protocol_data,
}
use miradex_client.Drive.{presigs_refused, Services, Tick, Event, State}
use miradex_client.Drive.Acts.{Act, ◌>>=◌}
use miradex_client.Drive.Fund.{means_past_presigs}
use miradex_client.Drive.Encsig.{
  check_xmr_lock, local_digest, check_digest, send_encsig, release_encsig, with_params,
  submit_encsig,
}
use miradex_client.Drive.Loop.{sweep, dispatch, round}
use miradex_client.Drive.Events.{IsQuiet, bind-IsQuiet, is_post_encsig}
use miradex_client.Drive.Guarded.{fund-IsQuiet}
use miradex_client.Drive.Limits.{goes_on, Reached, after, Reached-is_within}
use miradex_client.Drive.Counts.{
  is_post_presigs, Counts, failures, streak, bind-Counts, fund-Counts,
}

-- The branch of the encrypted signature: it posts no pre-signatures, and counts its refusals.
abbrev posts : Event → Bool
posts e = is_post_presigs e || is_post_encsig e

neither :
    (es : List Event)
    → any posts es ≡ false
    → (any is_post_presigs es ≡ false) × (any is_post_encsig es ≡ false)
neither [] h = (refl, refl)
neither (e ∷ es) h = ground (arith, neither es)

module _ {A : Type 0} (m : Act A) (q : IsQuiet posts failures m) where
  no_presigs : IsQuiet is_post_presigs failures m
  no_presigs = record { silent = λ s. (neither (m s).0 (q.silent s)).0; keeps = q.keeps }

  no_encsig : IsQuiet is_post_encsig failures m
  no_encsig = record { silent = λ s. (neither (m s).0 (q.silent s)).1; keeps = q.keeps }

module _ (sv : Services) (t : Tick) where
  xmr_lock-IsQuiet :
      (x : Option XmrVerificationData) (p : ProtocolParams)
      → IsQuiet posts failures (check_xmr_lock sv t x p)
  unfolding check_xmr_lock
  xmr_lock-IsQuiet none p = record { silent = λ s. ground arith; keeps = λ s. ground arith }
  xmr_lock-IsQuiet (some x) p = record { silent = λ s. ground arith; keeps = λ s. ground arith }

  local_digest-IsQuiet :
      (d : SwapDetail) (p : ProtocolParams) → IsQuiet posts failures (local_digest sv t d p)
  unfolding local_digest
  local_digest-IsQuiet d p = record { silent = λ s. ground arith; keeps = λ s. ground arith }

  check_digest-IsQuiet :
      (claimed : Option String) (local : String)
      → IsQuiet posts failures (check_digest sv claimed local)
  unfolding check_digest
  check_digest-IsQuiet claimed local = record {
    silent = λ s. ground arith;
    keeps = λ s. ground arith;
  }

  send_silent :
      (p : ProtocolParams) (digest : String) (s : State)
      → any is_post_presigs (send_encsig sv t p digest s).0 ≡ false
  unfolding send_encsig
  send_silent p digest s = ground arith

  send_encsig-Counts :
      (msg : String) (p : ProtocolParams) (digest : String)
      → t.encsig_answer ≡ some msg
      → Counts is_post_encsig failures (send_encsig sv t p digest)
  unfolding send_encsig
  send_encsig-Counts msg p digest refused s raised on = ground arith

  release_encsig-Counts :
      (msg : String) (d : SwapDetail) (pdx : ExtractedProtocolData) (p : ProtocolParams)
      → t.encsig_answer ≡ some msg
      → Counts is_post_encsig failures (release_encsig sv t d pdx p)
  unfolding release_encsig
  release_encsig-Counts msg d pdx p refused =
      let digest : Act String = local_digest sv t d p in
      let checked = check_digest sv pdx.redeem_digest_hex in
      bind-Counts is_post_encsig failures (check_xmr_lock sv t pdx.xmr_verification p)
        (λ _. digest >>= λ l. checked l >>= λ _. send_encsig sv t p l)
        (no_encsig _ (xmr_lock-IsQuiet pdx.xmr_verification p))
        (λ _.
          bind-Counts is_post_encsig failures digest (λ l. checked l >>= λ _. send_encsig sv t p l)
            (no_encsig _ (local_digest-IsQuiet d p))
            (λ l.
              bind-Counts is_post_encsig failures (checked l) (λ _. send_encsig sv t p l)
                (no_encsig _ (check_digest-IsQuiet pdx.redeem_digest_hex l))
                (λ _. send_encsig-Counts msg p l refused)))

  submit_encsig-Counts :
      (msg : String) (d : SwapDetail) (pdx : ExtractedProtocolData)
      → t.encsig_answer ≡ some msg
      → Counts is_post_encsig failures (submit_encsig sv t d pdx)
  unfolding submit_encsig with_params
  submit_encsig-Counts msg d pdx refused s raised on = elim (Option-cases pdx.params) [
    | inl e ↦ ground arith
    | inr (p, e) ↦ ground (arith, release_encsig-Counts msg d pdx p refused s)
  ]

  -- Silence about /presigs: a piece that would break it follows only quiet ones.
  release_silent :
      (d : SwapDetail) (pdx : ExtractedProtocolData) (p : ProtocolParams) (s : State)
      → any is_post_presigs (release_encsig sv t d pdx p s).0 ≡ false
  unfolding release_encsig
  release_silent d pdx p s =
      let digest : Act String = local_digest sv t d p in
      let checked = check_digest sv pdx.redeem_digest_hex in
      (bind-IsQuiet is_post_presigs (λ s. tt) (check_xmr_lock sv t pdx.xmr_verification p)
          (λ _. digest >>= λ l. checked l >>= λ _. send_encsig sv t p l)
          (only_silent _ (xmr_lock-IsQuiet pdx.xmr_verification p))
          (λ _.
            bind-IsQuiet is_post_presigs (λ s. tt) digest
              (λ l. checked l >>= λ _. send_encsig sv t p l)
              (only_silent _ (local_digest-IsQuiet d p))
              (λ l.
                bind-IsQuiet is_post_presigs (λ s. tt) (checked l) (λ _. send_encsig sv t p l)
                  (only_silent _ (check_digest-IsQuiet pdx.redeem_digest_hex l))
                  (λ _. record { silent = λ u. send_silent p l u; keeps = λ u. refl })))).silent
        s
    where
      only_silent :
          {A : Type 0} (m : Act A) → IsQuiet posts failures m → IsQuiet is_post_presigs (λ s. tt) m
      only_silent m q = record { silent = (no_presigs m q).silent; keeps = λ u. refl }

  submit_encsig_silent :
      (d : SwapDetail) (pdx : ExtractedProtocolData) (s : State)
      → any is_post_presigs (submit_encsig sv t d pdx s).0 ≡ false
  unfolding submit_encsig with_params
  submit_encsig_silent d pdx s = elim (Option-cases pdx.params) [
    | inl e ↦ ground arith
    | inr (p, e) ↦ ground (arith, release_silent d pdx p s)
  ]

-- A round as a whole.
module _ (sv : Services) (deadline : ℕ) (t : Tick) where
  dispatch_presigs :
      (msg : String) (d : SwapDetail)
      → t.presigs ≡ presigs_refused msg
      → means_past_presigs sv msg ≡ true
      → Counts is_post_presigs streak (dispatch sv deadline t d)
  unfolding dispatch sweep
  dispatch_presigs msg d refused past s raised on =
      let pdx = extract_protocol_data d in
      ground (arith, fund-Counts sv t msg refused past d pdx s, submit_encsig_silent sv t d pdx s)

  dispatch_encsig :
      (msg : String) (d : SwapDetail)
      → t.encsig_answer ≡ some msg
      → Counts is_post_encsig failures (dispatch sv deadline t d)
  unfolding dispatch sweep
  dispatch_encsig msg d refused s raised on =
      let pdx = extract_protocol_data d in
      ground
        (arith, submit_encsig-Counts sv t msg d pdx refused s, (fund-IsQuiet sv t d pdx).silent s)

  round-Counts :
      (target : Event → Bool) (count : State → ℕ)
      → ((d : SwapDetail) → Counts target count (dispatch sv deadline t d))
      → Counts target count (round sv deadline t)
  unfolding round
  round-Counts target count h s raised on = at_detail t.detail refl
    where
      at_detail :
          (r : Result SwapDetail) → t.detail ≡ r → count (round sv deadline t s).1 ≡ suc (count s)
      at_detail (ok d) e = ground (arith, h d s)
      at_detail (err x) e = ground arith

-- The state is reached, and the last `n` rounds before it each posted, were refused, and went on.
module _ (sv : Services) (deadline : ℕ) where
  pub data Refused (posted : Event → Bool) (IsRefusal : Tick → Type 0) : ℕ → State → Type 0 where
    none_yet : (s : State) → Reached sv deadline s → Refused posted IsRefusal 0 s
    once_more :
        (n : ℕ) (s : State) (t : Tick)
        → Refused posted IsRefusal n s
        → any posted (round sv deadline t s).0 ≡ true
        → IsRefusal t
        → goes_on (round sv deadline t s).2 ≡ true
        → t.aborted_asleep ≡ false
        → Refused posted IsRefusal (suc n) (round sv deadline t s).1

  -- The answer of /presigs says that the swap is past it.
  abbrev pub RefusesPresigs : Tick → Type 0
  RefusesPresigs t =
      (msg : String) × (t.presigs ≡ presigs_refused msg) × (means_past_presigs sv msg ≡ true)

  abbrev pub RefusesEncsig : Tick → Type 0
  RefusesEncsig t = (msg : String) × (t.encsig_answer ≡ some msg)

  module _ (posted : Event → Bool) (IsRefusal : Tick → Type 0) (count : State → ℕ)
      (each : (t : Tick) → IsRefusal t → Counts posted count (round sv deadline t)) where
    Refused-Reached : (n : ℕ) (s : State) → Refused posted IsRefusal n s → Reached sv deadline s
    Refused-Reached _ _ (none_yet s r) = r
    Refused-Reached _ _ (once_more n s t r raised h on awake) =
        after s t (Refused-Reached n s r) on awake

    Refused-le : (n : ℕ) (s : State) → Refused posted IsRefusal n s → n ≤ count s
    Refused-le _ _ (none_yet s r) = omega arith
    Refused-le _ _ (once_more n s t r raised h on awake) =
        omega (arith, Refused-le n s r, each t h s raised on)

  -- At most five rounds in a row post pre-signatures, are answered that the swap is past them, and
  -- go on: the sixth such answer ends the loop.
  pub presigs_refusals_bounded :
      (n : ℕ) (s : State) → Refused is_post_presigs RefusesPresigs n s → n < 6
  presigs_refusals_bounded n s r =
      let each : (t : Tick)
          → RefusesPresigs t
          → Counts is_post_presigs streak (round sv deadline t) =
        λ t h.
          round-Counts sv deadline t is_post_presigs streak
            (λ d. dispatch_presigs sv deadline t h.0 d h.1 h.2) in
      let within =
        Reached-is_within sv deadline s
          (Refused-Reached is_post_presigs RefusesPresigs streak each n s r) in
      ground (arith, within, Refused-le is_post_presigs RefusesPresigs streak each n s r)

  -- At most two rounds in a row release the encrypted signature, are refused, and go on: the third
  -- refusal ends the loop.
  pub encsig_refusals_bounded :
      (n : ℕ) (s : State) → Refused is_post_encsig RefusesEncsig n s → n < 3
  encsig_refusals_bounded n s r =
      let each : (t : Tick)
          → RefusesEncsig t
          → Counts is_post_encsig failures (round sv deadline t) =
        λ t h.
          round-Counts sv deadline t is_post_encsig failures
            (λ d. dispatch_encsig sv deadline t h.0 d h.1) in
      let within =
        Reached-is_within sv deadline s
          (Refused-Reached is_post_encsig RefusesEncsig failures each n s r) in
      ground (arith, within, Refused-le is_post_encsig RefusesEncsig failures each n s r)
