-- ===== src/Drive/Release.antt =====
-- The pieces of the branch of src/atomic-swap/drive.ts that releases the encrypted signature.
use Prim.Native.String.{String}
use text.Mathlib.TextEquality.{eq_iff}
use miradex_client.Prelude.{
  ◌≡◌, refl, sym, ap, ◌⊎◌, inl, inr, Bool, true, false, Option, none, some, arith, any, is_some,
  str_eq, Bool-cases,
}
use miradex_client.Errors.Codes.{Result, is_ok, ok, err}
use miradex_client.Protocol.{
  ProtocolParams, SwapDetail, ExtractedProtocolData, XmrVerificationData, present,
}
use miradex_client.Drive.{Services, XmrLockResult, Tick, State, next}
use miradex_client.Drive.Acts.{Act, ◌>>=◌}
use miradex_client.Drive.Encsig.{
  check_xmr_lock, local_digest, check_digest, send_encsig, release_encsig, with_params,
  submit_encsig,
}
use miradex_client.Drive.Events.{IsQuiet, bind_raises, is_post_fund, is_commitment, checks}

-- The node's answer is that the lock is there.
abbrev pub lock_verified : Result XmrLockResult → Bool
lock_verified (ok r) = r.verified
lock_verified (err e) = false

module _ (sv : Services) (t : Tick) where
  pub check_xmr_lock-IsQuiet :
      (x : Option XmrVerificationData) (p : ProtocolParams)
      → IsQuiet is_commitment (λ s. s.alice_dleq_verified) (check_xmr_lock sv t x p)
  unfolding check_xmr_lock
  check_xmr_lock-IsQuiet none p = record { silent = λ s. ground arith; keeps = λ s. ground arith }
  check_xmr_lock-IsQuiet (some x) p = record {
    silent = λ s. ground arith;
    keeps = λ s. ground arith;
  }

  pub local_digest-IsQuiet :
      (d : SwapDetail) (p : ProtocolParams) → IsQuiet is_commitment checks (local_digest sv t d p)
  unfolding local_digest
  local_digest-IsQuiet d p = record { silent = λ s. ground arith; keeps = λ s. ground arith }

  pub check_digest-IsQuiet :
      (c : Option String) (l : String) → IsQuiet is_commitment checks (check_digest sv c l)
  unfolding check_digest
  check_digest-IsQuiet c l = record { silent = λ s. ground arith; keeps = λ s. ground arith }

  pub send_encsig-IsQuiet :
      (p : ProtocolParams) (l : String) → IsQuiet is_post_fund checks (send_encsig sv t p l)
  unfolding send_encsig
  send_encsig-IsQuiet p l = record { silent = λ s. ground arith; keeps = λ s. ground arith }

  -- What lets the check of the Monero lock go on: it passed before, or it passes now.
  pub check_xmr_lock_next :
      (o : Option XmrVerificationData) (p : ProtocolParams) (s : State)
      → (check_xmr_lock sv t o p s).2 ≡ next tt
      → ((s.xmr_lock_verified ≡ true) ⊎ ((is_some o ≡ true) × (lock_verified t.xmr_lock ≡ true)))
        × ((check_xmr_lock sv t o p s).1.xmr_lock_verified ≡ true)
  unfolding check_xmr_lock
  check_xmr_lock_next none p s e = ground arith
  check_xmr_lock_next (some x) p s e = ground arith

  check_digest_next :
      (c : Option String) (l : String) (s : State)
      → (check_digest sv c l s).2 ≡ next tt
      → (present c ≡ false) ⊎ (c ≡ some l)
  unfolding check_digest
  check_digest_next none l s e = inl refl
  check_digest_next (some c) l s e = elim (Bool-cases (str_eq l c)) [
    | inl same ↦ inr (ap some (sym ((eq_iff l c).0 same)))
    | inr other ↦ inl (ground arith)
  ]

  send_encsig_raises :
      (p : ProtocolParams) (l : String) (s : State)
      → any is_commitment (send_encsig sv t p l s).0 ≡ true
      → is_ok (sv.encsign_digest p.s_a_bitcoin l) ≡ true
  unfolding send_encsig
  send_encsig_raises p l s e = ground arith

-- What has been established when the encrypted signature is released.
module _ (sv : Services) (t : Tick) (d : SwapDetail) (pdx : ExtractedProtocolData) (s : State) where
  pub record IsReleasable : Type 0 where
    pub params : ProtocolParams
    pub known : pdx.params ≡ some params
    pub locked :
        (s.xmr_lock_verified ≡ true)
        ⊎ ((is_some pdx.xmr_verification ≡ true) × (lock_verified t.xmr_lock ≡ true))
    pub digest : String
    pub local :
        (u : State) × ((local_digest sv t d params u).2 ≡ next digest)
        × (u.last_signed_psbt ≡ s.last_signed_psbt)
    pub agreed : (present pdx.redeem_digest_hex ≡ false) ⊎ (pdx.redeem_digest_hex ≡ some digest)

  raised_on :
      {A B : Type 0} (m : Act A) (f : A → Act B) (u : State)
      → IsQuiet is_commitment checks m
      → any is_commitment ((m >>= f) u).0 ≡ true
      → (x : A) × ((m u).2 ≡ next x) × (any is_commitment (f x (m u).1).0 ≡ true)
  raised_on m f u = bind_raises is_commitment checks m f u

  unit_eq : (u : Unit {0}) → u ≡ tt
  unit_eq u = refl

  same_psbt :
      (o : Option XmrVerificationData) (p : ProtocolParams)
      → (check_xmr_lock sv t o p s).1.last_signed_psbt ≡ s.last_signed_psbt
  unfolding check_xmr_lock
  same_psbt none p = ground arith
  same_psbt (some x) p = ground arith

  release_encsig-IsReleasable :
      (p : ProtocolParams)
      → pdx.params ≡ some p
      → any is_commitment (release_encsig sv t d pdx p s).0 ≡ true
      → IsReleasable
  unfolding release_encsig
  release_encsig-IsReleasable p known e =
      let lock = check_xmr_lock sv t pdx.xmr_verification p in
      let local = local_digest sv t d p in
      let compare_digest : String → Act (Unit {0}) = check_digest sv pdx.redeem_digest_hex in
      let send : String → Act (Unit {0}) = send_encsig sv t p in
      let finish_with : String → Act (Unit {0}) = λ l. compare_digest l >>= λ _. send l in
      let (u, locked, e1) =
        bind_raises is_commitment (λ x. x.alice_dleq_verified) lock (λ _. local >>= finish_with) s
          (check_xmr_lock-IsQuiet sv t pdx.xmr_verification p) e in
      let s1 = (lock s).1 in
      let (l, computed, e2) = raised_on local finish_with s1 (local_digest-IsQuiet sv t d p) e1 in
      let s2 = (local s1).1 in
      let (v, agreed, e3) =
        raised_on (compare_digest l) (λ _. send l) s2
          (check_digest-IsQuiet sv t pdx.redeem_digest_hex l) e2 in
      let (proof, now_locked) =
        check_xmr_lock_next sv t pdx.xmr_verification p s (rw (unit_eq u) at locked) in
      record {
        params = p;
        known = known;
        locked = proof;
        digest = l;
        local = (s1, computed, same_psbt pdx.xmr_verification p);
        agreed = check_digest_next sv t pdx.redeem_digest_hex l s2 (rw (unit_eq v) at agreed);
      }

  with_params-IsReleasable :
      (pp : Option ProtocolParams)
      → pdx.params ≡ pp
      → any is_commitment (with_params sv t d pdx pp s).0 ≡ true
      → IsReleasable
  unfolding with_params
  with_params-IsReleasable none known e = cc
  with_params-IsReleasable (some p) known e = release_encsig-IsReleasable p known e

  -- The signature is released only if all of this holds of the round.
  pub submit_encsig-IsReleasable :
      any is_commitment (submit_encsig sv t d pdx s).0 ≡ true → IsReleasable
  unfolding submit_encsig
  submit_encsig-IsReleasable e = with_params-IsReleasable pdx.params refl (ground arith)
