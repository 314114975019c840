-- ===== src/Drive/Rounds.antt =====
-- The order of events in the branch that releases the signature, and in a whole round, of
-- src/atomic-swap/drive.ts.
use Prim.Native.String.{String}
use miradex_client.Prelude.{ℕ, ◌≡◌, refl, ap, Bool, Option, none, some, arith}
use miradex_client.Errors.Codes.{Result, ok, err}
use miradex_client.Protocol.{
  ProtocolParams, SwapDetail, ExtractedProtocolData, XmrVerificationData, extract_protocol_data,
}
use miradex_client.Drive.{Services, Tick, Event, State}
use miradex_client.Drive.Acts.{Act, ◌>>=◌}
use miradex_client.Drive.Fund.{fund}
use miradex_client.Drive.Encsig.{
  check_xmr_lock, local_digest, check_digest, send_encsig, release_encsig, with_params,
  submit_encsig,
}
use miradex_client.Drive.Loop.{sweep, dispatch, round}
use miradex_client.Drive.Events.{
  IsQuiet, bind-IsQuiet, IsGuarded, IsGuarded-of_quiet, bind-IsGuarded, is_post_fund,
  is_post_encsig, is_commitment, checks, IsQuiet-no_fund,
}
use miradex_client.Drive.Release.{
  check_xmr_lock_next, local_digest-IsQuiet, check_digest-IsQuiet, send_encsig-IsQuiet,
}
use miradex_client.Drive.Guarded.{is_dleq_ok, is_xmr_ok, fund-IsGuarded, fund-IsQuiet}

module _ (sv : Services) (t : Tick) (d : SwapDetail) (pdx : ExtractedProtocolData) where
  signing-IsQuiet :
      (p : ProtocolParams)
      → IsQuiet is_post_fund checks (
          local_digest sv t d p >>= λ l.
          check_digest sv pdx.redeem_digest_hex l >>= λ _. send_encsig sv t p l)
  signing-IsQuiet p =
      let compare_digest : String → Act (Unit {0}) = check_digest sv pdx.redeem_digest_hex in
      let send : String → Act (Unit {0}) = send_encsig sv t p in
      bind-IsQuiet is_post_fund checks (local_digest sv t d p)
        (λ l. compare_digest l >>= λ _. send l)
        (IsQuiet-no_fund (local_digest sv t d p) (local_digest-IsQuiet sv t d p))
        (λ l.
          bind-IsQuiet is_post_fund checks (compare_digest l) (λ _. send l)
            (IsQuiet-no_fund (compare_digest l) (check_digest-IsQuiet sv t pdx.redeem_digest_hex l))
            (λ _. send_encsig-IsQuiet sv t p l))

  check_xmr_lock-IsGuarded :
      (x : Option XmrVerificationData) (p : ProtocolParams)
      → IsGuarded is_xmr_ok is_post_encsig (λ s. s.xmr_lock_verified) (check_xmr_lock sv t x p)
  unfolding check_xmr_lock
  check_xmr_lock-IsGuarded none p = record {
    ordered = λ s. ground arith;
    honest = λ s. ground arith;
  }
  check_xmr_lock-IsGuarded (some x) p = record {
    ordered = λ s. ground arith;
    honest = λ s. ground arith;
  }

  check_xmr_lock_no_fund :
      (x : Option XmrVerificationData) (p : ProtocolParams)
      → IsQuiet is_post_fund (λ s. s.alice_dleq_verified) (check_xmr_lock sv t x p)
  unfolding check_xmr_lock
  check_xmr_lock_no_fund none p = record { silent = λ s. ground arith; keeps = λ s. ground arith }
  check_xmr_lock_no_fund (some x) p = record {
    silent = λ s. ground arith;
    keeps = λ s. ground arith;
  }

  with_params-IsGuarded :
      (pp : Option ProtocolParams)
      → IsGuarded is_xmr_ok is_post_encsig (λ s. s.xmr_lock_verified) (with_params sv t d pdx pp)
  unfolding with_params release_encsig
  with_params-IsGuarded none = record { ordered = λ s. refl; honest = λ s h. ground arith }
  with_params-IsGuarded (some p) =
      bind-IsGuarded is_xmr_ok is_post_encsig (λ s. s.xmr_lock_verified)
        (check_xmr_lock sv t pdx.xmr_verification p)
        (λ _. local_digest sv t d p >>= λ l.
          check_digest sv pdx.redeem_digest_hex l >>= λ _. send_encsig sv t p l)
        (check_xmr_lock-IsGuarded pdx.xmr_verification p)
        (λ s u e. (check_xmr_lock_next sv t pdx.xmr_verification p s e).1)
        (λ _ s. ap (λ c. c.1) ((signing-IsQuiet p).keeps s))

  with_params-IsQuiet :
      (pp : Option ProtocolParams)
      → IsQuiet is_post_fund (λ s. s.alice_dleq_verified) (with_params sv t d pdx pp)
  unfolding with_params release_encsig
  with_params-IsQuiet none = record { silent = λ s. refl; keeps = λ s. refl }
  with_params-IsQuiet (some p) =
      bind-IsQuiet is_post_fund (λ s. s.alice_dleq_verified)
        (check_xmr_lock sv t pdx.xmr_verification p)
        (λ _. local_digest sv t d p >>= λ l.
          check_digest sv pdx.redeem_digest_hex l >>= λ _. send_encsig sv t p l)
        (check_xmr_lock_no_fund pdx.xmr_verification p)
        (λ _. record {
          silent = (signing-IsQuiet p).silent;
          keeps = λ s. ap (λ c. c.0) ((signing-IsQuiet p).keeps s);
        })

  submit_encsig-IsGuarded :
      IsGuarded is_xmr_ok is_post_encsig (λ s. s.xmr_lock_verified) (submit_encsig sv t d pdx)
  unfolding submit_encsig
  submit_encsig-IsGuarded =
      let inner = with_params-IsGuarded pdx.params in
      record {
        ordered = λ s. ground (arith, inner.ordered s);
        honest = λ s. ground (arith, inner.honest s);
      }

  pub submit_encsig-IsQuiet :
      IsQuiet is_post_fund (λ s. s.alice_dleq_verified) (submit_encsig sv t d pdx)
  unfolding submit_encsig
  submit_encsig-IsQuiet =
      let inner = with_params-IsQuiet pdx.params in
      record {
        silent = λ s. ground (arith, inner.silent s);
        keeps = λ s. ground (arith, inner.keeps s);
      }

  sweep-IsQuiet : IsQuiet is_commitment checks (sweep t pdx)
  unfolding sweep
  sweep-IsQuiet = record { silent = λ s. ground arith; keeps = λ s. ground arith }

module _ (sv : Services) (deadline : ℕ) (t : Tick) where
  dispatch_dleq :
      (d : SwapDetail)
      → IsGuarded is_dleq_ok is_post_fund (λ s. s.alice_dleq_verified) (dispatch sv deadline t d)
  unfolding dispatch sweep
  dispatch_dleq d =
      let pdx = extract_protocol_data d in
      let fund_ok = fund-IsGuarded sv t d pdx in
      let quiet = submit_encsig-IsQuiet sv t d pdx in
      let encsig_ok =
        IsGuarded-of_quiet is_dleq_ok is_post_fund (λ s. s.alice_dleq_verified)
          (submit_encsig sv t d pdx) quiet in
      record {
        ordered = λ s. ground (arith, fund_ok.ordered s, encsig_ok.ordered s);
        honest = λ s. ground (arith, fund_ok.honest s, encsig_ok.honest s);
      }

  dispatch_xmr :
      (d : SwapDetail)
      → IsGuarded is_xmr_ok is_post_encsig (λ s. s.xmr_lock_verified) (dispatch sv deadline t d)
  unfolding dispatch sweep
  dispatch_xmr d =
      let pdx = extract_protocol_data d in
      let encsig_ok = submit_encsig-IsGuarded sv t d pdx in
      let fund_ok =
        IsGuarded-of_quiet is_xmr_ok is_post_encsig (λ s. s.xmr_lock_verified) (fund sv t d pdx)
          (fund-IsQuiet sv t d pdx) in
      record {
        ordered = λ s. ground (arith, fund_ok.ordered s, encsig_ok.ordered s);
        honest = λ s. ground (arith, fund_ok.honest s, encsig_ok.honest s);
      }

  round_with :
      (mark target : Event → Bool) (flag : State → Bool)
      → ((d : SwapDetail) → IsGuarded mark target flag (dispatch sv deadline t d))
      → IsGuarded mark target flag (round sv deadline t)
  unfolding round
  round_with mark target flag inner = at_detail t.detail refl
    where
      at_detail :
          (r : Result SwapDetail) → t.detail ≡ r → IsGuarded mark target flag (round sv deadline t)
      at_detail (ok d) e = record {
        ordered = λ s. ground (arith, (inner d).ordered s);
        honest = λ s. ground (arith, (inner d).honest s);
      }
      at_detail (err x) e = record { ordered = λ s. ground arith; honest = λ s. ground arith }

  pub round_dleq :
      IsGuarded is_dleq_ok is_post_fund (λ s. s.alice_dleq_verified) (round sv deadline t)
  round_dleq = round_with is_dleq_ok is_post_fund (λ s. s.alice_dleq_verified) dispatch_dleq

  pub round_xmr :
      IsGuarded is_xmr_ok is_post_encsig (λ s. s.xmr_lock_verified) (round sv deadline t)
  round_xmr = round_with is_xmr_ok is_post_encsig (λ s. s.xmr_lock_verified) dispatch_xmr
