-- ===== src/Drive/Limits.antt =====
-- The bounds of src/atomic-swap/drive.ts on failed attempts, and its deadline.
use Prim.Native.String.{String}
use miradex_client.Prelude.{
  ℕ, zero, suc, ◌+◌, ◌≡◌, refl, Bool, true, false, ◌&&◌, Option, none, some, List, arith, ltb,
}
use miradex_client.Errors.Codes.{Result, ok, err}
use miradex_client.Protocol.{
  ProtocolParams, SwapDetail, ExtractedProtocolData, XmrVerificationData, extract_protocol_data,
  or_empty,
}
use miradex_client.Snapshot.{SnapshotInput}
use miradex_client.Drive.{
  UnsignedPsbt, PresigsEncsig, Services, Tick, Event, State, initial, Flow, next, again, stop, fail,
}
use miradex_client.Drive.Acts.{Act, follow, ◌>>=◌, attempt}
use miradex_client.Drive.Fund.{
  presigs_already_done_max, check_dleq, check_contract, check_lock_address, build_lock,
  submit_presigs, check_encsig, fund_stored, fund_answered, fund_built, fund_derived, fund_linked,
  fund_address, fund, rearm,
}
use miradex_client.Drive.Store.{snapshot_input, write_snapshot, post_fund_from, fund_attempts}
use miradex_client.Drive.Encsig.{
  max_encsig_failures, check_xmr_lock, local_digest, check_digest, send_encsig, release_encsig,
  with_params, submit_encsig,
}
use miradex_client.Drive.Loop.{sweep, dispatch, round}

-- Both counts are below the number at which the loop gives up.
abbrev pub is_within : State → Bool
is_within s =
    ltb s.presigs_streak presigs_already_done_max && ltb s.encsig_failures max_encsig_failures

abbrev pub goes_on : {A : Type 0} → Flow A → Bool
goes_on (next a) = true
goes_on again = true
goes_on stop = false
goes_on (fail e) = false

-- A piece that does not end the loop leaves the counts in bounds.
abbrev StaysWithin : {A : Type 0} → Act A → Type 0
StaysWithin m = (s : State) → is_within s ≡ true → goes_on (m s).2 ≡ true → is_within (m s).1 ≡ true

module _ {A B : Type 0} where
  follow_within :
      (es : List Event) (s : State) (r : Flow A) (f : A → Act B)
      → (goes_on r ≡ true → is_within s ≡ true)
      → ((x : A) → StaysWithin (f x))
      → goes_on (follow es s r f).2 ≡ true
      → is_within (follow es s r f).1 ≡ true
  follow_within es s (next a) f w g h = g a s (w refl) h
  follow_within es s again f w g h = w refl
  follow_within es s stop f w g h = cc
  follow_within es s (fail e) f w g h = cc

  bind-StaysWithin :
      (m : Act A) (f : A → Act B)
      → StaysWithin m
      → ((x : A) → StaysWithin (f x))
      → StaysWithin (m >>= f)
  bind-StaysWithin m f q g s w h = follow_within (m s).0 (m s).1 (m s).2 f (q s w) g h

attempt-StaysWithin : {A : Type 0} (r : Result A) → StaysWithin (attempt r)
attempt-StaysWithin (ok a) s w h = w
attempt-StaysWithin (err e) s w h = w

module _ (sv : Services) where
  check_dleq-StaysWithin : (p : Option ProtocolParams) → StaysWithin (check_dleq sv p)
  unfolding check_dleq
  check_dleq-StaysWithin none s w h = ground arith
  check_dleq-StaysWithin (some p) s w h = ground arith

  check_contract-StaysWithin : (t : Tick) (d : SwapDetail) → StaysWithin (check_contract sv t d)
  unfolding check_contract
  check_contract-StaysWithin t d s w h = ground arith

  check_lock_address-StaysWithin :
      (p : Option ProtocolParams) (a : String) → StaysWithin (check_lock_address sv p a)
  unfolding check_lock_address
  check_lock_address-StaysWithin none a s w h = w
  check_lock_address-StaysWithin (some p) a s w h = ground arith

  build_lock-StaysWithin :
      (d : SwapDetail) (a : String) (p : ProtocolParams) → StaysWithin (build_lock sv d a p)
  unfolding build_lock
  build_lock-StaysWithin d a p s w h = ground arith

  submit_presigs-StaysWithin :
      (t : Tick) (pdx : ExtractedProtocolData) (p : ProtocolParams) (a : String)
      (b : UnsignedPsbt × String × String)
      → StaysWithin (submit_presigs sv t pdx p a b)
  unfolding submit_presigs
  submit_presigs-StaysWithin t pdx p a b s w h = ground arith

  check_encsig-StaysWithin : (e : PresigsEncsig) → StaysWithin (check_encsig sv e)
  unfolding check_encsig
  check_encsig-StaysWithin e s w h = ground arith

  write_snapshot-StaysWithin : (t : Tick) (i : SnapshotInput) → StaysWithin (write_snapshot sv t i)
  unfolding write_snapshot
  write_snapshot-StaysWithin t i s w h = ground arith

  post_fund-StaysWithin :
      (k n : ℕ) (t : Tick) (a signed : String) → StaysWithin (post_fund_from k n t a signed)
  unfolding post_fund_from
  post_fund-StaysWithin zero n t a signed s w h = w
  post_fund-StaysWithin (suc k) n t a signed s w h =
      ground (arith, post_fund-StaysWithin k (n + 1) t a signed s w)

  check_xmr_lock-StaysWithin :
      (t : Tick) (x : Option XmrVerificationData) (p : ProtocolParams)
      → StaysWithin (check_xmr_lock sv t x p)
  unfolding check_xmr_lock
  check_xmr_lock-StaysWithin t none p s w h = ground arith
  check_xmr_lock-StaysWithin t (some x) p s w h = ground arith

  local_digest-StaysWithin :
      (t : Tick) (d : SwapDetail) (p : ProtocolParams) → StaysWithin (local_digest sv t d p)
  unfolding local_digest
  local_digest-StaysWithin t d p s w h = ground arith

  check_digest-StaysWithin : (c : Option String) (l : String) → StaysWithin (check_digest sv c l)
  unfolding check_digest
  check_digest-StaysWithin c l s w h = ground arith

  send_encsig-StaysWithin :
      (t : Tick) (p : ProtocolParams) (g : String) → StaysWithin (send_encsig sv t p g)
  unfolding send_encsig
  send_encsig-StaysWithin t p g s w h = ground arith

  module _ (t : Tick) (d : SwapDetail) (pdx : ExtractedProtocolData) where
    fund_answered-StaysWithin :
        (a : String) (p : ProtocolParams) (b : UnsignedPsbt × String × String) (x : PresigsEncsig)
        → StaysWithin (fund_answered sv t d pdx a p b x)
    unfolding fund_answered fund_stored
    fund_answered-StaysWithin a p (unsigned, signed, pre_sigs) x =
        let input = snapshot_input sv t.now d pdx p a unsigned x in
        bind-StaysWithin (check_encsig sv x)
          (λ _. write_snapshot sv t input >>= λ _. fund_stored sv t a signed)
          (check_encsig-StaysWithin x)
          (λ _.
            bind-StaysWithin (write_snapshot sv t input) (λ _. fund_stored sv t a signed)
              (write_snapshot-StaysWithin t input)
              (λ _ s w h. post_fund-StaysWithin fund_attempts 0 t a signed s w h))

    fund_address-StaysWithin : (a : String) → StaysWithin (fund_address sv t d pdx a)
    unfolding fund_address fund_linked fund_derived fund_built
    fund_address-StaysWithin a =
        let lock : Act ProtocolParams = check_lock_address sv pdx.params a in
        bind-StaysWithin (check_dleq sv pdx.params) (λ _. fund_linked sv t d pdx a)
          (check_dleq-StaysWithin pdx.params)
          (λ _.
            bind-StaysWithin (check_contract sv t d) (λ _. lock >>= fund_derived sv t d pdx a)
              (check_contract-StaysWithin t d)
              (λ _.
                bind-StaysWithin lock (fund_derived sv t d pdx a)
                  (check_lock_address-StaysWithin pdx.params a)
                  (λ p.
                    bind-StaysWithin (build_lock sv d a p) (fund_built sv t d pdx a p)
                      (build_lock-StaysWithin d a p)
                      (λ b.
                        bind-StaysWithin (submit_presigs sv t pdx p a b)
                          (fund_answered sv t d pdx a p b) (submit_presigs-StaysWithin t pdx p a b)
                          (λ x. fund_answered-StaysWithin a p b x)))))

    fund-StaysWithin : StaysWithin (fund sv t d pdx)
    unfolding fund rearm
    fund-StaysWithin s w h =
        ground (arith, fund_address-StaysWithin (or_empty d.deposit_address) (rearm d s))

    release_encsig-StaysWithin : (p : ProtocolParams) → StaysWithin (release_encsig sv t d pdx p)
    unfolding release_encsig
    release_encsig-StaysWithin p =
        let digest : Act String = local_digest sv t d p in
        bind-StaysWithin (check_xmr_lock sv t pdx.xmr_verification p)
          (λ _.
            digest >>= λ l. check_digest sv pdx.redeem_digest_hex l >>= λ _. send_encsig sv t p l)
          (check_xmr_lock-StaysWithin t pdx.xmr_verification p)
          (λ _.
            bind-StaysWithin digest
              (λ l. check_digest sv pdx.redeem_digest_hex l >>= λ _. send_encsig sv t p l)
              (local_digest-StaysWithin t d p)
              (λ l.
                bind-StaysWithin (check_digest sv pdx.redeem_digest_hex l)
                  (λ _. send_encsig sv t p l) (check_digest-StaysWithin pdx.redeem_digest_hex l)
                  (λ _. send_encsig-StaysWithin t p l)))

    with_params-StaysWithin : (q : Option ProtocolParams) → StaysWithin (with_params sv t d pdx q)
    unfolding with_params
    with_params-StaysWithin none s w h = w
    with_params-StaysWithin (some p) s w h = release_encsig-StaysWithin p s w h

    submit_encsig-StaysWithin : StaysWithin (submit_encsig sv t d pdx)
    unfolding submit_encsig
    submit_encsig-StaysWithin s w h = with_params-StaysWithin pdx.params s w h

module _ (sv : Services) (deadline : ℕ) where
  dispatch-StaysWithin : (t : Tick) (d : SwapDetail) → StaysWithin (dispatch sv deadline t d)
  unfolding dispatch sweep
  dispatch-StaysWithin t d s w h =
      let pdx = extract_protocol_data d in
      ground (arith, fund-StaysWithin sv t d pdx s w, submit_encsig-StaysWithin sv t d pdx s w)

  round-StaysWithin : (t : Tick) → StaysWithin (round sv deadline t)
  unfolding round
  round-StaysWithin t s w h = at_detail t.detail refl
    where
      at_detail :
          (r : Result SwapDetail) → t.detail ≡ r → is_within (round sv deadline t s).1 ≡ true
      at_detail (ok d) e = ground (arith, dispatch-StaysWithin t d s w)
      at_detail (err x) e = ground arith

  -- The states in which a round of the loop can begin.
  pub data Reached : State → Type 0 where
    at_start : Reached initial
    after :
        (s : State) (t : Tick)
        → Reached s
        → goes_on (round sv deadline t s).2 ≡ true
        → t.aborted_asleep ≡ false
        → Reached (round sv deadline t s).1

  -- In every state in which a round begins, both counts are below the numbers that end the loop.
  pub Reached-is_within : (s : State) → Reached s → is_within s ≡ true
  Reached-is_within _ at_start = refl
  Reached-is_within _ (after s t r g awake) = round-StaysWithin t s (Reached-is_within s r) g
