-- ===== src/Drive/Stored.antt =====
-- The recovery snapshot is stored before the lock is broadcast (src/atomic-swap/drive.ts).
use Prim.Native.String.{String}
use miradex_client.Prelude.{ℕ, ◌≡◌, refl, true, false, List, [], ◌∷◌, arith, any}
use miradex_client.Errors.Codes.{Result, ok, err}
use miradex_client.Protocol.{
  ProtocolParams, SwapDetail, ExtractedProtocolData, extract_protocol_data, or_empty,
}
use miradex_client.Drive.{
  UnsignedPsbt, PresigsEncsig, Services, Tick, Event, State, Flow, next, again, stop, fail,
}
use miradex_client.Drive.Acts.{Act, follow, ◌>>=◌}
use miradex_client.Drive.Fund.{
  check_dleq, check_contract, check_lock_address, build_lock, submit_presigs, check_encsig,
  fund_stored, fund_answered, fund_built, fund_derived, fund_linked, fund_address, fund, rearm,
}
use miradex_client.Drive.Store.{snapshot_input, write_snapshot}
use miradex_client.Drive.Encsig.{submit_encsig}
use miradex_client.Drive.Loop.{sweep, dispatch, round}
use miradex_client.Drive.Events.{
  guarded, guarded_seen, guarded-append, guarded_none, guarded_more, IsQuiet, is_post_fund,
  is_snapshot, is_commitment, checks,
}
use miradex_client.Drive.Funding.{
  check_contract-IsQuiet, check_lock_address-IsQuiet, build_lock-IsQuiet, submit_presigs-IsQuiet,
  check_encsig-IsQuiet, write_snapshot-IsQuiet, check_dleq_silent, write_snapshot_next,
}
use miradex_client.Drive.Rounds.{submit_encsig-IsQuiet}

-- Within the piece, a snapshot comes before each broadcast.
abbrev StoresFirst : {A : Type 0} → Act A → Type 0
StoresFirst m = (s : State) → guarded is_snapshot is_post_fund false (m s).0 ≡ true

no_fund : (e : Event) → is_post_fund e ≡ true → is_commitment e ≡ true
no_fund e h = ground arith

none_posted : (es : List Event) → any is_commitment es ≡ false → any is_post_fund es ≡ false
none_posted [] h = refl
none_posted (e ∷ es) h = ground (arith, no_fund e, none_posted es)

module _ {F : Type 0} (flag : State → F) {A B : Type 0} where
  follow_stores :
      (es : List Event) (s : State) (r : Flow A) (f : A → Act B)
      → any is_commitment es ≡ false
      → ((x : A) → StoresFirst (f x))
      → guarded is_snapshot is_post_fund false (follow es s r f).0 ≡ true
  follow_stores es s (next a) f h g = ground (
    arith,
    guarded-append is_snapshot is_post_fund false es (f a s).0,
    guarded_none is_snapshot is_post_fund false es (none_posted es h),
    guarded_more is_snapshot is_post_fund false (any is_snapshot es) (f a s).0 (λ e. cc) (g a s),
  )
  follow_stores es s again f h g = guarded_none is_snapshot is_post_fund false es (none_posted es h)
  follow_stores es s stop f h g = guarded_none is_snapshot is_post_fund false es (none_posted es h)
  follow_stores es s (fail e) f h g =
      guarded_none is_snapshot is_post_fund false es (none_posted es h)

  bind-StoresFirst :
      (m : Act A) (f : A → Act B)
      → IsQuiet is_commitment flag m
      → ((x : A) → StoresFirst (f x))
      → StoresFirst (m >>= f)
  bind-StoresFirst m f q g s = follow_stores (m s).0 (m s).1 (m s).2 f (q.silent s) g

module _ (sv : Services) (saves : sv.saves_snapshots ≡ true) (t : Tick) (d : SwapDetail)
    (pdx : ExtractedProtocolData) where
  follow_written :
      {B : Type 0} (es : List Event) (s : State) (r : Flow (Unit {0})) (f : Unit {0} → Act B)
      → any is_commitment es ≡ false
      → (r ≡ next tt → any is_snapshot es ≡ true)
      → guarded is_snapshot is_post_fund false (follow es s r f).0 ≡ true
  follow_written es s (next tt) f h w = ground (
    arith,
    w refl,
    guarded-append is_snapshot is_post_fund false es (f tt s).0,
    guarded_none is_snapshot is_post_fund false es (none_posted es h),
    guarded_seen is_snapshot is_post_fund (f tt s).0,
  )
  follow_written es s again f h w =
      guarded_none is_snapshot is_post_fund false es (none_posted es h)
  follow_written es s stop f h w = guarded_none is_snapshot is_post_fund false es (none_posted es h)
  follow_written es s (fail e) f h w =
      guarded_none is_snapshot is_post_fund false es (none_posted es h)

  fund_answered-StoresFirst :
      (a : String) (p : ProtocolParams) (built : UnsignedPsbt × String × String) (x : PresigsEncsig)
      → StoresFirst (fund_answered sv t d pdx a p built x)
  unfolding fund_answered
  fund_answered-StoresFirst a p (unsigned, signed, pre_sigs) x =
      let input = snapshot_input sv t.now d pdx p a unsigned x in
      let write = write_snapshot sv t input in
      bind-StoresFirst checks (check_encsig sv x) (λ _. write >>= λ _. fund_stored sv t a signed)
        (check_encsig-IsQuiet sv x)
        (λ _ s.
          follow_written (write s).0 (write s).1 (write s).2 (λ _. fund_stored sv t a signed)
            ((write_snapshot-IsQuiet sv t input).silent s)
            (λ e. write_snapshot_next sv t input s e saves))

  fund_address-StoresFirst : (a : String) → StoresFirst (fund_address sv t d pdx a)
  unfolding fund_address fund_linked fund_derived fund_built
  fund_address-StoresFirst a =
      let lock : Act ProtocolParams = check_lock_address sv pdx.params a in
      bind-StoresFirst (λ s. s.xmr_lock_verified) (check_dleq sv pdx.params)
        (λ _. fund_linked sv t d pdx a) (check_dleq_silent sv pdx.params)
        (λ _.
          bind-StoresFirst checks (check_contract sv t d) (λ _. lock >>= fund_derived sv t d pdx a)
            (check_contract-IsQuiet sv t d)
            (λ _.
              bind-StoresFirst checks lock (fund_derived sv t d pdx a)
                (check_lock_address-IsQuiet sv pdx.params a)
                (λ p.
                  bind-StoresFirst checks (build_lock sv d a p) (fund_built sv t d pdx a p)
                    (build_lock-IsQuiet sv d a p)
                    (λ built.
                      bind-StoresFirst checks (submit_presigs sv t pdx p a built)
                        (fund_answered sv t d pdx a p built)
                        (submit_presigs-IsQuiet sv t pdx p a built)
                        (λ x. fund_answered-StoresFirst a p built x)))))

  fund-StoresFirst : StoresFirst (fund sv t d pdx)
  unfolding fund
  fund-StoresFirst s =
      ground (arith, fund_address-StoresFirst (or_empty d.deposit_address) (rearm d s))

module _ (sv : Services) (saves : sv.saves_snapshots ≡ true) (deadline : ℕ) where
  dispatch-StoresFirst : (t : Tick) (d : SwapDetail) → StoresFirst (dispatch sv deadline t d)
  unfolding dispatch sweep
  dispatch-StoresFirst t d s =
      let pdx = extract_protocol_data d in
      ground (
        arith,
        fund-StoresFirst sv saves t d pdx s,
        guarded_none is_snapshot is_post_fund false (submit_encsig sv t d pdx s).0
            ((submit_encsig-IsQuiet sv t d pdx).silent s),
      )

  -- Where the caller gave a callback for it, in each round by itself a snapshot has been written,
  -- or found, before each broadcast of a lock.
  pub round_stores :
      (t : Tick) (s : State)
      → guarded is_snapshot is_post_fund false (round sv deadline t s).0 ≡ true
  unfolding round
  round_stores t s = at_detail t.detail refl
    where
      at_detail :
          (r : Result SwapDetail)
          → t.detail ≡ r
          → guarded is_snapshot is_post_fund false (round sv deadline t s).0 ≡ true
      at_detail (ok d) e = ground (arith, dispatch-StoresFirst t d s)
      at_detail (err x) e = ground arith
