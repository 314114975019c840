-- ===== src/Drive/Clearance.antt =====
-- What holds when the funding branch of src/atomic-swap/drive.ts broadcasts the lock.
use Prim.Native.String.{String}
use miradex_client.Prelude.{
  ◌≡◌, refl, ap, ◌⊎◌, inl, inr, true, false, ◌||◌, some, arith, any, Bool-cases, str_eq,
}
use miradex_client.Errors.Codes.{ok}
use miradex_client.Protocol.{ProtocolParams, SwapDetail, ExtractedProtocolData, or_empty, present}
use miradex_client.Drive.{
  UnsignedPsbt, PresigsEncsig, presigs_accepted, Services, Tick, State, next,
}
use miradex_client.Drive.Acts.{Act, ◌>>=◌}
use miradex_client.Drive.Fund.{
  check_dleq, check_contract, check_lock_address, build_lock, submit_presigs, check_encsig,
  fund_stored, fund_answered, fund_built, fund_derived, fund_linked, fund_address, fund, rearm,
  is_settling, wants_funding,
}
use miradex_client.Drive.Store.{snapshot_input, write_snapshot}
use miradex_client.Drive.Events.{bind_raises, IsQuiet, is_commitment, checks}
use miradex_client.Drive.Funding.{
  check_contract-IsQuiet, check_lock_address-IsQuiet, build_lock-IsQuiet, submit_presigs-IsQuiet,
  check_encsig-IsQuiet, check_dleq_silent, check_dleq_next, check_contract_next,
  check_lock_address_next, check_encsig_next, submit_presigs_next,
}

-- What has been established when the lock at the deposit address is broadcast.
module _ (sv : Services) (t : Tick) (d : SwapDetail) (pdx : ExtractedProtocolData) (s : State) where
  -- A refund signature is in the parameters, with the digest that shows that /presigs was answered,
  -- or it is in the answer of this round's /presigs.
  abbrev pub IsRefundable : ProtocolParams → Type 0
  IsRefundable params =
      (((present params.tx_full_refund_encsig || present params.tx_partial_refund_encsig) ≡ true)
        × (present pdx.redeem_digest_hex ≡ true))
      ⊎ ((body : PresigsEncsig) × (t.presigs ≡ presigs_accepted (some body))
          × ((present body.tx_full_refund_encsig || present body.tx_partial_refund_encsig) ≡ true))

  pub record IsCleared (lock_address : String) : Type 0 where
    pub params : ProtocolParams
    pub known : pdx.params ≡ some params
    pub derived : sv.derive_lock_address params.a sv.b_pub ≡ ok lock_address
    pub linked :
        (s.alice_dleq_verified ≡ true)
        ⊎ (sv.verify_dleq_proof params.s_a_bitcoin
              (or_empty params.s_a_monero)
              (or_empty params.dleq_proof_s_a)
            ≡ true)
    pub contract :
        (s.verification_emitted ≡ true)
        ⊎ (d.has_verification ≡ false)
        ⊎ (present d.deposit_address ≡ false)
        ⊎ (t.contract_verified ≡ ok true)
    pub refundable : IsRefundable params

  same_params : (p q : ProtocolParams) → pdx.params ≡ some p → pdx.params ≡ some q → p ≡ q
  same_params p q e f = cc

  linked_at :
      (p : ProtocolParams)
      → pdx.params ≡ some p
      → (s.alice_dleq_verified ≡ true)
        ⊎ ((q : ProtocolParams) × (pdx.params ≡ some q)
            × (sv.verify_dleq_proof q.s_a_bitcoin
                  (or_empty q.s_a_monero)
                  (or_empty q.dleq_proof_s_a)
                ≡ true))
      → (s.alice_dleq_verified ≡ true)
        ⊎ (sv.verify_dleq_proof p.s_a_bitcoin (or_empty p.s_a_monero) (or_empty p.dleq_proof_s_a)
            ≡ true)
  linked_at p e (inl old) = inl old
  linked_at p e (inr (q, f, valid)) = inr (rw (same_params p q e f) valid)

  raised_on :
      {A B : Type 0} (m : Act A) (f : A → Act B) (u : State)
      → IsQuiet is_commitment checks m
      → any is_commitment ((m >>= f) u).0 ≡ true
      → (x : A) × ((m u).2 ≡ next x) × (any is_commitment (f x (m u).1).0 ≡ true)
  raised_on m f u = bind_raises is_commitment checks m f u

  unit_eq : (u : Unit {0}) → u ≡ tt
  unit_eq u = refl

  fund_answered_raises :
      (a : String) (p : ProtocolParams) (built : UnsignedPsbt × String × String) (x : PresigsEncsig)
      (u : State)
      → any is_commitment (fund_answered sv t d pdx a p built x u).0 ≡ true
      → (present x.tx_full_refund_encsig || present x.tx_partial_refund_encsig) ≡ true
  unfolding fund_answered
  fund_answered_raises a p (unsigned, signed, pre_sigs) x u e =
      let input = snapshot_input sv t.now d pdx p a unsigned x in
      let (v, ok_encsig, later) =
        raised_on (check_encsig sv x)
          (λ _. write_snapshot sv t input >>= λ _. fund_stored sv t a signed) u
          (check_encsig-IsQuiet sv x) e in
      check_encsig_next sv x u (rw (unit_eq v) at ok_encsig)

  -- The lock at an address is broadcast only if all of this holds of the round.
  fund_address-IsCleared :
      (a : String) → any is_commitment (fund_address sv t d pdx a s).0 ≡ true → IsCleared a
  unfolding fund_address fund_linked fund_derived fund_built
  fund_address-IsCleared a e =
      let dleq = check_dleq sv pdx.params in
      let (u, linked, e1) =
        bind_raises is_commitment (λ x. x.xmr_lock_verified) dleq (λ _. fund_linked sv t d pdx a) s
          (check_dleq_silent sv pdx.params) e in
      let s1 = (dleq s).1 in
      let contract = check_contract sv t d in
      let lock : Act ProtocolParams = check_lock_address sv pdx.params a in
      let derived = fund_derived sv t d pdx a in
      let (v, agreed, e2) =
        raised_on contract (λ _. lock >>= derived) s1 (check_contract-IsQuiet sv t d) e1 in
      let s2 = (contract s1).1 in
      let (p, located, e3) =
        raised_on lock derived s2 (check_lock_address-IsQuiet sv pdx.params a) e2 in
      let s3 = (lock s2).1 in
      let build = build_lock sv d a p in
      let (built, made, e4) =
        raised_on build (fund_built sv t d pdx a p) s3 (build_lock-IsQuiet sv d a p) e3 in
      let s4 = (build s3).1 in
      let presigs = submit_presigs sv t pdx p a built in
      let (x, answered, e5) =
        raised_on presigs (fund_answered sv t d pdx a p built) s4
          (submit_presigs-IsQuiet sv t pdx p a built) e4 in
      let s5 = (presigs s4).1 in
      let refundable =
        submit_presigs_next sv t pdx p a built s4 x answered
          (fund_answered_raises a p built x s5 e5) in
      let (proof, now_linked, unverified) =
        check_dleq_next sv pdx.params s (rw (unit_eq u) at linked) in
      let (known, at_address) = check_lock_address_next sv pdx.params a s2 p located in
      record {
        params = p;
        known = known;
        derived = at_address;
        linked = linked_at p known proof;
        contract = rw unverified at (check_contract_next sv t d s1 (rw (unit_eq v) at agreed));
        refundable = refundable;
      }

-- The branch as a whole.
module _ (sv : Services) (t : Tick) (d : SwapDetail) (pdx : ExtractedProtocolData) where
  rearm_keeps : (s : State) → checks (rearm d s) ≡ checks s
  unfolding rearm
  rearm_keeps s = ground arith

  rearm_emitted : (s : State) → (rearm d s).verification_emitted ≡ s.verification_emitted
  unfolding rearm
  rearm_emitted s = ground arith

  IsCleared-rearm :
      (a : String) (s : State) → IsCleared sv t d pdx (rearm d s) a → IsCleared sv t d pdx s a
  IsCleared-rearm a s c = record {
    params = c.params;
    known = c.known;
    derived = c.derived;
    linked = rw (ap (λ p. p.0) (rearm_keeps s)) at c.linked;
    contract = rw (rearm_emitted s) at c.contract;
    refundable = c.refundable;
  }

  wanted_lem :
      (s : State)
      → wants_funding d s ≡ true
      → (present d.deposit_address ≡ true)
        × (str_eq (or_empty d.deposit_address) s.last_funded_address ≡ false)
  unfolding wants_funding
  wanted_lem s h = ground arith

  -- A lock is broadcast only at a deposit address that is there, that was not funded last, and
  -- for which the round is cleared.
  pub fund-IsCleared :
      (s : State)
      → any is_commitment (fund sv t d pdx s).0 ≡ true
      → (present d.deposit_address ≡ true)
        × (str_eq (or_empty d.deposit_address) s.last_funded_address ≡ false)
        × IsCleared sv t d pdx s (or_empty d.deposit_address)
  unfolding fund
  fund-IsCleared s e = elim (Bool-cases (is_settling t d s)) [
    | inl settling ↦ cc
    | inr other ↦ elim (Bool-cases (wants_funding d s)) [
      | inl wanted ↦
          let (there, fresh) = wanted_lem s wanted in
          let e1 : any is_commitment
                (fund_address sv t d pdx (or_empty d.deposit_address) (rearm d s)).0
              ≡ true =
            rw (other, wanted) at e in
          let cleared =
            fund_address-IsCleared sv t d pdx (rearm d s) (or_empty d.deposit_address) e1 in
          (there, fresh, IsCleared-rearm (or_empty d.deposit_address) s cleared)
      | inr unwanted ↦ cc
    ]
  ]
