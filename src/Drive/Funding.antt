-- ===== src/Drive/Funding.antt =====
-- The pieces of the funding branch of src/atomic-swap/drive.ts, one lemma each.
use Prim.Native.String.{String}
use miradex_client.Prelude.{
  ℕ, zero, suc, ◌+◌, ◌≡◌, refl, ◌⊎◌, inl, inr, true, false, ◌||◌, Option, none, some, arith, any,
  Bool-cases, str_eq, if◌then◌else◌,
}
use text.Mathlib.TextEquality.{eq_iff}
use miradex_client.Errors.Codes.{Result, ok, err, verification_error, e_lock_addr_mismatch}
use miradex_client.Protocol.{ProtocolParams, SwapDetail, ExtractedProtocolData, or_empty, present}
use miradex_client.Snapshot.{SnapshotInput}
use miradex_client.Drive.{
  UnsignedPsbt, PresigsEncsig, PresigsAnswer, presigs_accepted, presigs_refused, Services, Tick,
  State, next,
}
use miradex_client.Drive.Acts.{pure, throw, ◌>>=◌, attempt}
use miradex_client.Drive.Fund.{
  check_dleq, check_contract, check_lock_address, build_lock, submit_presigs, presigs_answered,
  already_has_encsig, check_encsig,
}
use miradex_client.Drive.Store.{write_snapshot, post_fund_from}
use miradex_client.Drive.Events.{is_snapshot, IsQuiet, is_post_encsig, is_commitment, checks}

pub attempt-IsQuiet : {A : Type 0} (r : Result A) → IsQuiet is_commitment checks (attempt r)
attempt-IsQuiet (ok a) = record { silent = λ s. refl; keeps = λ s. refl }
attempt-IsQuiet (err e) = record { silent = λ s. refl; keeps = λ s. refl }

module _ (sv : Services) where
  pub check_contract-IsQuiet :
      (t : Tick) (d : SwapDetail) → IsQuiet is_commitment checks (check_contract sv t d)
  unfolding check_contract
  check_contract-IsQuiet t d = record { silent = λ s. ground arith; keeps = λ s. ground arith }

  pub check_lock_address-IsQuiet :
      (p : Option ProtocolParams) (a : String)
      → IsQuiet is_commitment checks (check_lock_address sv p a)
  unfolding check_lock_address
  check_lock_address-IsQuiet none a = record { silent = λ s. refl; keeps = λ s. refl }
  check_lock_address-IsQuiet (some p) a = record {
    silent = λ s. ground arith;
    keeps = λ s. ground arith;
  }

  pub build_lock-IsQuiet :
      (d : SwapDetail) (a : String) (p : ProtocolParams)
      → IsQuiet is_commitment checks (build_lock sv d a p)
  unfolding build_lock
  build_lock-IsQuiet d a p = record { silent = λ s. ground arith; keeps = λ s. ground arith }

  pub submit_presigs-IsQuiet :
      (t : Tick) (pdx : ExtractedProtocolData) (p : ProtocolParams) (a : String)
      (b : UnsignedPsbt × String × String)
      → IsQuiet is_commitment checks (submit_presigs sv t pdx p a b)
  unfolding submit_presigs
  submit_presigs-IsQuiet t pdx p a b = record {
    silent = λ s. ground arith;
    keeps = λ s. ground arith;
  }

  pub check_encsig-IsQuiet : (e : PresigsEncsig) → IsQuiet is_commitment checks (check_encsig sv e)
  unfolding check_encsig
  check_encsig-IsQuiet e = record { silent = λ s. ground arith; keeps = λ s. ground arith }

  pub write_snapshot-IsQuiet :
      (t : Tick) (i : SnapshotInput) → IsQuiet is_commitment checks (write_snapshot sv t i)
  unfolding write_snapshot
  write_snapshot-IsQuiet t i = record { silent = λ s. ground arith; keeps = λ s. ground arith }

  pub check_dleq_silent :
      (p : Option ProtocolParams)
      → IsQuiet is_commitment (λ s. s.xmr_lock_verified) (check_dleq sv p)
  unfolding check_dleq
  check_dleq_silent none = record { silent = λ s. ground arith; keeps = λ s. ground arith }
  check_dleq_silent (some p) = record { silent = λ s. ground arith; keeps = λ s. ground arith }

  -- What lets the check of the proof go on: it was made before, or the proof at hand is valid.
  pub check_dleq_next :
      (pp : Option ProtocolParams) (s : State)
      → (check_dleq sv pp s).2 ≡ next tt
      → ((s.alice_dleq_verified ≡ true)
          ⊎ ((p : ProtocolParams) × (pp ≡ some p)
              × (sv.verify_dleq_proof p.s_a_bitcoin
                    (or_empty p.s_a_monero)
                    (or_empty p.dleq_proof_s_a)
                  ≡ true)))
        × ((check_dleq sv pp s).1.alice_dleq_verified ≡ true)
        × ((check_dleq sv pp s).1.verification_emitted ≡ s.verification_emitted)
  unfolding check_dleq
  check_dleq_next none s e = ground arith
  check_dleq_next (some p) s e = elim (Bool-cases s.alice_dleq_verified) [
    | inl old ↦ ground arith
    | inr new ↦ (inr (p, refl, ground arith), ground arith, ground arith)
  ]

  pub check_contract_next :
      (t : Tick) (d : SwapDetail) (s : State)
      → (check_contract sv t d s).2 ≡ next tt
      → (s.verification_emitted ≡ true)
        ⊎ (d.has_verification ≡ false)
        ⊎ (present d.deposit_address ≡ false)
        ⊎ (t.contract_verified ≡ ok true)
  unfolding check_contract
  check_contract_next t d s e = ground arith

  pub check_lock_address_next :
      (pp : Option ProtocolParams) (a : String) (s : State) (p : ProtocolParams)
      → (check_lock_address sv pp a s).2 ≡ next p
      → (pp ≡ some p) × (sv.derive_lock_address p.a sv.b_pub ≡ ok a)
  unfolding check_lock_address
  check_lock_address_next none a s p e = cc
  check_lock_address_next (some q) a s p e =
      derived_next (sv.derive_lock_address q.a sv.b_pub) refl e
    where
      derived_next :
          (r : Result String)
          → sv.derive_lock_address q.a sv.b_pub ≡ r
          → ((attempt r >>= λ derived.
                if str_eq derived a
                then pure q
                else throw (verification_error e_lock_addr_mismatch))
              s).2
            ≡ next p
          → (some q ≡ some p) × (sv.derive_lock_address p.a sv.b_pub ≡ ok a)
      derived_next (ok x) f h = (ground arith, ground (arith, eq_iff x a))
      derived_next (err x) f h = cc

  -- What /presigs gives: a refund signature in it was in the parameters, or in the answer.
  answered_next :
      (answer : PresigsAnswer) (s : State) (x : PresigsEncsig)
      → (presigs_answered sv answer s).2 ≡ next x
      → (present x.tx_full_refund_encsig || present x.tx_partial_refund_encsig) ≡ true
      → (body : PresigsEncsig) × (answer ≡ presigs_accepted (some body))
        × ((present body.tx_full_refund_encsig || present body.tx_partial_refund_encsig) ≡ true)
  unfolding presigs_answered
  answered_next (presigs_accepted none) s x e h = ground arith
  answered_next (presigs_accepted (some body)) s x e h = (body, refl, ground arith)
  answered_next (presigs_refused msg) s x e h = ground arith

  pub submit_presigs_next :
      (t : Tick) (pdx : ExtractedProtocolData) (p : ProtocolParams) (a : String)
      (b : UnsignedPsbt × String × String) (s : State) (x : PresigsEncsig)
      → (submit_presigs sv t pdx p a b s).2 ≡ next x
      → (present x.tx_full_refund_encsig || present x.tx_partial_refund_encsig) ≡ true
      → (((present p.tx_full_refund_encsig || present p.tx_partial_refund_encsig) ≡ true)
          × (present pdx.redeem_digest_hex ≡ true))
        ⊎ ((body : PresigsEncsig) × (t.presigs ≡ presigs_accepted (some body))
            × ((present body.tx_full_refund_encsig || present body.tx_partial_refund_encsig)
                ≡ true))
  unfolding submit_presigs already_has_encsig
  submit_presigs_next t pdx p a (unsigned, signed, pre_sigs) s x e h =
      elim (Bool-cases (already_has_encsig sv pdx p)) [
        | inl had ↦ inl (ground arith, ground arith)
        | inr asks ↦
            let answer : (presigs_answered sv t.presigs s).2 ≡ next x = rw asks at e in
            inr (answered_next t.presigs s x answer h)
      ]

  pub check_encsig_next :
      (x : PresigsEncsig) (s : State)
      → (check_encsig sv x s).2 ≡ next tt
      → (present x.tx_full_refund_encsig || present x.tx_partial_refund_encsig) ≡ true
  unfolding check_encsig
  check_encsig_next x s e = ground arith

  pub write_snapshot_next :
      (t : Tick) (i : SnapshotInput) (s : State)
      → (write_snapshot sv t i s).2 ≡ next tt
      → sv.saves_snapshots ≡ true
      → any is_snapshot (write_snapshot sv t i s).0 ≡ true
  unfolding write_snapshot
  write_snapshot_next t i s e h = ground arith

module _ (t : Tick) where
  pub post_fund_from-IsQuiet :
      (rounds n : ℕ) (a signed : String)
      → IsQuiet is_post_encsig checks (post_fund_from rounds n t a signed)
  unfolding post_fund_from
  post_fund_from-IsQuiet zero n a signed = record { silent = λ s. refl; keeps = λ s. refl }
  post_fund_from-IsQuiet (suc rounds) n a signed =
      let later = post_fund_from-IsQuiet rounds (n + 1) a signed in
      record {
        silent = λ s. ground (arith, later.silent s);
        keeps = λ s. ground (arith, later.keeps s);
      }
