-- ===== src/Drive/Guarded.antt =====
-- The order of what the driver of src/atomic-swap/drive.ts does, over every run: a check comes
-- before each commitment.
use Prim.Native.String.{String}
use miradex_client.Prelude.{ap, Bool, false, Option, none, some, arith}
use miradex_client.Protocol.{ProtocolParams, SwapDetail, ExtractedProtocolData, or_empty}
use miradex_client.Drive.{
  UnsignedPsbt, PresigsEncsig, Services, Tick, Event, dleq_checked, xmr_checked,
}
use miradex_client.Drive.Acts.{Act, ◌>>=◌}
use miradex_client.Drive.Fund.{
  check_dleq, check_contract, check_lock_address, build_lock, submit_presigs, check_encsig,
  fund_stored, fund_answered, fund_built, fund_derived, fund_linked, fund_address, fund, rearm,
}
use miradex_client.Drive.Store.{snapshot_input, write_snapshot}
use miradex_client.Drive.Events.{
  IsQuiet, bind-IsQuiet, IsGuarded, bind-IsGuarded, is_post_fund, is_post_encsig, is_commitment,
  checks, IsQuiet-no_encsig,
}
use miradex_client.Drive.Funding.{
  check_contract-IsQuiet, check_lock_address-IsQuiet, build_lock-IsQuiet, submit_presigs-IsQuiet,
  check_encsig-IsQuiet, write_snapshot-IsQuiet, check_dleq_next, post_fund_from-IsQuiet,
}

abbrev pub is_dleq_ok : Event → Bool
is_dleq_ok (dleq_checked s_a_bitcoin s_a_monero proof valid) = valid
is_dleq_ok _ = false

abbrev pub is_xmr_ok : Event → Bool
is_xmr_ok (xmr_checked tx_hash spend_pub amount verified) = verified
is_xmr_ok _ = false

module _ (sv : Services) (t : Tick) (d : SwapDetail) (pdx : ExtractedProtocolData) where
  pub no_encsig :
      {A B : Type 0} (m : Act A) (f : A → Act B)
      → IsQuiet is_commitment checks m
      → ((x : A) → IsQuiet is_post_encsig checks (f x))
      → IsQuiet is_post_encsig checks (m >>= f)
  no_encsig m f q = bind-IsQuiet is_post_encsig checks m f (IsQuiet-no_encsig m q)

  fund_stored-IsQuiet :
      (a signed : String) → IsQuiet is_post_encsig checks (fund_stored sv t a signed)
  unfolding fund_stored
  fund_stored-IsQuiet a signed =
      let later = post_fund_from-IsQuiet t 6 0 a signed in
      record { silent = λ s. later.silent s; keeps = λ s. later.keeps s }

  fund_answered-IsQuiet :
      (a : String) (p : ProtocolParams) (built : UnsignedPsbt × String × String) (x : PresigsEncsig)
      → IsQuiet is_post_encsig checks (fund_answered sv t d pdx a p built x)
  unfolding fund_answered
  fund_answered-IsQuiet a p (unsigned, signed, pre_sigs) x =
      let input = snapshot_input sv t.now d pdx p a unsigned x in
      no_encsig (check_encsig sv x)
        (λ _. write_snapshot sv t input >>= λ _. fund_stored sv t a signed)
        (check_encsig-IsQuiet sv x)
        (λ _.
          no_encsig (write_snapshot sv t input) (λ _. fund_stored sv t a signed)
            (write_snapshot-IsQuiet sv t input) (λ _. fund_stored-IsQuiet a signed))

  fund_linked-IsQuiet : (a : String) → IsQuiet is_post_encsig checks (fund_linked sv t d pdx a)
  unfolding fund_linked fund_derived fund_built
  fund_linked-IsQuiet a =
      let lock : Act ProtocolParams = check_lock_address sv pdx.params a in
      no_encsig (check_contract sv t d) (λ _. lock >>= fund_derived sv t d pdx a)
        (check_contract-IsQuiet sv t d)
        (λ _.
          no_encsig lock (fund_derived sv t d pdx a) (check_lock_address-IsQuiet sv pdx.params a)
            (λ p.
              no_encsig (build_lock sv d a p) (fund_built sv t d pdx a p)
                (build_lock-IsQuiet sv d a p)
                (λ built.
                  no_encsig (submit_presigs sv t pdx p a built) (fund_answered sv t d pdx a p built)
                    (submit_presigs-IsQuiet sv t pdx p a built)
                    (λ x. fund_answered-IsQuiet a p built x))))

  check_dleq-IsGuarded :
      (p : Option ProtocolParams)
      → IsGuarded is_dleq_ok is_post_fund (λ s. s.alice_dleq_verified) (check_dleq sv p)
  unfolding check_dleq
  check_dleq-IsGuarded none = record { ordered = λ s. ground arith; honest = λ s. ground arith }
  check_dleq-IsGuarded (some p) = record { ordered = λ s. ground arith; honest = λ s. ground arith }

  fund_address-IsGuarded :
      (a : String)
      → IsGuarded is_dleq_ok is_post_fund (λ s. s.alice_dleq_verified) (fund_address sv t d pdx a)
  unfolding fund_address
  fund_address-IsGuarded a =
      bind-IsGuarded is_dleq_ok is_post_fund (λ s. s.alice_dleq_verified) (check_dleq sv pdx.params)
        (λ _. fund_linked sv t d pdx a) (check_dleq-IsGuarded pdx.params)
        (λ s u e. (check_dleq_next sv pdx.params s e).1)
        (λ _ s. ap (λ p. p.0) ((fund_linked-IsQuiet a).keeps s))

  check_dleq_no_encsig :
      (p : Option ProtocolParams)
      → IsQuiet is_post_encsig (λ s. s.xmr_lock_verified) (check_dleq sv p)
  unfolding check_dleq
  check_dleq_no_encsig none = record { silent = λ s. ground arith; keeps = λ s. ground arith }
  check_dleq_no_encsig (some p) = record { silent = λ s. ground arith; keeps = λ s. ground arith }

  fund_address-IsQuiet :
      (a : String) → IsQuiet is_post_encsig (λ s. s.xmr_lock_verified) (fund_address sv t d pdx a)
  unfolding fund_address
  fund_address-IsQuiet a =
      bind-IsQuiet is_post_encsig (λ s. s.xmr_lock_verified) (check_dleq sv pdx.params)
        (λ _. fund_linked sv t d pdx a) (check_dleq_no_encsig pdx.params)
        (λ _. record {
          silent = (fund_linked-IsQuiet a).silent;
          keeps = λ s. ap (λ p. p.1) ((fund_linked-IsQuiet a).keeps s);
        })

  pub fund-IsGuarded :
      IsGuarded is_dleq_ok is_post_fund (λ s. s.alice_dleq_verified) (fund sv t d pdx)
  unfolding fund rearm
  fund-IsGuarded =
      let inner = fund_address-IsGuarded (or_empty d.deposit_address) in
      record {
        ordered = λ s. ground (arith, inner.ordered s, inner.ordered (record s { funded_at = 0 }));
        honest = λ s. ground (arith, inner.honest s, inner.honest (record s { funded_at = 0 }));
      }

  pub fund-IsQuiet : IsQuiet is_post_encsig (λ s. s.xmr_lock_verified) (fund sv t d pdx)
  unfolding fund rearm
  fund-IsQuiet =
      let inner = fund_address-IsQuiet (or_empty d.deposit_address) in
      record {
        silent = λ s. ground (arith, inner.silent s, inner.silent (record s { funded_at = 0 }));
        keeps = λ s. ground (arith, inner.keeps s, inner.keeps (record s { funded_at = 0 }));
      }
