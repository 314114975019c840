-- ===== src/Drive/Runs.antt =====
-- What holds of every run of the driver of src/atomic-swap/drive.ts.
use miradex_client.Prelude.{
  ℕ, ◌≡◌, refl, Bool, true, false, ◌||◌, List, [], ◌∷◌, arith, any, str_eq,
}
use miradex_client.Protocol.{SwapDetail, extract_protocol_data, or_empty, present}
use miradex_client.Drive.{Services, Tick, Event, State, initial}
use miradex_client.Drive.Loop.{is_action, round, drive_from}
use miradex_client.Drive.Events.{
  guarded, guarded_more, guarded-append, IsGuarded, is_post_fund, is_post_encsig,
}
use miradex_client.Drive.Clearance.{IsCleared}
use miradex_client.Drive.Release.{IsReleasable}
use miradex_client.Drive.Guarded.{is_dleq_ok, is_xmr_ok}
use miradex_client.Drive.Rounds.{round_dleq, round_xmr}

module _ (sv : Services) (deadline : ℕ) where
  module _ (mark target : Event → Bool) (flag : State → Bool)
      (each : (t : Tick) → IsGuarded mark target flag (round sv deadline t)) where
    run_ordered :
        (s : State) (ts : List Tick)
        → guarded mark target (flag s) (drive_from sv deadline s ts).0 ≡ true
    unfolding drive_from
    run_ordered s [] = refl
    run_ordered s (t ∷ ts) =
        let r = round sv deadline t s in
        let here = (each t).ordered s in
        let later =
          guarded_more mark target (flag r.1) (flag s || any mark r.0)
            (drive_from sv deadline r.1 ts).0 ((each t).honest s) (run_ordered r.1 ts) in
        ground (
          arith,
          here,
          later,
          guarded-append mark target (flag s) r.0 (drive_from sv deadline r.1 ts).0,
        )

  -- In every run of the driver each broadcast of a lock comes after a DLEQ proof that was verified
  -- in that run.
  pub drive_checks_dleq :
      (ts : List Tick)
      → guarded is_dleq_ok is_post_fund false (drive_from sv deadline initial ts).0 ≡ true
  drive_checks_dleq ts =
      run_ordered is_dleq_ok is_post_fund (λ s. s.alice_dleq_verified) (round_dleq sv deadline)
        initial ts

  -- In every run of the driver each release of an encrypted signature comes after a Monero lock
  -- that was verified in that run.
  pub drive_checks_xmr :
      (ts : List Tick)
      → guarded is_xmr_ok is_post_encsig false (drive_from sv deadline initial ts).0 ≡ true
  drive_checks_xmr ts =
      run_ordered is_xmr_ok is_post_encsig (λ s. s.xmr_lock_verified) (round_xmr sv deadline)
        initial ts

  -- What a commitment of the round at a detail rests on.
  pub data IsJustified (t : Tick) (s : State) (d : SwapDetail) : Type 0 where
    funding :
        is_action "fund" d.action ≡ true
        → present d.deposit_address ≡ true
        → str_eq (or_empty d.deposit_address) s.last_funded_address ≡ false
        → IsCleared sv t d (extract_protocol_data d) s (or_empty d.deposit_address)
        → IsJustified t s d
    releasing :
        is_action "submit_encsig" d.action ≡ true
        → IsReleasable sv t d (extract_protocol_data d) s
        → IsJustified t s d
