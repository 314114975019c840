-- ===== src/Drive/Tests.antt =====
-- A run of the driver of src/atomic-swap/drive.ts on sample answers: it funds, waits, and releases
-- the signature; and the theorems on it.
use Prim.Native.String.{String}
use miradex_client.Prelude.{
  ◌<◌, ℕ, ◌≡◌, refl, true, false, Option, none, some, List, [], ◌∷◌, any, count_if, str_eq,
  if◌then◌else◌,
}
use miradex_client.Errors.Codes.{ok, err, plain_error}
use miradex_client.Protocol.{
  ProtocolParams, atomic_swap, SwapDetail, extract_protocol_data, extract_params,
  extract_xmr_verification,
}
use miradex_client.Drive.{
  UnsignedPsbt, empty_presigs_encsig, Services, presigs_accepted, presigs_refused, Tick,
  post_presigs, initial,
}
use miradex_client.Drive.Fund.{
  presigs_answered, already_has_encsig, means_past_presigs, past_funding, check_dleq,
  check_contract, check_lock_address, build_lock, submit_presigs, check_encsig, has_pending,
  is_settling, rearm, wants_funding, fund_stored, fund_answered, fund_built, fund_derived,
  fund_linked, fund_address, fund,
}
use miradex_client.Status.{is_terminal, is_pre_funding}
use miradex_client.Snapshot.{build_protocol_snapshot}
use miradex_client.Drive.Store.{write_snapshot, post_fund_from}
use miradex_client.Drive.Encsig.{
  submit_encsig, with_params, release_encsig, check_xmr_lock, local_digest, check_digest,
  send_encsig,
}
use miradex_client.Drive.Loop.{sweep, dispatch, round, drive_from, finished}
use miradex_client.Drive.Events.{guarded, is_post_fund, is_post_encsig, is_snapshot, is_commitment}
use miradex_client.Drive.Guarded.{is_dleq_ok, is_xmr_ok}
use miradex_client.Drive.Runs.{drive_checks_dleq, drive_checks_xmr}
use miradex_client.Drive.Stored.{round_stores}
use miradex_client.Drive.Limits.{goes_on, at_start, after}
use miradex_client.Drive.Counts.{is_post_presigs}
use miradex_client.Drive.Refusals.{
  none_yet, once_more, presigs_refusals_bounded, encsig_refusals_bounded,
}
use miradex_client.Errors.Text.{includes}
use miradex_client.Drive.Deadline.{funded_runs_ignore_deadline, parsed, parsed_never_skips}

abbrev unsigned : UnsignedPsbt
unsigned = record { psbt = "psbt"; txid = "lock"; vout = 0; amount_sats = 50000 }

abbrev services : Services
services = record {
  derive_lock_address = λ a b. ok "address";
  build_funding_psbt = λ address amount. ok unsigned;
  sign_psbt = λ psbt. ok "signed";
  compute_pre_sigs = λ signed p. ok "pre_sigs";
  redeem_digest = λ signed p. ok "digest";
  redeem_digest_of_tx = λ tx_hex p. ok "digest";
  encsign_digest = λ key digest. ok "encsig";
  verify_dleq_proof = λ s_a_bitcoin s_a_monero proof. true;
  add_points = λ p q. ok "sum";
  sats_of = λ amount. 50000;
  snapshot_digest = λ body. "checksum";
  swap_id = "swap";
  keystore_id = "keystore";
  network = "testnet";
  client_version = none;
  b_pub = "b_pub";
  b_secret = "b_secret";
  s_b_monero = some "s_b_monero";
  refund_address = "refund";
  maker_peer_id = none;
  maker_multiaddrs = none;
  has_blockchain = true;
  saves_snapshots = true;
  loads_snapshots = false;
}

abbrev params : ProtocolParams
params = record {
  a = "a";
  s_a_bitcoin = "s_a_bitcoin";
  s_a_monero = some "s_a_monero";
  dleq_proof_s_a = some "proof";
  v_a = none;
  cancel_timelock = 72;
  punish_timelock = 144;
  remaining_refund_timelock = none;
  redeem_address = "redeem";
  punish_address = "punish";
  tx_cancel_fee_sats = 1000;
  tx_refund_fee_sats = 1000;
  tx_redeem_fee_sats = 1000;
  tx_punish_fee_sats = 1000;
  amnesty_amount_sats = none;
  tx_partial_refund_fee_sats = none;
  tx_reclaim_fee_sats = none;
  tx_withhold_fee_sats = none;
  tx_mercy_fee_sats = none;
  tx_full_refund_encsig = none;
  tx_partial_refund_encsig = none;
  tx_cancel_sig = none;
  tx_redeem_digest = some "digest";
  monero_lock_address = some "monero_lock";
  xmr_amount_pico = some "1000000000000";
  monero_tx_hash = some "monero_tx";
  monero_tx_key = none;
  monero_restore_height = none;
  combined_view_key = some "view";
  maker_peer_id = none;
  maker_multiaddrs = none;
}

abbrev detail_of : (status : String) → (action : Option String) → SwapDetail
detail_of status action = record {
  status = status;
  action = action;
  swap_number = "1";
  deposit_address = some "address";
  deposit_tx_hash = none;
  amount_in = some "0.0005";
  has_verification = true;
  protocol_data = some (atomic_swap (some params));
}

abbrev tick_at : (now : ℕ) → SwapDetail → Tick
tick_at now detail = record {
  aborted = false;
  detail = ok detail;
  now = now;
  contract_verified = ok true;
  presigs =
      presigs_accepted
        (some (record empty_presigs_encsig { tx_full_refund_encsig = some "refund" }));
  existing_snapshot = none;
  snapshot_saved = true;
  fund_answer = λ n. none;
  funded_now = now;
  xmr_lock = ok (record { verified = true; retryable = false });
  lock_tx = err plain_error;
  encsig_answer = none;
  sweep = ok "sweep_tx";
  aborted_asleep = false;
}

abbrev funding : Tick
funding = tick_at 10 (detail_of "awaiting_funding" (some "fund"))

abbrev waiting : Tick
waiting = tick_at 20 (detail_of "deposited" (some "wait"))

abbrev releasing : Tick
releasing = tick_at 30 (detail_of "swapping" (some "submit_encsig"))

abbrev sweeping : Tick
sweeping = tick_at 40 (detail_of "sending" (some "sweep"))

abbrev ticks : List Tick
ticks = funding ∷ waiting ∷ releasing ∷ sweeping ∷ []

-- The run ends by itself, with the lock broadcast and the signature released; both rounds that do
-- this go on to the next one, also the first.
lifecycle :
    ((drive_from services 100 initial ticks).1 ≡ finished)
    × (any is_post_fund (drive_from services 100 initial ticks).0 ≡ true)
    × (any is_post_encsig (drive_from services 100 initial ticks).0 ≡ true)
    × (any is_commitment (round services 100 funding initial).0 ≡ true)
    × (goes_on (round services 100 funding initial).2 ≡ true)
unfolding drive_from round dispatch is_terminal is_pre_funding fund is_settling past_funding
    wants_funding has_pending rearm fund_address fund_linked fund_derived fund_built fund_answered
    fund_stored check_dleq check_contract check_lock_address build_lock submit_presigs check_encsig
    write_snapshot post_fund_from extract_protocol_data extract_params extract_xmr_verification
    submit_encsig with_params release_encsig check_xmr_lock local_digest check_digest send_encsig
    sweep build_protocol_snapshot
lifecycle = (refl, refl, refl, refl, refl)

drive_checks_dleq_example :
    guarded is_dleq_ok is_post_fund false (drive_from services 100 initial ticks).0 ≡ true
drive_checks_dleq_example = drive_checks_dleq services 100 ticks

drive_checks_xmr_example :
    guarded is_xmr_ok is_post_encsig false (drive_from services 100 initial ticks).0 ≡ true
drive_checks_xmr_example = drive_checks_xmr services 100 ticks

round_stores_example :
    guarded is_snapshot is_post_fund false (round services 100 funding initial).0 ≡ true
round_stores_example = round_stores services refl 100 funding initial

-- /presigs says that the swap is past it; and, behind a lock, the signature is refused.
abbrev past_presigs : Tick
past_presigs = record funding { presigs = presigs_refused "no pending PSBT" }

abbrev refusing : Tick
refusing = record releasing { encsig_answer = some "busy" }

refused_rounds :
    (any is_post_presigs (round services 100 past_presigs initial).0 ≡ true)
    × (goes_on (round services 100 past_presigs initial).2 ≡ true)
    × (means_past_presigs services "no pending PSBT" ≡ true)
    × (any is_post_encsig (round services 100 refusing (round services 100 funding initial).1).0
        ≡ true)
    × (goes_on (round services 100 refusing (round services 100 funding initial).1).2 ≡ true)
unfolding drive_from round dispatch is_terminal is_pre_funding fund is_settling past_funding
    wants_funding has_pending rearm fund_address fund_linked fund_derived fund_built fund_answered
    fund_stored check_dleq check_contract check_lock_address build_lock submit_presigs check_encsig
    write_snapshot post_fund_from extract_protocol_data extract_params extract_xmr_verification
    submit_encsig with_params release_encsig check_xmr_lock local_digest check_digest send_encsig
    sweep build_protocol_snapshot presigs_answered already_has_encsig means_past_presigs includes
refused_rounds = (refl, refl, refl, refl, refl)

presigs_refusals_bounded_example : 1 < 6
presigs_refusals_bounded_example =
    presigs_refusals_bounded services 100 1 (round services 100 past_presigs initial).1 (
      once_more 0 initial past_presigs (none_yet initial at_start) refused_rounds.0
        ("no pending PSBT", refl, refused_rounds.2) refused_rounds.1 refl)

encsig_refusals_bounded_example : 1 < 3
encsig_refusals_bounded_example =
    let s = (round services 100 funding initial).1 in
    encsig_refusals_bounded services 100 1 (round services 100 refusing s).1 (
      once_more 0 s refusing (none_yet s (after initial funding at_start lifecycle.4 refl))
        refused_rounds.3 ("busy", refl) refused_rounds.4 refl)

funded_runs_ignore_deadline_example :
    drive_from services 5 initial (waiting ∷ waiting ∷ [])
    ≡ drive_from services 1000 initial (waiting ∷ waiting ∷ [])
funded_runs_ignore_deadline_example =
    funded_runs_ignore_deadline services 5 1000 (waiting ∷ waiting ∷ []) initial
      (unfold is_pre_funding in (refl, (refl, tt)))

-- The server holds the refund signature and names the digest, and yet the pre-signatures are sent.
parsed_never_skips_example :
    (submit_presigs services funding
      (extract_protocol_data (parsed (detail_of "awaiting_funding" (some "fund"))))
      (record params { tx_full_refund_encsig = some "refund" })
      "address"
      (unsigned, "signed", "pre_sigs")
      initial).0
    ≡ post_presigs "psbt" "address" "pre_sigs" ∷ []
parsed_never_skips_example =
    parsed_never_skips services funding (detail_of "awaiting_funding" (some "fund"))
      (record params { tx_full_refund_encsig = some "refund" }) "address" unsigned "signed"
      "pre_sigs" initial

-- Another maker, whose proof does not verify, takes over after the first lock was broadcast.
abbrev strict : Services
strict = record services {
  derive_lock_address = λ a b. ok (if str_eq a "a" then "address" else "other_address");
  verify_dleq_proof = λ s_a_bitcoin s_a_monero proof. str_eq s_a_bitcoin "s_a_bitcoin";
}

abbrev replaced : Tick
replaced = tick_at 60 (record (detail_of "awaiting_funding" (some "fund")) {
  deposit_address = some "other_address";
  protocol_data = some (atomic_swap (some (record params { a = "x"; s_a_bitcoin = "y" })));
})

-- Alone the other maker's proof stops the run; behind the first maker its lock is broadcast.
second_maker_unchecked :
    (count_if is_post_fund (drive_from strict 100 initial (replaced ∷ [])).0 ≡ 0)
    × (count_if is_post_fund (drive_from strict 100 initial (funding ∷ replaced ∷ [])).0 ≡ 2)
unfolding drive_from round dispatch is_terminal is_pre_funding fund is_settling past_funding
    wants_funding has_pending rearm fund_address fund_linked fund_derived fund_built fund_answered
    fund_stored check_dleq check_contract check_lock_address build_lock submit_presigs check_encsig
    write_snapshot post_fund_from extract_protocol_data extract_params extract_xmr_verification
    submit_encsig with_params release_encsig check_xmr_lock local_digest check_digest send_encsig
    sweep build_protocol_snapshot
second_maker_unchecked = (refl, refl)
