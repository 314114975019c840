-- ===== src/Flow/Resume.antt =====
-- src/engine/flows/atomic-flow.ts: `resumeFromKeystore`, with a swap that the server knows (path A)
-- or with the keystore alone (path B).
use Prim.Native.String.{String}
use miradex_client.Prelude.{
  ℕ, suc, Bool, true, false, Option, none, some, List, [], str_eq, if◌then◌else◌,
}
use miradex_client.Errors.Codes.{Result, ok}
use miradex_client.Status.{is_terminal, is_pre_funding}
use miradex_client.Engine.{AtomicPhase}
use miradex_client.Refund.{Bitcoin, Signer}
use miradex_client.Flow.Context.{Verification, Patch, message, no_change}
use miradex_client.Flow.{Flow, set_flow_context, show_phase, truthy}
use miradex_client.Flow.Finish.{TerminalDetail, emit_terminal}
use miradex_client.Flow.Begin.{DriveWorld, Ran, drive_swap_to_completion}
use miradex_client.Flow.Start.{
  Keystore, attempt, check_aborted, populated_step, go_on, Fetch, fetch_detail_with_retry,
  max_transient_retries,
}

-- The detail of a swap, as far as path A reads it.
pub record ResumeDetail : Type 0 where
  pub status : String
  pub terminal : TerminalDetail
  pub dest_address : Option String
  pub refund_address : Option String
  pub amount_in : Option String
  pub expected_amount_out : Option String
  pub expected_amount_out_usd : Option String
  pub amount_in_usd : Option String
  pub expires_at : Option String
  pub deposit_address : Option String
  pub has_verification : Bool

pub record ResumeWorld : Type 0 where
  pub wasm : Result (Unit {0})
  pub keystore : Result Keystore
  pub existing_swap_id : Option String
  pub answers : List (Fetch ResumeDetail)
  pub utxo : Result (Option String)
  pub verified_deposit : Result Verification
  pub now : ℕ
  pub qr : Result String
  pub listed_amount : Result (Option String)
  pub quoted : Option String
  pub aborted_when_shown : Bool
  pub watched : Result String
  pub drive : DriveWorld

-- `a || b || null`
abbrev pub or_else : Option String → Option String → Option String
or_else none b = b
or_else (some a) b = some a

abbrev pub resume_patch : Keystore → Patch
resume_patch keystore = record no_change {
  from_token = some (some "BTC");
  to_token = some (some "XMR");
  keystore_id = some (some keystore.id);
  deposit_addr = some (some keystore.btc_address);
  dest_address = some (some keystore.receive_address);
  refund_address = some (some keystore.refund_address);
  provider = some (some "atomicswap");
  extra = some (some (record { text = "Loading keystore..."; kind = message }));
}

abbrev pub detail_patch : (swap_id : String) → Keystore → ResumeDetail → Patch
detail_patch swap_id keystore detail = record no_change {
  swap_id = some (some swap_id);
  swap_number = some detail.terminal.swap_number;
  dest_address =
      some (or_else (truthy (some keystore.receive_address)) (truthy detail.dest_address));
  refund_address =
      some (or_else (truthy (some keystore.refund_address)) (truthy detail.refund_address));
  deposit_amount = some (truthy detail.amount_in);
  expected_out = some (truthy detail.expected_amount_out);
  expected_out_usd = some detail.expected_amount_out_usd;
  amount_in_usd = some detail.amount_in_usd;
  expires_at = some (truthy detail.expires_at);
}

-- The server is past the verification gate, where there is nothing to verify.
abbrev pub trusted : (now : ℕ) → Verification
trusted now = record { verified = true; provider = "atomicswap"; checks = []; timestamp = now }

abbrev pub amount_of_flow : Flow → Option String
amount_of_flow flow = elim flow.ctx [ none ↦ none | some ctx ↦ ctx.deposit_amount ]

abbrev pub expected_of_flow : Flow → Option String
expected_of_flow flow = elim flow.ctx [ none ↦ none | some ctx ↦ ctx.expected_out ]

unfoldable pub utxo_for : (status : String) → Result (Option String) → Result (Option String)
utxo_for status utxo = if is_pre_funding status then utxo else ok none

unfoldable pub verification_for : ResumeWorld → ResumeDetail → Result Verification
verification_for w detail = elim (truthy detail.deposit_address) [
  | none ↦ ok (trusted w.now)
  | some address ↦ if detail.has_verification then w.verified_deposit else ok (trusted w.now)
]

-- `ksMeta?.amount ?? '0'`
abbrev pub or_zero : Option String → String
or_zero none = "0"
or_zero (some amount) = amount

module _ (b : Bitcoin) (signer : Signer) (w : ResumeWorld) where
  unfoldable pub resume_swap : (swap_id : String) → Keystore → ResumeDetail → Flow → Ran
  resume_swap swap_id keystore detail flow =
      let noted = set_flow_context (detail_patch swap_id keystore detail) flow in
      if is_terminal detail.status
      then record { flow = emit_terminal swap_id detail.status detail.terminal noted; acts = [] }
      else attempt b signer w.drive noted (utxo_for detail.status w.utxo) (λ deposit f.
        attempt b signer w.drive f (verification_for w detail) (λ verification g.
          attempt b signer w.drive g w.qr (λ qr h. drive_swap_to_completion b signer w.drive (
            show_phase AtomicPhase.creating_swap none (
              set_flow_context
                (record no_change {
                  qr = some (some qr);
                  verification = some (some verification);
                  deposit_amount = some (or_else deposit (amount_of_flow h));
                  extra = some (some (record { text = "Resuming swap ("; kind = message }));
                })
                h)))))

  -- What `fetchDetailWithRetry` came to. Where the answers ended first, the flow waits.
  unfoldable pub resume_fetched :
      (swap_id : String) → Keystore → Flow × Option (Result ResumeDetail) → Ran
  resume_fetched swap_id keystore (flow, none) = record { flow = flow; acts = [] }
  resume_fetched swap_id keystore (flow, some answer) =
      attempt b signer w.drive flow answer (resume_swap swap_id keystore)

  abbrev pub expected_quote : (expected quoted : Option String) → (amount : String) → Option String
  expected_quote expected quoted amount = elim (truthy expected) [
    | some text ↦ some text
    | none ↦ if str_eq amount "0" then expected else quoted
  ]

  -- Path B with a deposit: on to the driver.
  unfoldable pub resume_deposit : (amount qr : String) → Flow → Ran
  resume_deposit amount qr flow =
      populated_step b signer AtomicPhase.deposit_detected
        (set_flow_context
          (record no_change {
            qr = some (some qr);
            expected_out = some (expected_quote (expected_of_flow flow) w.quoted amount);
            deposit_amount = some (some amount);
            extra =
                some (some (record { text = "Deposit found. Creating swap..."; kind = message }));
          })
          flow)
        (drive_swap_to_completion b signer w.drive)

  -- Path B without one: the address is shown, and the deposit is waited for.
  unfoldable pub resume_waiting : (amount qr : String) → Flow → Ran
  resume_waiting amount qr flow =
      populated_step b signer AtomicPhase.awaiting_deposit
        (set_flow_context
          (record no_change {
            qr = some (some qr);
            expected_out = some (expected_quote (expected_of_flow flow) w.quoted amount);
            deposit_amount = some (if str_eq amount "0" then none else some amount);
            extra = some (
                some (record {
                  text = "Send BTC to the address above to begin the swap.";
                  kind = message;
                }));
          })
          flow)
        (λ shown. attempt b signer w.drive shown (check_aborted w.aborted_when_shown) (λ checked f.
          attempt b signer w.drive f w.watched (λ deposited g.
            go_on b signer w.drive
              (set_flow_context (record no_change { deposit_amount = some (some deposited) }) g))))

  unfoldable pub resume_keystore : Option String → Flow → Ran
  resume_keystore (some amount) flow =
      attempt b signer w.drive flow w.qr (λ qr. resume_deposit amount qr)
  resume_keystore none flow =
      attempt b signer w.drive flow w.listed_amount
        (λ listed f. attempt b signer w.drive f w.qr (λ qr. resume_waiting (or_zero listed) qr))

  unfoldable pub resume_with : Keystore → (existing_swap_id : Option String) → Flow → Ran
  resume_with keystore none flow = attempt b signer w.drive flow w.utxo resume_keystore
  resume_with keystore (some swap_id) flow =
      resume_fetched swap_id keystore
        (fetch_detail_with_retry (suc max_transient_retries) w.answers flow)

  unfoldable pub resume_from_keystore : Flow → Ran
  resume_from_keystore flow =
      attempt b signer w.drive (record flow { has_reached_terminal = false }) w.wasm
        (λ done f. attempt b signer w.drive f w.keystore (λ keystore g.
          resume_with keystore (truthy w.existing_swap_id) (
            show_phase AtomicPhase.creating_swap none
              (set_flow_context (resume_patch keystore) g))))
