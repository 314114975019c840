-- ===== src/Flow/Refunding.antt =====
-- src/engine/flows/atomic-flow.ts: `executeRefund`, the refund that is built, signed and broadcast
-- by the client, with the choice of the parameters behind it. Acts are what goes out.
use Prim.Native.String.{String}
use miradex_client.Prelude.{
  ℕ, Bool, true, false, not, ◌&&◌, ◌||◌, Option, none, some, List, [], ◌∷◌, ◌++◌, str_eq, any,
  if◌then◌else◌,
}
use miradex_client.Errors.Codes.{Result, ok, err, Failure}
use miradex_client.Errors.Text.{codes, lower, includes_codes}
use miradex_client.Engine.{AtomicPhase}
use miradex_client.Presign.{◌>>=◌}
use miradex_client.Refund.Der.{Bytes}
use miradex_client.Refund.{
  Bitcoin, Signer, RefundKeys, AssembledRefund, build_full_refund, build_partial_refund,
  sign_refund,
}
use miradex_client.Refund.Cancel.{
  Entry, TxCancelVerification, refused, verified, discover_and_verify_tx_cancel,
}
use miradex_client.Flow.Context.{message, error}
use miradex_client.Flow.{Flow, set_flow_context, transition, emit_error, show_phase, say}

-- A field that is `undefined`, `null`, or there.
pub data Field {ℓ} (A : Type ℓ) : Type ℓ where
  undefined null : Field A
  value : A → Field A

-- The fields of `ProtocolParams` that a refund reads.
pub record RefundTerms : Type 0 where
  pub a_pub : Bytes
  pub tx_refund_fee_sats : ℕ
  pub tx_full_refund_encsig : Field Bytes
  pub tx_partial_refund_encsig : Field Bytes
  pub amnesty_amount_sats : Field ℕ
  pub tx_partial_refund_fee_sats : Field ℕ

-- A text is true where it is there and not empty.
abbrev pub is_truthy : Field Bytes → Bool
is_truthy undefined = false
is_truthy null = false
is_truthy (value []) = false
is_truthy (value (b ∷ bytes)) = true

abbrev pub is_value {ℓ} : {A : Type ℓ} → Field A → Bool
is_value undefined = false
is_value null = false
is_value (value a) = true

abbrev pub is_defined {ℓ} : {A : Type ℓ} → Field A → Bool
is_defined undefined = false
is_defined null = true
is_defined (value a) = true

-- `field ?? default`
abbrev pub or_default {ℓ} : {A : Type ℓ} → Field A → A → A
or_default undefined d = d
or_default null d = d
or_default (value a) d = a

unfoldable pub has_refund_escape_hatch : RefundTerms → Bool
has_refund_escape_hatch terms =
    is_truthy terms.tx_full_refund_encsig
    || (is_truthy terms.tx_partial_refund_encsig
        && (is_value terms.amnesty_amount_sats && is_value terms.tx_partial_refund_fee_sats))

unfoldable pub use_amnesty : RefundTerms → Bool
use_amnesty terms =
    is_defined terms.tx_partial_refund_encsig
    && (is_defined terms.amnesty_amount_sats && is_defined terms.tx_partial_refund_fee_sats)

-- The cache's answer, where there is one: what it holds, or an exception.
abbrev pub from_cache : (cached : Option (Result (Option RefundTerms))) → Option RefundTerms
from_cache none = none
from_cache (some (err e)) = none
from_cache (some (ok none)) = none
from_cache (some (ok (some terms))) = if has_refund_escape_hatch terms then some terms else none

abbrev pub or_server : Option RefundTerms → Option RefundTerms → Option RefundTerms
or_server none from_server = from_server
or_server (some cached) from_server = some cached

unfoldable pub resolve_protocol_params :
    (from_server : Option RefundTerms) (cached : Option (Result (Option RefundTerms)))
    → Option RefundTerms
unfolding has_refund_escape_hatch
resolve_protocol_params none cached = from_cache cached
resolve_protocol_params (some terms) cached =
    if has_refund_escape_hatch terms then some terms else or_server (from_cache cached) (some terms)

-- What `executeRefund` reads of the swap's detail; `lock_address` is the text of that name in its
-- verification.
pub record RefundDetail : Type 0 where
  pub deposit_address : Option String
  pub lock_address : Option String
  pub deposit_tx_hash : Option String
  pub params : Option RefundTerms

abbrev pub text_or_empty : Option String → String
text_or_empty none = ""
text_or_empty (some text) = text

unfoldable pub resolve_lock_address : RefundDetail → String
resolve_lock_address detail =
    if str_eq (text_or_empty detail.deposit_address) ""
    then text_or_empty detail.lock_address
    else text_or_empty detail.deposit_address

-- An unsigned refund, the value that it spends, and Alice's encrypted signature for it.
pub record Unsigned : Type 0 where
  pub tx_refund_hex : String
  pub cancel_sats : ℕ
  pub encsig : Bytes

unfoldable pub build_refund :
    (b : Bitcoin) (keys : RefundKeys) (terms : RefundTerms) (tx_cancel_hex refund_address : String)
    → Result Unsigned
build_refund b keys terms tx_cancel_hex refund_address =
    if use_amnesty terms
    then (do
      built ←
          build_partial_refund b tx_cancel_hex refund_address terms.a_pub keys.b_pub
            (or_default terms.amnesty_amount_sats 0) (or_default terms.tx_partial_refund_fee_sats 0)
      ok (record {
        tx_refund_hex = built.tx_refund_hex;
        cancel_sats = built.cancel_output_sats;
        encsig = or_default terms.tx_partial_refund_encsig [];
      }))
    else (do
      built ← build_full_refund b tx_cancel_hex refund_address terms.tx_refund_fee_sats
      ok (record {
        tx_refund_hex = built.tx_refund_hex;
        cancel_sats = built.cancel_output_sats;
        encsig = or_default terms.tx_full_refund_encsig [];
      }))

-- What `broadcastTransaction` comes to: an identifier, or the message of an exception.
pub data Relay : Type 0 where
  relayed not_relayed : String → Relay

pub data Act : Type 0 where
  saves : RefundTerms → Act
  broadcasts : (hex : String) → Act
  notifies : (refund_txid : String) → Act

-- The flow behind a refund, what went out, and the exception that left it, if one did.
pub record Refunded : Type 0 where
  pub flow : Flow
  pub acts : List Act
  pub thrown : Option Failure

-- `/already in mempool|already exists|already known/i`
abbrev pub is_known : String → Bool
is_known text =
    any (λ words. includes_codes (codes words) (lower (codes text)))
      ("already in mempool" ∷ "already exists" ∷ "already known" ∷ [])

abbrev pub stop : String → Flow → List Act → Refunded
stop text flow acts = record {
  flow = show_phase AtomicPhase.failed none (say error text flow);
  acts = acts;
  thrown = none;
}

abbrev pub throw : Failure → Flow → List Act → Refunded
throw failure flow acts = record { flow = flow; acts = acts; thrown = some failure }

-- The server is told, and the refund is shown.
abbrev pub notified : (refund_txid : String) → Flow → List Act → Refunded
notified refund_txid flow acts = record {
  flow = show_phase AtomicPhase.refunded (some refund_txid) flow;
  acts = acts ++ notifies refund_txid ∷ [];
  thrown = none;
}

unfoldable pub refund_relayed : Relay → AssembledRefund → Flow → List Act → Refunded
unfolding set_flow_context transition
refund_relayed (relayed txid) assembled flow acts = notified txid flow acts
refund_relayed (not_relayed text) assembled flow acts =
    if is_known text
    then notified assembled.txid flow acts
    else stop "Refund broadcast failed: " flow acts

-- The world that a refund meets. `keys` has the keystore's keys; Alice's key is the parameters'.
pub record RefundWorld : Type 0 where
  pub keys : Option RefundKeys
  pub refund_address : String
  pub detail : Option RefundDetail
  pub has_save : Bool
  pub cached : Option (Result (Option RefundTerms))
  pub provider : Result (Unit {0})
  pub history : Result (List Entry)
  pub scanned : String → Result String
  pub fetched : String → Result String
  pub wasm : Result (Unit {0})
  pub broadcast : String → Relay

-- `cacheProtocolParams`, for parameters of the server that a refund can be built from.
abbrev pub caches : (has_save : Bool) → Option RefundTerms → List Act
caches has_save none = []
caches has_save (some terms) =
    if has_save && has_refund_escape_hatch terms then saves terms ∷ [] else []

module _ (b : Bitcoin) (signer : Signer) (w : RefundWorld) where
  -- From the signed transaction on.
  unfoldable pub refund_signed : Result AssembledRefund → Flow → List Act → Refunded
  unfolding set_flow_context transition refund_relayed
  refund_signed (err failure) flow acts = stop "Refund failed: " flow acts
  refund_signed (ok assembled) flow acts =
      refund_relayed (w.broadcast assembled.hex) assembled flow
        (acts ++ broadcasts assembled.hex ∷ [])

  -- From the unsigned transaction on.
  unfoldable pub refund_built : RefundKeys → Result Unsigned → Flow → List Act → Refunded
  unfolding refund_signed
  refund_built keys (err failure) flow acts = throw failure flow acts
  refund_built keys (ok unsigned) flow acts =
      refund_signed
        (sign_refund b signer keys unsigned.tx_refund_hex (b.multisig_script keys.a_pub keys.b_pub)
          unsigned.cancel_sats unsigned.encsig)
        flow acts

  -- From the check of TxCancel on.
  unfoldable pub refund_checked :
      RefundKeys → RefundTerms → Result TxCancelVerification → Flow → List Act → Refunded
  unfolding set_flow_context transition refund_built
  refund_checked keys terms (err failure) flow acts = throw failure flow acts
  refund_checked keys terms (ok (refused reason)) flow acts = stop "REFUSED: " flow acts
  refund_checked keys terms (ok (verified tx_cancel_hex txid height)) flow acts =
      let shown =
        show_phase AtomicPhase.refunding none
          (say message "TxCancel confirmed. Signing refund locally..." flow) in
      if str_eq tx_cancel_hex ""
      then stop "REFUSED: " flow acts
      else refund_built keys
          (w.wasm >>= (λ done. build_refund b keys terms tx_cancel_hex w.refund_address)) shown acts

  -- The provider that is set up, and its search.
  abbrev pub find_tx_cancel : (lock_address deposit_txid : String) → Result TxCancelVerification
  find_tx_cancel lock_address deposit_txid = do
    done ← w.provider
    discover_and_verify_tx_cancel b w.history w.scanned w.fetched lock_address deposit_txid

  -- From the parameters on.
  unfoldable pub refund_agreed :
      RefundKeys
      → (lock_address deposit_txid : String) → Option RefundTerms
      → Flow
      → List Act
      → Refunded
  unfolding set_flow_context transition refund_checked
  refund_agreed keys lock_address deposit_txid none flow acts = stop "REFUSED: " flow acts
  refund_agreed keys lock_address deposit_txid (some terms) flow acts =
      let shown =
        show_phase AtomicPhase.verifying_cancel none
          (say message "Verifying TxCancel on-chain..." flow) in
      if not (has_refund_escape_hatch terms)
      then stop "REFUSED: " flow acts
      else refund_checked (record keys { a_pub = terms.a_pub }) terms
          (find_tx_cancel lock_address deposit_txid) shown acts

  unfoldable pub execute_refund_with : Option RefundKeys → Option RefundDetail → Flow → Refunded
  unfolding set_flow_context transition emit_error refund_agreed
  execute_refund_with none detail flow = record { flow = emit_error flow; acts = []; thrown = none }
  execute_refund_with (some keys) none flow = record {
    flow = emit_error flow;
    acts = [];
    thrown = none;
  }
  execute_refund_with (some keys) (some detail) flow =
      if str_eq (resolve_lock_address detail) ""
      then stop "Cannot determine lock address — unable to verify TxCancel" flow []
      else refund_agreed keys (resolve_lock_address detail) (text_or_empty detail.deposit_tx_hash)
          (resolve_protocol_params detail.params w.cached) flow (caches w.has_save detail.params)

  unfoldable pub execute_refund : Flow → Refunded
  unfolding execute_refund_with
  execute_refund flow = execute_refund_with w.keys w.detail flow
