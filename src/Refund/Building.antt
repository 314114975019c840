-- ===== src/Refund/Building.antt =====
-- src/atomic-swap/refund.ts: what the unsigned refunds pay.
use Prim.Native.String.{String}
use mathlib.Core.List.{reverse}
use miradex_client.Presign.{sequence_final}
use miradex_client.Prelude.{
  ℕ, ◌+◌, ◌-◌, Option, ◌≡◌, refl, ap, ◌∙◌, ◌<◌, none, some, [], ◌∷◌, arith,
}
use miradex_client.Errors.Codes.{Failure, ok, err}
use miradex_client.Presign.Chains.{bound, passed, returned}
use miradex_client.Presign.{p2wpkh_floor, p2wsh_floor}
use miradex_client.Refund.Der.{Bytes}
use miradex_client.Refund.{
  Bitcoin, Tx, TxOut, BuiltRefund, BuiltPartialRefund, first, cancel_value, amnesty_output,
  require_above, build_full_refund, build_partial_refund,
}

-- TxCancel, as it is decoded, has a first output of this value.
pub record Spends (b : Bitcoin) (tx_cancel_hex : String) (cancel_sats : ℕ) (tx_cancel : Tx)
    : Type 0 where
  pub decoded : b.from_hex tx_cancel_hex ≡ ok tx_cancel
  pub cancel_out : TxOut
  pub is_first : first tx_cancel.outs ≡ some cancel_out
  pub its_value : cancel_out.value ≡ cancel_sats

-- The refund spends TxCancel, pays Bob's address all of its output but the fee, and is no dust.
pub record IsFullRefund (b : Bitcoin) (tx_cancel_hex refund_address : String) (fee : ℕ)
    (built : BuiltRefund) : Type 0 where
  pub tx_cancel : Tx
  pub script : Bytes
  pub spends : Spends b tx_cancel_hex built.cancel_output_sats tx_cancel
  pub balance : built.cancel_output_sats ≡ built.refund_output_sats + fee
  pub dust : p2wpkh_floor < built.refund_output_sats
  pub pays_bob : b.to_output_script refund_address ≡ ok script
  pub is_hex :
      built.tx_refund_hex
      ≡ b.to_hex (record {
        version = 2;
        locktime = 0;
        ins =
            record {
              hash = reverse (b.hex_bytes (b.get_id tx_cancel));
              index = 0;
              sequence = sequence_final;
              witness = [];
            }
            ∷ [];
        outs = record { script = script; value = built.refund_output_sats } ∷ [];
      })

cancel_value-Spends :
    (b : Bitcoin) (hex : String) (tx_cancel : Tx) (sats : ℕ) (o : Option TxOut)
    → b.from_hex hex ≡ ok tx_cancel
    → first tx_cancel.outs ≡ o
    → cancel_value tx_cancel ≡ ok sats
    → Spends b hex sats tx_cancel
unfolding cancel_value
cancel_value-Spends b hex tx_cancel sats none d h e = ground arith
cancel_value-Spends b hex tx_cancel sats (some out) d h e = record {
  decoded = d;
  cancel_out = out;
  is_first = h;
  its_value = ground arith;
}

above_floor :
    (sats floor : ℕ) (failure : Failure)
    → require_above sats floor (err failure) ≡ ok tt
    → floor < sats
unfolding require_above
above_floor sats floor failure e = ground arith

-- A refund that is built in full spends TxCancel's first output, pays Bob's address all of it but
-- the fee, and is above the dust floor (see `IsFullRefund`).
pub build_full_refund-IsFullRefund :
    (b : Bitcoin) (tx_cancel_hex refund_address : String) (fee : ℕ) (built : BuiltRefund)
    → build_full_refund b tx_cancel_hex refund_address fee ≡ ok built
    → IsFullRefund b tx_cancel_hex refund_address fee built
unfolding build_full_refund
build_full_refund-IsFullRefund b hex address fee built e =
    let at_tx = bound (b.from_hex hex) _ e in
    let at_value = bound (cancel_value at_tx.0) _ at_tx.2 in
    let at_dust = passed (require_above (at_value.0 - fee) p2wpkh_floor _) _ at_value.2 in
    let at_script = bound (b.to_output_script address) _ at_dust.1 in
    let above = above_floor (at_value.0 - fee) p2wpkh_floor _ at_dust.0 in
    returned (IsFullRefund b hex address fee) at_script.2 (record {
      tx_cancel = at_tx.0;
      script = at_script.0;
      spends = cancel_value-Spends b hex at_tx.0 _ _ at_tx.1 refl at_value.1;
      balance = omega (arith, above);
      dust = above;
      pays_bob = at_script.1;
      is_hex = refl;
    })

-- The partial refund splits TxCancel's output into refund, amnesty and fee; neither output is dust,
-- and the amnesty goes to the script of both keys.
pub record IsPartialRefund (b : Bitcoin) (tx_cancel_hex refund_address : String)
    (a_pub b_pub : Bytes) (amnesty fee : ℕ) (built : BuiltPartialRefund) : Type 0 where
  pub tx_cancel : Tx
  pub script : Bytes
  pub amnesty_script : Bytes
  pub spends : Spends b tx_cancel_hex built.cancel_output_sats tx_cancel
  pub balance : built.cancel_output_sats ≡ built.refund_output_sats + amnesty + fee
  pub dust : p2wpkh_floor < built.refund_output_sats
  pub amnesty_dust : p2wsh_floor < amnesty
  pub pays_bob : b.to_output_script refund_address ≡ ok script
  pub pays_both : b.p2wsh_output (b.multisig_script a_pub b_pub) ≡ ok (some amnesty_script)
  pub is_hex :
      built.tx_refund_hex
      ≡ b.to_hex (record {
        version = 2;
        locktime = 0;
        ins =
            record {
              hash = reverse (b.hex_bytes (b.get_id tx_cancel));
              index = 0;
              sequence = sequence_final;
              witness = [];
            }
            ∷ [];
        outs =
            record { script = script; value = built.refund_output_sats }
            ∷ record { script = amnesty_script; value = amnesty }
            ∷ [];
      })

amnesty_output-some :
    (o : Option Bytes) (output : Bytes) → amnesty_output o ≡ ok output → o ≡ some output
unfolding amnesty_output
amnesty_output-some none output e = ground arith
amnesty_output-some (some script) output e = ground arith

-- A refund that is built in part spends TxCancel's first output, pays Bob's address all of it but
-- the amnesty and the fee, pays the amnesty to the script of both keys, and both outputs are above
-- their dust floors (see `IsPartialRefund`).
pub build_partial_refund-IsPartialRefund :
    (b : Bitcoin) (tx_cancel_hex refund_address : String) (a_pub b_pub : Bytes) (amnesty fee : ℕ)
    (built : BuiltPartialRefund)
    → build_partial_refund b tx_cancel_hex refund_address a_pub b_pub amnesty fee ≡ ok built
    → IsPartialRefund b tx_cancel_hex refund_address a_pub b_pub amnesty fee built
unfolding build_partial_refund
build_partial_refund-IsPartialRefund b hex address a_pub b_pub amnesty fee built e =
    let at_tx = bound (b.from_hex hex) _ e in
    let at_value = bound (cancel_value at_tx.0) _ at_tx.2 in
    let at_dust = passed (require_above (at_value.0 - amnesty - fee) p2wpkh_floor _) _ at_value.2 in
    let at_amnesty = passed (require_above amnesty p2wsh_floor _) _ at_dust.1 in
    let at_output = bound (b.p2wsh_output (b.multisig_script a_pub b_pub)) _ at_amnesty.1 in
    let at_both = bound (amnesty_output at_output.0) _ at_output.2 in
    let at_script = bound (b.to_output_script address) _ at_both.2 in
    let above = above_floor (at_value.0 - amnesty - fee) p2wpkh_floor _ at_dust.0 in
    returned (IsPartialRefund b hex address a_pub b_pub amnesty fee) at_script.2 (record {
      tx_cancel = at_tx.0;
      script = at_script.0;
      amnesty_script = at_both.0;
      spends = cancel_value-Spends b hex at_tx.0 _ _ at_tx.1 refl at_value.1;
      balance = omega (arith, above);
      dust = above;
      amnesty_dust = above_floor amnesty p2wsh_floor _ at_amnesty.0;
      pays_bob = at_script.1;
      pays_both = at_output.1 ∙ ap ok (amnesty_output-some _ _ at_both.1);
      is_hex = refl;
    })
