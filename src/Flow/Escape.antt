-- ===== src/Flow/Escape.antt =====
-- src/engine/flows/atomic-flow.ts: what goes out in a refund.
use Prim.Native.String.{String}
use miradex_client.Prelude.{ℕ, ◌≡◌, refl, ◌<◌, true, List, []}
use miradex_client.Errors.Codes.{ok}
use miradex_client.Presign.Chains.{bound, returned}
use miradex_client.Refund.{Bitcoin, Signer, RefundKeys, AssembledRefund, build_partial_refund}
use miradex_client.Refund.Cancel.{Entry}
use miradex_client.Prelude.{ℤ}
use miradex_client.Refund.Discovery.{IsConfirmed}
use miradex_client.Refund.Signing.{IsSigned}
use miradex_client.Refund.Building.{build_partial_refund-IsPartialRefund}
use miradex_client.Flow.{Flow}
use miradex_client.Flow.Refunding.{
  RefundTerms, Unsigned, Act, saves, broadcasts, notifies, RefundWorld, null, value, build_refund,
  use_amnesty, has_refund_escape_hatch,
}
use miradex_client.Flow.Resolved.{IsResolved}

-- A refund that is broadcast: the parameters have the signatures for it, TxCancel was found on the
-- chain, the refund was built from it and signed.
pub record IsRightful (b : Bitcoin) (signer : Signer) (w : RefundWorld) (hex : String)
    : Type 0 where
  pub keys : RefundKeys
  pub terms : RefundTerms
  pub history : List Entry
  pub lock_address : String
  pub cancel_hex : String
  pub cancel_txid : String
  pub height : ℤ
  pub unsigned : Unsigned
  pub assembled : AssembledRefund
  pub resolved : IsResolved w keys terms lock_address
  pub escape : has_refund_escape_hatch terms ≡ true
  pub listed : w.history ≡ ok history
  pub confirmed : IsConfirmed b history w.fetched lock_address cancel_hex cancel_txid height
  pub built : build_refund b keys terms cancel_hex w.refund_address ≡ ok unsigned
  pub signed :
      IsSigned b signer keys unsigned.tx_refund_hex
        (b.multisig_script keys.a_pub keys.b_pub)
        unsigned.cancel_sats
        unsigned.encsig
        assembled
  pub its_hex : assembled.hex ≡ hex

module _ (b : Bitcoin) (signer : Signer) (w : RefundWorld) where
  abbrev pub Rightful : Act → Type 0
  Rightful (saves terms) = Unit
  Rightful (broadcasts hex) = IsRightful b signer w hex
  Rightful (notifies txid) = Unit

-- Where the signature for a partial refund is null, and an amnesty and its fee are there, a refund
-- is built in part all the same: it comes without a signature, whatever the signature for a full
-- refund is, and if the amnesty is at most 330 satoshis it is not built at all.
pub null_signature_is_used :
    (b : Bitcoin) (keys : RefundKeys) (terms : RefundTerms) (tx_cancel_hex refund_address : String)
    (amnesty fee : ℕ) (unsigned : Unsigned)
    → terms.tx_partial_refund_encsig ≡ null
    → terms.amnesty_amount_sats ≡ value amnesty
    → terms.tx_partial_refund_fee_sats ≡ value fee
    → build_refund b keys terms tx_cancel_hex refund_address ≡ ok unsigned
    → (unsigned.encsig ≡ []) × (330 < amnesty)
unfolding build_refund use_amnesty
null_signature_is_used b keys terms hex address amnesty fee unsigned no_sig is_amnesty is_fee e =
    let at_built =
      bound (build_partial_refund b hex address terms.a_pub keys.b_pub amnesty fee) _
        (rw (no_sig, is_amnesty, is_fee) at e) in
    (
      returned (λ u. u.encsig ≡ []) at_built.2 refl,
      (build_partial_refund-IsPartialRefund b hex address terms.a_pub keys.b_pub amnesty fee
          at_built.0 at_built.1).amnesty_dust,
    )
