-- ===== src/Refund/Samples.antt =====
-- A sample lock for the tests of refunds and flows. The texts stand for the hexadecimal forms and
-- the identifiers that they name.
use Prim.Native.String.{String}
use miradex_client.Prelude.{true, List, [], ◌∷◌, ◌++◌, str_eq, if◌then◌else◌, some}
use miradex_client.Errors.Codes.{Result, ok, err, plain_error}
use miradex_client.Refund.Der.{Bytes, zeros}
use miradex_client.Refund.Cancel.{Entry}
use miradex_client.Prelude.{pos}
use miradex_client.Refund.{Bitcoin, Signer, RefundKeys, Tx, AssembledRefund}

-- An `r` of one byte that needs a prefix, and an `s` of one byte.
abbrev pub signature : Bytes
signature = zeros 31 ++ 200 ∷ zeros 31 ++ 7 ∷ []

abbrev pub script : Bytes
script = 1 ∷ 2 ∷ 3 ∷ []

abbrev pub tx_cancel : Tx
tx_cancel = record {
  version = 2;
  locktime = 0;
  ins = record { hash = 9 ∷ []; index = 0; sequence = 72; witness = [] ∷ script ∷ [] } ∷ [];
  outs = record { script = 5 ∷ []; value = 900000 } ∷ [];
}

abbrev pub tx_refund : Tx
tx_refund = record {
  version = 2;
  locktime = 0;
  ins = record { hash = 8 ∷ []; index = 0; sequence = 0xffffffff; witness = [] } ∷ [];
  outs = record { script = 4 ∷ []; value = 899000 } ∷ [];
}

-- A transaction that pays to the lock, and does not spend from it.
abbrev pub stranger_tx : Tx
stranger_tx = record { version = 2; locktime = 0; ins = []; outs = [] }

abbrev pub decode : String → Result Tx
decode hex =
    if str_eq hex "cancel"
    then ok tx_cancel
    else if str_eq hex "refund"
    then ok tx_refund
    else if str_eq hex "stranger"
    then ok stranger_tx
    else err plain_error

abbrev pub chain : Bitcoin
chain = record {
  from_hex = decode;
  to_hex = λ tx. "refund";
  get_id = λ tx. "txid";
  hex_bytes = λ hex. 7 ∷ 8 ∷ [];
  to_output_script = λ address. ok (6 ∷ []);
  multisig_script = λ a_pub b_pub. script;
  p2wsh_output = λ witness_script. ok (some (6 ∷ []));
}

abbrev pub signer : Signer
signer = record {
  hash_for_witness = λ tx witness_script value. ok (3 ∷ []);
  verify_encsig = λ a_pub s_b_pub digest encsig. ok true;
  decrypt_signature = λ s_b encsig. ok signature;
  sign_digest = λ key digest. ok signature;
  ecc_verify = λ digest pub_key compact. ok true;
}

abbrev pub keys : RefundKeys
keys = record {
  s_b_le = 1 ∷ 2 ∷ [];
  b_key = 3 ∷ [];
  a_pub = 4 ∷ [];
  b_pub = 5 ∷ [];
  s_b_pub = 6 ∷ [];
}

abbrev pub assembled : AssembledRefund
assembled = record { txid = "txid"; hex = "refund"; digest = 3 ∷ [] }

abbrev pub history : List Entry
history =
    record { tx_hash = "lock"; height = pos 10 }
    ∷ record { tx_hash = "cancel"; height = pos 90 }
    ∷ []

-- The texts stand for both the identifier and the hexadecimal form.
abbrev pub fetched : String → Result String
fetched txid = ok txid
