-- ===== src/Monero/Tests.antt =====
-- Tests and witnesses for the Monero part, over a curve that is the numbers.
use miradex_client.Prelude.{
  pos, negsuc, ℕ, ◌*◌, ◌+◌, ◌≡◌, ◌↔◌, refl, true, false, Option, none, some, [], ◌∷◌, Any, arith,
}
use miradex_client.Errors.Codes.{Result, ok, err, plain_error}
use miradex_client.Refund.Der.{zeros}
use miradex_client.Monero.Scalars.{Text, hex_to_scalar, encode_varint, nat_to_bytes}
use miradex_client.Monero.{
  TxOutput, MoneroTxJson, FetchedTransaction, Node, read_entry, request, fetch_transaction, attempt,
  canonical_tx_key, same_key, median_confirmations, pick_agreeing_transaction,
  fetch_transaction_quorum,
}
use miradex_client.Quorum.{sort, median}
use miradex_client.Monero.Scanner.{
  Decrypt, Curve, output_key, derive_scalar_bytes, derive_scalar, amount_key, decrypt_amount,
  one_time_key, secret_of, ScannedOutput,
}
use miradex_client.Monero.Lock.{
  VerifyXmrLockParams, locked, fetch_lock, secret_by_tx_key, secret_by_view_key, decide,
  check_fetched, verify_xmr_locked,
}
use miradex_client.Monero.Locked.{IsLocked, verify_xmr_locked-IsLocked}
use miradex_client.Presign.{◌>>=◌}
use miradex_client.Monero.Agreement.{has_key, IsHonestAnswer, fetch_transaction_quorum_honest}
use miradex_client.Monero.Sweep.{
  RingMember, is_at_least, whole, SweepConstructionData, big_int, check_values, refuse_sweep,
  verify_sweep_tx,
}
use miradex_client.Monero.Sweeping.{IsSweepable, sweep_passed, verify_sweep_tx_iff}

abbrev first_point : Text → Result ℕ
first_point [] = err plain_error
first_point (n ∷ rest) = ok n

abbrev curve : Curve ℕ
curve = record {
  base = 1;
  multiply = λ p n. ok (p * n);
  add = λ p q. p + q;
  clear_cofactor = λ p. 8 * p;
  to_bytes = λ p. p ∷ zeros 31;
  from_hex = first_point;
  keccak_256 = λ bytes. 3 ∷ [];
  bytes_to_hex = λ bytes. bytes;
  hex_to_bytes = λ text. ok text;
}

abbrev output_to : ℕ → TxOutput
output_to n = record {
  amount = 0;
  tagged_key = some (record { key = n ∷ zeros 31; view_tag = [] });
  key = none;
  unlock_time = none;
}

abbrev lock_tx : MoneroTxJson
lock_tx = record {
  extra = 1 ∷ 5 ∷ zeros 31;
  unlock_time = some 0;
  vout = output_to 7 ∷ output_to 12 ∷ [];
  rct_signatures = record { rct_type = 6; ecdh_info = (1 ∷ []) ∷ (8 ∷ []) ∷ []; out_pk = [] };
}

abbrev node_with : Option ℕ → Node
node_with confirmations = record {
  response = ok (record {
    is_success = true;
    body = ok (record {
      status_ok = true;
      txs = some (
          record {
            as_json = ok lock_tx;
            block_height = 900;
            confirmations = confirmations;
            in_pool = false;
            tx_hash = [];
            output_indices = none;
          }
          ∷ []);
    });
  });
  times_out = false;
}

abbrev node_at : ℕ → Node
node_at n = node_with (some n)

abbrev down : Node
down = record { response = err plain_error; times_out = false }

abbrev fetched_at : ℕ → FetchedTransaction
fetched_at confirmations = record {
  tx_json = lock_tx;
  block_height = 900;
  confirmations = some confirmations;
  in_pool = false;
  output_indices = [];
  tx_hash = [];
}

-- The view key is "0200", which is the scalar 2.
abbrev lock_params : Option Text → VerifyXmrLockParams
lock_params tx_key = record {
  view_key = 48 ∷ 50 ∷ 48 ∷ 48 ∷ [];
  spend_pub = 9 ∷ [];
  expected_amount = 10;
  min_confirmations = none;
  monerod = none;
  monerod_nodes = some (node_at 11 ∷ down ∷ node_at 12 ∷ []);
  monerod_quorum = none;
  tx_key = tx_key;
}

varint_300 : encode_varint 300 ≡ 172 ∷ 2 ∷ []
unfolding encode_varint
varint_300 = refl

-- "0a0B" and "0g", of which the second stops at its first digit.
hex_read : hex_to_scalar (48 ∷ 97 ∷ 48 ∷ 66 ∷ []) ≡ ok 2826
unfolding hex_to_scalar
hex_read = refl

hex_lenient : hex_to_scalar (49 ∷ 103 ∷ []) ≡ ok 1
unfolding hex_to_scalar
hex_lenient = refl

big_int_read : big_int (32 ∷ 45 ∷ 49 ∷ 50 ∷ 10 ∷ []) ≡ big_int (45 ∷ 49 ∷ 50 ∷ [])
unfolding big_int
big_int_read = refl

verify_xmr_locked-IsLocked_example :
    (fetched : FetchedTransaction) × (fetch_lock [] (lock_params none) ≡ ok fetched)
    × IsLocked curve (lock_params none) fetched 11
unfolding verify_xmr_locked fetch_lock fetch_transaction_quorum attempt fetch_transaction request
    read_entry pick_agreeing_transaction same_key canonical_tx_key median_confirmations median sort
    check_fetched secret_by_view_key secret_of hex_to_scalar output_key one_time_key derive_scalar
    derive_scalar_bytes encode_varint decide decrypt_amount amount_key nat_to_bytes
verify_xmr_locked-IsLocked_example =
    verify_xmr_locked-IsLocked curve [] (lock_params none) (locked 11 (some 12)) refl refl

abbrev sample_decrypt : Decrypt
sample_decrypt view_key r_bytes i encrypted =
    secret_of curve view_key r_bytes >>= λ d8. decrypt_amount curve d8 i (some encrypted)

abbrev swept : ScannedOutput
swept = record {
  one_time_public_key = 12 ∷ zeros 31;
  tx_public_key = 5 ∷ zeros 31;
  output_index = 1;
  global_output_index = 0;
  amount = 11;
  rct_mask = [];
}

-- A single node that leaves the confirmations out, as for a transaction in its pool, is believed.
unconfirmed_lock_verified :
    verify_xmr_locked curve []
      (record (lock_params none) { monerod_nodes = some (node_with none ∷ []) })
    ≡ ok (locked 11 none)
unfolding verify_xmr_locked fetch_lock fetch_transaction_quorum attempt fetch_transaction request
    read_entry pick_agreeing_transaction same_key canonical_tx_key median_confirmations median sort
    check_fetched secret_by_view_key secret_of hex_to_scalar output_key one_time_key derive_scalar
    derive_scalar_bytes encode_varint decide decrypt_amount amount_key nat_to_bytes
unconfirmed_lock_verified = refl

-- With r = 5, which is "0500", the same lock is verified.
locked_by_tx_key :
    verify_xmr_locked curve [] (lock_params (some (48 ∷ 53 ∷ 48 ∷ 48 ∷ [])))
    ≡ ok (locked 11 (some 12))
unfolding verify_xmr_locked fetch_lock fetch_transaction_quorum attempt fetch_transaction request
    read_entry pick_agreeing_transaction same_key canonical_tx_key median_confirmations median sort
    check_fetched secret_by_tx_key hex_to_scalar output_key one_time_key derive_scalar
    derive_scalar_bytes encode_varint decide decrypt_amount amount_key nat_to_bytes
locked_by_tx_key = refl

fetch_transaction_quorum_honest_example :
    Any
      (IsHonestAnswer (has_key (canonical_tx_key (fetched_at 12))))
      ((true, node_at 11) ∷ (false, down) ∷ (true, node_at 12) ∷ [])
unfolding fetch_transaction_quorum attempt fetch_transaction request read_entry
    pick_agreeing_transaction same_key canonical_tx_key median_confirmations median sort
fetch_transaction_quorum_honest_example =
    fetch_transaction_quorum_honest ((true, node_at 11) ∷ (false, down) ∷ (true, node_at 12) ∷ []) 2
      (fetched_at 12) (omega arith) refl

abbrev member : RingMember
member = record { public_key = []; commitment = [] }

-- An amount of 120 and a fee of 12.
abbrev sweep_data : SweepConstructionData
sweep_data = record {
  inputs =
      record {
        ring_members =
            member ∷ member ∷ member ∷ member ∷ member ∷ member ∷ member ∷ member ∷ member ∷ member
            ∷ member ∷ [];
        real_output_index = whole (pos 10);
      }
      ∷ [];
  address = 52 ∷ [];
  amount = 49 ∷ 50 ∷ 48 ∷ [];
  fee = 49 ∷ 50 ∷ [];
  rct_type = 5;
}

negative_index_passes : is_at_least 11 (whole (negsuc 0)) ≡ false
negative_index_passes = refl

sweep_passes : verify_sweep_tx sweep_data (52 ∷ []) ≡ ok (sweep_passed sweep_data)
unfolding verify_sweep_tx refuse_sweep check_values big_int
sweep_passes = refl

verify_sweep_tx_iff_example :
    (verify_sweep_tx sweep_data (52 ∷ []) ≡ ok (sweep_passed sweep_data))
    ↔ IsSweepable sweep_data (52 ∷ [])
verify_sweep_tx_iff_example = verify_sweep_tx_iff sweep_data (52 ∷ [])
