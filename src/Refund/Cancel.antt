-- ===== src/Refund/Cancel.antt =====
-- src/lib/bitcoin/tx-verify.ts: TxCancel is looked for and checked on the chain before a refund is
-- signed, with `uint8ArrayEquals` of src/lib/crypto/bytes.ts. A call of the provider is what it
-- answers for its argument, or an exception; asking for a transaction twice can have two answers.
-- The script hash of the lock address is a call of other packages, and is part of the history's.
use Prim.Native.String.{String}
use miradex_client.Prelude.{
  ℤ, above_zero, is_zero, Bool, true, false, not, ◌&&◌, List, [], ◌∷◌, ltb, ◌==◌, str_eq, length,
  Option, none, some, if◌then◌else◌,
}
use miradex_client.Errors.Codes.{Result, ok, err}
use miradex_client.Presign.{◌>>=◌}
use miradex_client.Refund.Der.{Bytes}
use miradex_client.Refund.{Bitcoin, TxIn}

-- `ScriptHashHistoryEntry`, where the heights 0 and −1 stand for a transaction that is not in a block.
pub record Entry : Type 0 where
  pub tx_hash : String
  pub height : ℤ

-- The texts of `reason` where the check fails.
pub data Refusal : Type 0 where
  not_on_chain hex_differs spends_another in_mempool no_inclusion : Refusal
  not_broadcast unidentified not_confirmed no_raw_tx : Refusal

pub data TxCancelVerification : Type 0 where
  refused : Refusal → TxCancelVerification
  verified : (tx_cancel_hex tx_cancel_txid : String) → ℤ → TxCancelVerification

abbrev pub same_bytes : Bytes → Bytes → Bool
same_bytes [] [] = true
same_bytes [] (c ∷ cs) = false
same_bytes (b ∷ bs) [] = false
same_bytes (b ∷ bs) (c ∷ cs) = b == c && same_bytes bs cs

-- The last element of a witness, where there is one.
abbrev pub last_element : List Bytes → Option Bytes
last_element [] = none
last_element (element ∷ []) = some element
last_element (element ∷ next_one ∷ others) = last_element (next_one ∷ others)

-- The witness script that an input shows, unless it is missing or empty.
unfoldable pub witness_script_of : TxIn → Option Bytes
witness_script_of input = elim (last_element input.witness) [
  | none ↦ none
  | some script ↦ if length script == 0 then none else some script
]

abbrev pub is_output : Option Bytes → Bytes → Bool
is_output none expected = false
is_output (some output) expected = same_bytes output expected

-- `history.find((entry) => entry.tx_hash !== depositTxid)`
abbrev pub first_other : (deposit_txid : String) → List Entry → Option Entry
first_other deposit_txid [] = none
first_other deposit_txid (entry ∷ history) =
    if not (str_eq entry.tx_hash deposit_txid) then some entry else first_other deposit_txid history

-- `cancelEntry`, unless there is no known deposit.
abbrev pub known_cancel : (deposit_txid : String) → List Entry → Option Entry
known_cancel deposit_txid history =
    if str_eq deposit_txid "" then none else first_other deposit_txid history

module _ (b : Bitcoin) where
  -- One input's script: whether it has the output, or the exception of deriving its own.
  unfoldable pub script_spends : (expected : Bytes) → Option Bytes → Result Bool
  script_spends expected none = ok false
  script_spends expected (some script) = do
    output ← b.p2wsh_output script
    ok (is_output output expected)

  -- The loop over the inputs; `catch` makes an exception a `false`.
  abbrev pub any_spends : Bytes → List TxIn → Bool
  any_spends expected [] = false
  any_spends expected (input ∷ others) =
      let rest = any_spends expected others in
      elim (script_spends expected (witness_script_of input)) [
        | err e ↦ false
        | ok true ↦ true
        | ok false ↦ rest
      ]

  unfoldable pub spends_from_address : (raw_hex lock_address : String) → Bool
  unfolding script_spends witness_script_of
  spends_from_address raw_hex lock_address = elim (b.from_hex raw_hex) [
    | err e ↦ false
    | ok tx ↦ elim (b.to_output_script lock_address) [
      | err e ↦ false
      | ok expected ↦ any_spends expected tx.ins
    ]
  ]

  unfoldable pub verify_tx_cancel :
      (get_transaction : String → Result String) (get_height : String → Result ℤ)
      (tx_cancel_txid tx_cancel_hex lock_address : String)
      → Result TxCancelVerification
  unfolding spends_from_address
  verify_tx_cancel get_transaction get_height txid hex lock_address = do
    on_chain_hex ← get_transaction txid
    if str_eq on_chain_hex ""
        then ok (refused not_on_chain)
        else if not (str_eq on_chain_hex hex)
        then ok (refused hex_differs)
        else if not (spends_from_address on_chain_hex lock_address)
        then ok (refused spends_another)
        else (do
          height ← get_height txid
          ok (
              if above_zero height
              then verified on_chain_hex txid height
              else if is_zero height
              then refused in_mempool
              else refused no_inclusion))

  -- The scan of the history for the transaction that spends from the lock.
  abbrev pub scan :
      (get_transaction : String → Result String)
      → (lock_address : String) → List Entry
      → Result (Option Entry)
  scan get_transaction lock_address [] = ok none
  scan get_transaction lock_address (entry ∷ history) =
      let rest = scan get_transaction lock_address history in
      (do
        hex ← get_transaction entry.tx_hash
        if str_eq hex ""
            then rest
            else if spends_from_address hex lock_address
            then ok (some entry)
            else rest)

  -- `if (!cancelTxid)`: an entry that is there has its identifier.
  abbrev pub known_or_scan : Option Entry → (rest : Result (Option Entry)) → Result (Option Entry)
  known_or_scan none rest = rest
  known_or_scan (some entry) rest = if str_eq entry.tx_hash "" then rest else ok (some entry)

  abbrev pub find_cancel :
      (scanned : String → Result String) (lock_address deposit_txid : String)
      → List Entry
      → Result (Option Entry)
  find_cancel scanned lock_address deposit_txid history =
      known_or_scan (known_cancel deposit_txid history) (scan scanned lock_address history)

  -- From the entry on.
  unfoldable pub check_entry :
      (fetched : String → Result String) (lock_address : String)
      → Option Entry
      → Result TxCancelVerification
  unfolding spends_from_address
  check_entry fetched lock_address none = ok (refused unidentified)
  check_entry fetched lock_address (some entry) =
      if str_eq entry.tx_hash ""
      then ok (refused unidentified)
      else if not (above_zero entry.height)
      then ok (refused (if is_zero entry.height then in_mempool else not_confirmed))
      else (do
        raw_hex ← fetched entry.tx_hash
        ok (
            if str_eq raw_hex ""
            then refused no_raw_tx
            else if spends_from_address raw_hex lock_address
            then verified raw_hex entry.tx_hash entry.height
            else refused spends_another))

  unfoldable pub discover_and_verify_tx_cancel :
      (get_history : Result (List Entry)) (scanned fetched : String → Result String)
      (lock_address deposit_txid : String)
      → Result TxCancelVerification
  unfolding spends_from_address check_entry
  discover_and_verify_tx_cancel get_history scanned fetched lock_address deposit_txid = do
    history ← get_history
    if ltb (length history) 2 then ok (refused not_broadcast) else (do
      entry ← find_cancel scanned lock_address deposit_txid history
      check_entry fetched lock_address entry)

-- `verifyLockAddressSpent`
unfoldable pub verify_lock_address_spent {ℓ} : {A : Type ℓ} → Result (List A) → Bool
verify_lock_address_spent (err e) = false
verify_lock_address_spent (ok utxos) = length utxos == 0
