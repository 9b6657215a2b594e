-- ===== src/Unspent.antt =====
-- Unspent outputs (z_listunspent, zallet/src/components/json_rpc/methods/list_unspent.rs): what is read of the
-- wallet, and the loops over outputs and notes. The wallet's queries and the types of zcash_keys and zcash_protocol
-- are parameters; an error stands without its data.
pub mod Call
pub mod Conflicts
pub mod Filters
mod Tests
use zallet.Prelude.{
  ℕ, ◌-◌, Bool, true, false, not, ◌&&◌, ◌||◌, String, List, [], ◌∷◌, ◌++◌, Option, none, some,
  Result, ok, err, map_err, ◌>>=◌, Eq, contains, if◌then◌else◌, ltb, ◌==◌, Bytes,
}
use zallet.Rpc.Error.{RpcError, RpcResult, database, with_static}
use zallet.Privacy.Proposal.{PoolType, transparent, sapling, orchard}
use zallet.Transactions.{Memo, text, pool_text, map_option}

pub record UnspentOutput (JsonZec : Type 0) : Type 0 where
  pub txid : String
  pub pool : String
  pub outindex : ℕ
  pub confirmations : ℕ
  pub is_watch_only : Bool
  pub address : Option String
  pub account_uuid : String
  pub wallet_internal : Bool
  pub value : JsonZec
  pub value_zat : ℕ
  pub memo : Option String
  pub memo_str : Option String

-- A transparent output of the wallet, with the address that its script is parsed as.
pub record WalletUtxo (A Z : Type 0) : Type 0 where
  pub txid : Bytes
  pub index : ℕ
  pub mined_height : Option ℕ
  pub recipient_address : A
  pub script_address : Option A
  pub value : Z

pub record ReceivedNote (R Z : Type 0) : Type 0 where
  pub txid : Bytes
  pub output_index : ℕ
  pub recipient : R
  pub value : Z
  pub is_internal : Bool

-- `ConfirmationsPolicy`, as `new_symmetrical` makes it.
pub record ConfirmationsPolicy : Type 0 where
  pub confirmations : ℕ
  pub allow_zero_conf_shielding : Bool

-- The wallet's queries. An account is read as whether its purpose is spending, the metadata of an address as whether
-- its scope is internal.
pub record WalletReads (U A S O Z : Type 0) : Type 0 where
  pub chain_height : Result String (Option ℕ)
  pub get_account_ids : Result String (List U)
  pub get_account : U → Result String (Option Bool)
  pub get_transparent_receivers : U → Result String (List A)
  pub get_spendable_transparent_outputs :
      A → ℕ → ConfirmationsPolicy → Result String (List (WalletUtxo A Z))
  pub get_transparent_address_metadata : U → A → Result String (Option Bool)
  pub select_unspent_notes :
      U → ℕ → Result String (List (ReceivedNote S Z) × List (ReceivedNote O Z))
  pub get_memo : Bytes → PoolType → ℕ → Result String (Option Memo)
  pub get_tx_height : Bytes → Result String (Option ℕ)

-- What the code uses of zcash_keys and zcash_protocol. A difference of heights stops at 0.
pub record Encodings (U A S O Address Z JsonZec : Type 0) : Type 0 where
  pub decode : String → Option Address
  pub to_sapling_address : Address → Option S
  pub orchard_receivers : Address → List O
  pub encode_transparent : A → String
  pub encode_sapling : S → String
  pub encode_orchard : O → String
  pub uuid_text : U → String
  pub txid_text : Bytes → String
  pub memo_hex : Memo → String
  pub value_from_zatoshis : Z → JsonZec
  pub into_u64 : Z → ℕ
  pub internal_error_message : String

unfoldable pub memo_str_of : Memo → Option String
memo_str_of (text text_memo) = some text_memo
memo_str_of _ = none

-- How far a height is below the target; 0 if it is not known.
unfoldable pub confirmations_at : ℕ → Option ℕ → ℕ
confirmations_at target_height none = 0
confirmations_at target_height (some h) = target_height - h

-- Too few confirmations for `minconf`, or too many for `maxconf`.
unfoldable pub is_skipped : ℕ → Option ℕ → ℕ → Option ℕ → Bool
unfolding confirmations_at
is_skipped minconf maxconf target_height tx_mined_height =
    elim tx_mined_height [ none ↦ false | some h ↦ ltb (target_height - minconf) h ]
    || elim maxconf [
      | none ↦ false
      | some c ↦ ltb c (confirmations_at target_height tx_mined_height)
    ]

module _ {U A S O Address Z JsonZec : Type 0} (wallet : WalletReads U A S O Z)
    (enc : Encodings U A S O Address Z JsonZec) where
  -- The closure `get_memo`.
  unfoldable pub memo_of : Bytes → PoolType → ℕ → RpcResult (String × Option String)
  unfolding memo_str_of
  memo_of txid protocol output_index = do
    found ←
        map_err (λ text. with_static database "WalletDb::get_memo failed")
          (wallet.get_memo txid protocol output_index)
    ok (elim found [
      | none ↦ ("TODO: Always enhance every note", none)
      | some memo ↦ (enc.memo_hex memo, memo_str_of memo)
    ])

  unfoldable pub utxo_output : U → Bool → ℕ → WalletUtxo A Z → RpcResult (UnspentOutput JsonZec)
  unfolding confirmations_at
  utxo_output account_id is_watch_only target_height utxo = do
    metadata ←
        map_err (λ text. with_static database "WalletDb::get_transparent_address_metadata failed")
          (wallet.get_transparent_address_metadata account_id utxo.recipient_address)
    ok (record {
      txid = enc.txid_text utxo.txid;
      pool = pool_text transparent;
      outindex = utxo.index;
      confirmations = confirmations_at target_height utxo.mined_height;
      is_watch_only = is_watch_only;
      address = map_option enc.encode_transparent utxo.script_address;
      account_uuid = enc.uuid_text account_id;
      wallet_internal = elim metadata [ none ↦ false | some internal ↦ internal ];
      value = enc.value_from_zatoshis utxo.value;
      value_zat = enc.into_u64 utxo.value;
      memo = none;
      memo_str = none;
    })

  unfoldable pub utxo_outputs :
      U → Bool → ℕ → List (WalletUtxo A Z) → RpcResult (List (UnspentOutput JsonZec))
  unfolding utxo_output
  utxo_outputs account_id is_watch_only target_height [] = ok []
  utxo_outputs account_id is_watch_only target_height (utxo ∷ utxos) = do
    output ← utxo_output account_id is_watch_only target_height utxo
    outputs ← utxo_outputs account_id is_watch_only target_height utxos
    ok (output ∷ outputs)

  -- The loops over Sapling and over Orchard notes, which differ in the pool, the encoding and the selection.
  module _ {R : Type 0} (pool : PoolType) (encode : R → String) (account_id : U)
      (is_watch_only : Bool) where
    unfoldable pub note_output : ReceivedNote R Z → ℕ → RpcResult (UnspentOutput JsonZec)
    unfolding memo_of
    note_output note confirmations = do
      (memo, memo_str) ← memo_of note.txid pool note.output_index
      ok (record {
        txid = enc.txid_text note.txid;
        pool = pool_text pool;
        outindex = note.output_index;
        confirmations = confirmations;
        is_watch_only = is_watch_only;
        address = if note.is_internal then none else some (encode note.recipient);
        account_uuid = enc.uuid_text account_id;
        wallet_internal = note.is_internal;
        value = enc.value_from_zatoshis note.value;
        value_zat = enc.into_u64 note.value;
        memo = some memo;
        memo_str = memo_str;
      })

    module _ (is_selected : R → Bool) (minconf : ℕ) (maxconf : Option ℕ) (target_height : ℕ) where
      unfoldable pub note_outputs :
          List (ReceivedNote R Z) → RpcResult (List (UnspentOutput JsonZec))
      unfolding note_output is_skipped confirmations_at
      note_outputs [] = ok []
      note_outputs (note ∷ notes) =
          let rest = note_outputs notes in
          if is_selected note.recipient
          then (do
            tx_mined_height ←
                map_err (λ text. with_static database "WalletDb::get_tx_height failed")
                  (wallet.get_tx_height note.txid)
            if is_skipped minconf maxconf target_height tx_mined_height then rest else (do
              output ← note_output note (confirmations_at target_height tx_mined_height)
              outputs ← rest
              ok (output ∷ outputs)))
          else rest
