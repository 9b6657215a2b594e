-- ===== src/Sync/Requests.antt =====
-- What the wallet asks to know of the chain (`address_request_bounds`, `service_address_request` and `data_requests`
-- of zallet/src/components/sync.rs, in the build without a spend index). The chain view and the database are a record
-- of operations; a write that fails may still have changed the wallet. Heights are far below 2^32.
pub mod Addresses
mod Tests
use zallet.Prelude.{
  ℕ, ◌+◌, ◌-◌, min, max, Bool, true, false, List, [], ◌∷◌, Option, none, some, Result, ok, err, Eq,
  contains, if◌then◌else◌,
}
use zallet.Sync.{BlockHeight, ChainError, SyncError}
use zallet.Sync.Steady.{
  Exit, panicked, failed, done, Action, ◌>>=◌, ◌>>◌, finish, on_chain, exit_of,
}

pub record AddressRequest (Address : Type 0) : Type 0 where
  pub address : Address
  pub block_range_start : BlockHeight
  pub block_range_end : Option BlockHeight

pub data TransactionDataRequest (TxId Address : Type 0) : Type 0 where
  get_status enhancement : TxId → TransactionDataRequest TxId Address
  transactions_involving_address : AddressRequest Address → TransactionDataRequest TxId Address

-- The start and the end of the range, and the last height that counts as inspected.
unfoldable pub address_request_bounds :
    BlockHeight → Option BlockHeight → BlockHeight → (BlockHeight × BlockHeight) × BlockHeight
address_request_bounds block_range_start block_range_end view_tip =
    let tip_exclusive = view_tip + 1 in
    let clamped : BlockHeight = elim block_range_end [
      | none ↦ tip_exclusive
      | some e ↦ min e tip_exclusive
    ] in
    let end = max clamped block_range_start in ((block_range_start, end), end - 1)

pub record Requests (Wallet TxId Tx Address Outpoint Status : Type 0) : Type 0 where
  pub is_null : TxId → Bool
  pub tip_height : Result ChainError BlockHeight
  pub get_transaction_status : TxId → Result ChainError Status
  pub get_transaction : TxId → Result ChainError (Option Tx)
  pub get_address_unspent_outpoints : Address → Result ChainError (List Outpoint)
  pub get_address_tx_ids : Address → BlockHeight × BlockHeight → Result ChainError (List TxId)
  pub get_spendable_transparent_outputs :
      Address → BlockHeight → Wallet → Result SyncError (List Outpoint)
  pub transaction_data_requests :
      Wallet → Result SyncError (List (TransactionDataRequest TxId Address))
  pub txid_not_recognized : Status
  pub set_transaction_status : TxId → Status → Wallet → Result SyncError (Unit {0}) × Wallet
  pub decrypt_and_store_transaction : Tx → Wallet → Result SyncError (Unit {0}) × Wallet
  pub notify_address_checked :
      AddressRequest Address → BlockHeight → Wallet → Result SyncError (Unit {0}) × Wallet

module _ {Wallet TxId Tx Address Outpoint Status : Type 0} ⦃e : Eq Outpoint⦄
    (db : Requests Wallet TxId Tx Address Outpoint Status) where
  abbrev pub write : (Wallet → Result SyncError (Unit {0}) × Wallet) → Action Wallet (Unit {0})
  write update w = (exit_of (update w).0, (update w).1)

  abbrev pub read : {A : Type 0} → (Wallet → Result SyncError A) → Action Wallet A
  read query w = (exit_of (query w), w)

  -- An output of the wallet is not among those that the chain has as unspent.
  unfoldable pub any_spent : List Outpoint → List Outpoint → Bool
  any_spent chain_unspent [] = false
  any_spent chain_unspent (output ∷ outputs) =
      let rest = any_spent chain_unspent outputs in
      if contains chain_unspent output then rest else true

  -- The loop over the transactions of an address.
  unfoldable pub store_transactions : List TxId → Action Wallet (Unit {0})
  store_transactions [] = finish tt
  store_transactions (txid ∷ txids) =
      let rest = store_transactions txids in
      on_chain (db.get_transaction txid) >>= λ found. elim found [
        | none ↦ rest
        | some tx ↦ write (db.decrypt_and_store_transaction tx) >> rest
      ]

  unfoldable pub service_address_request :
      AddressRequest Address → BlockHeight → Action Wallet (Unit {0})
  unfolding address_request_bounds any_spent store_transactions
  service_address_request request view_tip =
      let (range, as_of_height) =
        address_request_bounds request.block_range_start request.block_range_end view_tip in
      on_chain (db.get_address_unspent_outpoints request.address) >>= λ chain_unspent.
      read (db.get_spendable_transparent_outputs request.address (view_tip + 1)) >>= λ our_outputs.
      (if any_spent chain_unspent our_outputs
        then on_chain (db.get_address_tx_ids request.address range) >>= store_transactions
        else finish tt)
      >> write (db.notify_address_checked request as_of_height)

  -- An error is logged, and the loop goes on.
  unfoldable pub warned : Exit (Unit {0}) → Exit (Unit {0})
  warned panicked = panicked
  warned (failed error) = done tt
  warned (done value) = done tt

  unfoldable pub service_request :
      BlockHeight → TransactionDataRequest TxId Address → Action Wallet (Unit {0})
  unfolding service_address_request warned
  service_request view_tip (get_status txid) =
      if db.is_null txid
      then finish tt
      else on_chain (db.get_transaction_status txid) >>= λ status.
          write (db.set_transaction_status txid status)
  service_request view_tip (enhancement txid) =
      if db.is_null txid
      then finish tt
      else on_chain (db.get_transaction txid) >>= λ found. elim found [
        | some tx ↦ write (db.decrypt_and_store_transaction tx)
        | none ↦ write (db.set_transaction_status txid db.txid_not_recognized)
      ]
  service_request view_tip (transactions_involving_address request) =
      λ w. let outcome = service_address_request request view_tip w in (warned outcome.0, outcome.1)

  unfoldable pub service_all :
      BlockHeight → List (TransactionDataRequest TxId Address) → Action Wallet (Unit {0})
  unfolding service_request
  service_all view_tip [] = finish tt
  service_all view_tip (request ∷ requests) =
      let rest = service_all view_tip requests in service_request view_tip request >> rest

  -- A round of the loop, on the snapshot that is taken behind the signal.
  unfoldable pub data_requests : Action Wallet (Unit {0})
  unfolding service_all
  data_requests = read db.transaction_data_requests >>= λ requests. elim requests [
    | [] ↦ finish tt
    | first ∷ more ↦ on_chain db.tip_height >>= λ view_tip. service_all view_tip (first ∷ more)
  ]
