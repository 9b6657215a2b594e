-- ===== src/Sync/Scanning.antt =====
-- Scanning a range of blocks (`scan_blocks`, `transparent_address_index` and `scan_block_error` of
-- zallet/src/components/sync/steps.rs). The chain view, the batch decryptor, the scanning of one block and the wallet's
-- database are a record of operations.
pub mod Sample
use zallet.Prelude.{
  ℕ, ◌-◌, List, [], ◌∷◌, ◌++◌, Option, none, some, Result, ok, err, ok_or, map_err, ◌>>=◌, String,
  map,
}
use zallet.Sync.{
  BlockHeight, ChainError, backend, SyncError, batch_decryptor_unavailable, chain, scan,
}

-- The errors of `full::scan_block`, with their texts.
pub data ScanBlockError : Type 0 where
  scan_error other_error : String → ScanBlockError

-- A queued block stands for the result to wait for. The metadata of a tree state has its block and the sizes of its
-- trees.
pub record Scanner
    (Wallet View Tree Block Queued Decrypted Nullifiers Account Address Scope Metadata
      Scanned : Type 0)
    : Type 0 where
  -- `height - 1` on the `BlockHeight` of zcash_protocol.
  pub previous : BlockHeight → BlockHeight
  pub tree_state_as_of : View → BlockHeight → Result ChainError (Option Tree)
  pub tip_height : View → Result ChainError BlockHeight
  -- The blocks from a height up to another, which is not among them; an error ends the stream.
  pub stream_blocks : View → BlockHeight → BlockHeight → List (Result ChainError Block)
  pub claimed_height : Block → BlockHeight
  pub queue_block : Block → Option Queued
  pub await_result : Queued → Option Decrypted
  pub metadata_of : Tree → Metadata
  pub unspent_nullifiers : Wallet → Result SyncError Nullifiers
  pub get_account_ids : Wallet → Result SyncError (List Account)
  pub get_transparent_receivers : Account → Wallet → Result SyncError (List (Address × Scope))
  pub scan_full_block :
      BlockHeight
      → Decrypted
      → Nullifiers
      → List (Address × Account × Scope)
      → Metadata
      → Result ScanBlockError Scanned
  pub update_with : Scanned → Nullifiers → Nullifiers
  pub to_block_metadata : Scanned → Metadata
  pub put_blocks : Tree → List Scanned → Wallet → Result SyncError Wallet

unfoldable pub scan_block_error : ScanBlockError → SyncError
scan_block_error (scan_error e) = scan e
scan_block_error (other_error e) = chain (backend e)

module _
    {Wallet View Tree Block Queued Decrypted Nullifiers Account Address Scope Metadata
      Scanned : Type 0}
    (db : Scanner Wallet View Tree Block Queued Decrypted Nullifiers Account Address Scope Metadata
      Scanned) where
  -- The map as the list of its entries, in the order of insertion; the last one of an address counts.
  unfoldable pub index_accounts :
      List Account → Wallet → Result SyncError (List (Address × Account × Scope))
  index_accounts [] w = ok []
  index_accounts (account ∷ accounts) w = do
    receivers ← db.get_transparent_receivers account w
    index ← index_accounts accounts w
    ok (map (λ (address, scope). (address, account, scope)) receivers ++ index)

  unfoldable pub transparent_address_index :
      Wallet → Result SyncError (List (Address × Account × Scope))
  unfolding index_accounts
  transparent_address_index w = db.get_account_ids w >>= λ accounts. index_accounts accounts w

  -- The loop that queues the blocks.
  unfoldable pub queue_blocks :
      List (Result ChainError Block) → Result SyncError (List (BlockHeight × Queued))
  queue_blocks [] = ok []
  queue_blocks (err error ∷ _) = err (chain error)
  queue_blocks (ok block ∷ blocks) = do
    queued ← ok_or (db.queue_block block) batch_decryptor_unavailable
    batch ← queue_blocks blocks
    ok ((db.claimed_height block, queued) ∷ batch)

  -- The loop that scans the blocks of the batch.
  unfoldable pub scan_batch :
      List (Address × Account × Scope)
      → List (BlockHeight × Queued)
      → Nullifiers
      → Metadata
      → Result SyncError (List Scanned)
  unfolding scan_block_error
  scan_batch addresses [] nullifiers prior = ok []
  scan_batch addresses ((height, queued) ∷ batch) nullifiers prior = do
    decrypted ← ok_or (db.await_result queued) batch_decryptor_unavailable
    scanned_block ←
        map_err scan_block_error (db.scan_full_block height decrypted nullifiers addresses prior)
    scanned_blocks ←
        scan_batch addresses batch (db.update_with scanned_block nullifiers)
          (db.to_block_metadata scanned_block)
    ok (scanned_block ∷ scanned_blocks)

  -- The branch for a range whose start the view knows.
  unfoldable pub scan_from :
      View → Tree → BlockHeight → BlockHeight → Wallet → Result SyncError Wallet
  unfolding queue_blocks scan_batch transparent_address_index
  scan_from view from_state start end w = do
    batch ← queue_blocks (db.stream_blocks view start end)
    nullifiers ← db.unspent_nullifiers w
    addresses ← transparent_address_index w
    scanned_blocks ← scan_batch addresses batch nullifiers (db.metadata_of from_state)
    db.put_blocks from_state scanned_blocks w

  -- The tip is read for the log.
  unfoldable pub scan_blocks : View → BlockHeight → BlockHeight → Wallet → Result SyncError Wallet
  unfolding scan_from
  scan_blocks view start end w =
      map_err chain (db.tree_state_as_of view (db.previous start)) >>= λ found. elim found [
        | some from_state ↦ scan_from view from_state start end w
        | none ↦ map_err chain (db.tip_height view) >>= λ tip. ok w
      ]
