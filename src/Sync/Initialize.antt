-- ===== src/Sync/Initialize.antt =====
-- Preparing the wallet for syncing (`initialize` of zallet/src/components/sync.rs, `update_subtree_roots` of
-- sync/steps.rs). The chain hands out one snapshot for each round of the loop; the wallet's database and the
-- chain are records of operations, and `truncate_start` of a scan range is a parameter.
pub mod Rounds
pub mod Runs
pub mod Settled
mod Tests
use zallet.Prelude.{
  ℕ, suc, zero, Bool, true, false, String, List, Option, none, some, Result, ok, err, ok_or,
  map_err, ◌>>=◌, if◌then◌else◌, ltb, leb, ◌==◌,
}
use zallet.Sync.{BlockHeight, ChainBlock, ChainError, SyncError, chain, backend}
use zallet.Sync.Steady.{update_boundary}
use zallet.Sync.Scanning.{Scanner, scan_blocks}
use zallet.Sync.History.{ScanRange, first_some}

-- Where the scan priorities stand in their order.
pub record Priorities : Type 0 where
  pub historic : ℕ
  pub verify : ℕ

-- A write that fails may still have changed the wallet; only the tip block is scanned with its errors ignored.
pub record Startup (Wallet View Block BlockHash Roots : Type 0) : Type 0 where
  pub get_sapling_subtree_roots : Result ChainError Roots
  pub get_orchard_subtree_roots : Result ChainError Roots
  pub put_sapling_subtree_roots : Roots → Wallet → Result SyncError Wallet
  pub put_orchard_subtree_roots : Roots → Wallet → Result SyncError Wallet
  pub snapshot : ℕ → Result ChainError View
  pub tip : View → Result ChainError (ChainBlock BlockHash)
  pub get_block : View → BlockHeight → Result ChainError (Option Block)
  pub update_chain_tip : BlockHeight → Wallet → Result SyncError Wallet
  pub suggest_scan_ranges : Wallet → Result SyncError (List ScanRange)
  pub has_block_metadata : BlockHeight → Wallet → Result SyncError Bool
  pub scan_block : View → Block → Wallet → Result SyncError (Unit {0}) × Wallet
  pub no_tip_message : BlockHeight → String

-- What `initialize` scans of a range that the wallet suggests.
unfoldable pub to_verify :
    Priorities
    → (ScanRange → BlockHeight → Option ScanRange)
    → BlockHeight
    → ScanRange
    → Option ScanRange
to_verify priorities truncate_start starting_boundary r =
    if r.priority == priorities.verify
    then some r
    else if leb priorities.historic r.priority
    then truncate_start r starting_boundary
    else none

module _ {Wallet View Block BlockHash Roots : Type 0}
    (db : Startup Wallet View Block BlockHash Roots) where
  unfoldable pub update_subtree_roots : Wallet → Result SyncError Wallet
  update_subtree_roots w = do
    sapling_roots ← map_err chain db.get_sapling_subtree_roots
    w' ← db.put_sapling_subtree_roots sapling_roots w
    orchard_roots ← map_err chain db.get_orchard_subtree_roots
    db.put_orchard_subtree_roots orchard_roots w'

  -- The block `attempt`.
  unfoldable pub attempt :
      View → ChainBlock BlockHash → Wallet → Result SyncError (Unit {0}) × Wallet
  attempt view current_tip w = elim (db.get_block view current_tip.height) [
    | err error ↦ (err (chain error), w)
    | ok none ↦ (err (chain (backend (db.no_tip_message current_tip.height))), w)
    | ok (some tip_block) ↦ db.scan_block view tip_block w
  ]

  -- The tip block is scanned if the wallet does not know it; an error there is ignored.
  unfoldable pub scan_tip : View → ChainBlock BlockHash → Wallet → Result SyncError Wallet
  unfolding attempt
  scan_tip view current_tip w =
      if ltb 0 current_tip.height
      then (do
        known ← db.has_block_metadata current_tip.height w
        ok (if known then w else (attempt view current_tip w).1))
      else ok w

  module _ {Tree Queued Decrypted Nullifiers Account Address Scope Metadata Scanned : Type 0}
      (scanner : Scanner Wallet View Tree Block Queued Decrypted Nullifiers Account Address Scope
        Metadata Scanned)
      (minus_100 : BlockHeight → BlockHeight) (priorities : Priorities)
      (truncate_start : ScanRange → BlockHeight → Option ScanRange) where
    -- The end of a round: the first range to scan is scanned; with none left, the tip block.
    unfoldable pub scan_or_end :
        View
        → ChainBlock BlockHash
        → BlockHeight
        → Wallet
        → List ScanRange
        → Result SyncError (Wallet × Option (ChainBlock BlockHash × BlockHeight))
    unfolding scan_tip to_verify first_some scan_blocks
    scan_or_end chain_view current_tip starting_boundary w ranges =
        elim (first_some (to_verify priorities truncate_start starting_boundary) ranges) [
          | none ↦ scan_tip chain_view current_tip w >>= λ w'.
              ok (w', some (current_tip, starting_boundary))
          | some r ↦ scan_blocks scanner chain_view r.start r.end w >>= λ w'. ok (w', none)
        ]

    -- A round of the loop, which ends it if it has a tip and a boundary.
    unfoldable pub round :
        ℕ → Wallet → Result SyncError (Wallet × Option (ChainBlock BlockHash × BlockHeight))
    unfolding scan_or_end update_boundary
    round n w = do
      chain_view ← map_err chain (db.snapshot n)
      current_tip ← map_err chain (db.tip chain_view)
      w' ← db.update_chain_tip current_tip.height w
      ranges ← db.suggest_scan_ranges w'
      scan_or_end chain_view current_tip (update_boundary minus_100 0 current_tip.height) w' ranges

    -- The loop, on fuel, from the round with a number.
    unfoldable pub rounds :
        ℕ → ℕ → Wallet → Option (Result SyncError (Wallet × ChainBlock BlockHash × BlockHeight))
    unfolding round
    rounds zero n w = none
    rounds (suc fuel) n w = elim (round n w) [
      | err error ↦ some (err error)
      | ok (w', some (current_tip, starting_boundary)) ↦
          some (ok (w', current_tip, starting_boundary))
      | ok (w', none) ↦ rounds fuel (suc n) w'
    ]

    unfoldable pub initialize :
        ℕ → Wallet → Option (Result SyncError (Wallet × ChainBlock BlockHash × BlockHeight))
    unfolding update_subtree_roots rounds
    initialize fuel w = elim (update_subtree_roots w) [
      | err error ↦ some (err error)
      | ok w' ↦ rounds fuel 0 w'
    ]
