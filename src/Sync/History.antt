-- ===== src/Sync/History.antt =====
-- Recovering history (zallet/src/components/sync.rs, `recover_history`). The scan ranges are zcash_client_backend's,
-- with `split_at` and `truncate_end` as parameters; the wallet's database and the chain are a record of operations.
pub mod Batches
pub mod Tiles
mod Tests
use zallet.Prelude.{
  ℕ, suc, zero, ◌+◌, ◌-◌, ltb, Bool, true, false, List, [], ◌∷◌, Option, none, some, Result, ok,
  err, map_err, ◌>>=◌, ◌>>◌,
}
use zallet.Sync.Scanning.{Scanner, scan_blocks}
use zallet.Sync.{BlockHeight, ChainError, SyncError, chain}

-- Its priority as its place in their order.
pub record ScanRange : Type 0 where
  pub start : BlockHeight
  pub end : BlockHeight
  pub priority : ℕ

-- Snapshots of the chain, and what the wallet suggests.
pub record Recovery (Wallet View : Type 0) : Type 0 where
  pub snapshot : Wallet → Result ChainError View
  pub suggest_scan_ranges : Wallet → Result SyncError (List ScanRange)

-- `filter_map(..).next()`.
unfoldable pub first_some : {A B : Type 0} → (A → Option B) → List A → Option B
first_some f [] = none
first_some f (a ∷ more) = elim (f a) [ none ↦ first_some f more | some b ↦ some b ]

-- The first range suggested has a higher priority than this one.
unfoldable pub scan_ranges_updated : List ScanRange → ScanRange → Bool
scan_ranges_updated [] scan_range = false
scan_ranges_updated (first ∷ more) scan_range = ltb scan_range.priority first.priority

-- The ranges that the iterator yields, on fuel.
unfoldable pub batches :
    (ScanRange → BlockHeight → Option (ScanRange × ScanRange)) → ℕ → ℕ → ScanRange → List ScanRange
batches split_at batch_size zero remaining = []
batches split_at batch_size (suc fuel) remaining =
    elim (split_at remaining (remaining.start + batch_size)) [
      | none ↦ remaining ∷ []
      | some (cur, next) ↦ cur ∷ batches split_at batch_size fuel next
    ]

module _
    {Wallet View Tree Block Queued Decrypted Nullifiers Account Address Scope Metadata
      Scanned : Type 0}
    (db : Recovery Wallet View)
    (scanner : Scanner Wallet View Tree Block Queued Decrypted Nullifiers Account Address Scope
      Metadata Scanned) where
  -- The loop over the batches.
  unfoldable pub recover_batches : List ScanRange → Wallet → Result SyncError Wallet
  unfolding scan_ranges_updated scan_blocks
  recover_batches [] w = ok w
  recover_batches (scan_range ∷ more) w = do
    chain_view ← map_err chain (db.snapshot w)
    scanned ← scan_blocks scanner chain_view scan_range.start scan_range.end w
    latest_ranges ← db.suggest_scan_ranges scanned
    elim (scan_ranges_updated latest_ranges scan_range) [
      | true ↦ ok scanned
      | false ↦ recover_batches more scanned
    ]

  -- One round of the outer loop; without a range it waits.
  unfoldable pub recover_history :
      (ScanRange → BlockHeight → Option (ScanRange × ScanRange))
      → (ScanRange → BlockHeight → Option ScanRange)
      → ℕ
      → BlockHeight
      → Wallet
      → Result SyncError Wallet
  unfolding first_some batches recover_batches
  recover_history split_at truncate_end batch_size upper_boundary w =
      db.suggest_scan_ranges w >>= λ ranges.
      elim (first_some (λ r. truncate_end r upper_boundary) ranges) [
        | none ↦ ok w
        | some scan_range ↦
            recover_batches
              (batches split_at batch_size (suc (scan_range.end - scan_range.start)) scan_range) w
      ]
