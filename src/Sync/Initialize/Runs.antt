-- ===== src/Sync/Initialize/Runs.antt =====
-- What `initialize` runs, and how it ends.
use zallet.Prelude.{ℕ, ◌+◌, ◌<◌, Option, none, some, Result, ok, err, ◌≡◌}
use zallet.Sync.{BlockHeight, ChainBlock, SyncError}
use zallet.Sync.Scanning.{Scanner}
use zallet.Sync.History.{ScanRange}
use zallet.Sync.Initialize.Settled.{TruncatesStart}
use zallet.Sync.Initialize.{Priorities, Startup, round}
use zallet.Sync.Initialize.Rounds.{Initialized, Scans, Rounds}

module _ {Wallet View Block BlockHash Roots : Type 0}
    (db : Startup Wallet View Block BlockHash Roots) (minus_100 : BlockHeight → BlockHeight)
    (priorities : Priorities) (truncate_start : ScanRange → BlockHeight → Option ScanRange) where
  module _ {Tree Queued Decrypted Nullifiers Account Address Scope Metadata Scanned : Type 0}
      (scanner : Scanner Wallet View Tree Block Queued Decrypted Nullifiers Account Address Scope
        Metadata Scanned) where
    -- How the loop ends in a round: with an error of that round, or initialized.
    abbrev pub Outcome :
        ℕ → Wallet → Result SyncError (Wallet × ChainBlock BlockHash × BlockHeight) → Type 0
    Outcome n before (err error) =
        round db scanner minus_100 priorities truncate_start n before ≡ err error
    Outcome n before (ok (w, current_tip, boundary)) =
        Initialized db minus_100 priorities truncate_start n before w current_tip boundary

    module _ (truncates : TruncatesStart truncate_start) where
      abbrev Ends : ℕ → Wallet → Wallet → Option (ChainBlock BlockHash × BlockHeight) → Type 0
      Ends n w w' none = Scans db minus_100 priorities truncate_start scanner n w w'
      Ends n w w' (some (current_tip, boundary)) =
          Initialized db minus_100 priorities truncate_start n w w' current_tip boundary

      -- Some rounds that scan, and one that ends the loop; or rounds that scan for as long as there is fuel.
      abbrev pub Runs :
          ℕ
          → ℕ
          → Wallet
          → Option (Result SyncError (Wallet × ChainBlock BlockHash × BlockHeight))
          → Type 0
      Runs fuel n w none =
          (w' : Wallet) × Rounds db minus_100 priorities truncate_start scanner fuel n w w'
      Runs fuel n w (some r) =
          (k : ℕ) × (w' : Wallet) × (k < fuel)
          × Rounds db minus_100 priorities truncate_start scanner k n w w'
          × Outcome (n + k) w' r
