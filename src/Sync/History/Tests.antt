-- ===== src/Sync/History/Tests.antt =====
-- A round of `recover_history` at a concrete input.
use zallet.Prelude.{
  ℕ, min, ltb, ◌≤◌, ◌<◌, List, [], ◌∷◌, Option, none, some, ok, if◌then◌else◌, ◌≡◌, ◌⊎◌, refl,
  arith,
}
use zallet.Sync.{BlockHeight}
use zallet.Sync.Scanning.{scan_blocks}
use zallet.Sync.Scanning.Sample.{scanner}
use zallet.Sync.History.{
  ScanRange, Recovery, first_some, scan_ranges_updated, batches, recover_batches, recover_history,
}
use zallet.Sync.History.Tiles.{Splits, Truncates, Tiles}
use zallet.Sync.History.Batches.{IsFirst, Runs, recover_history_lem}

-- Heights 0 to 9 are to be scanned, in batches of 4, below a boundary at 6; the wallet is a counter.
abbrev split : ScanRange → BlockHeight → Option (ScanRange × ScanRange)
split r p =
    if ltb r.start p
    then if ltb p r.end then some (record r { end = p }, record r { start = p }) else none
    else none

abbrev truncate : ScanRange → BlockHeight → Option ScanRange
truncate r h = if ltb r.start (min r.end h) then some (record r { end = min r.end h }) else none

split-Splits : Splits split
split-Splits = record {
  parts = λ r p cur next e. split_parts r p cur next e;
  whole = λ r p e. split_whole r p e;
}
  where
    split_parts :
        (r : ScanRange) (p : BlockHeight) (cur next : ScanRange)
        → split r p ≡ some (cur, next)
        → (cur ≡ record r { end = p })
          × (next ≡ record r { start = p })
          × (r.start < p)
          × (p < r.end)
    split_parts r p cur next e =
        (ground (arith, e), ground (arith, e), ground (arith, e), ground (arith, e))

    split_whole : (r : ScanRange) (p : BlockHeight) → split r p ≡ none → (p ≤ r.start) ⊎ (r.end ≤ p)
    split_whole r p e = ground (arith, e)

truncate-Truncates : Truncates truncate
truncate-Truncates = record { below = λ r cut h e. truncate_below r cut h e }
  where
    truncate_below :
        (r cut : ScanRange) (h : BlockHeight)
        → truncate r h ≡ some cut
        → (cut.start ≡ r.start)
          × (cut.priority ≡ r.priority)
          × (cut.end ≤ r.end)
          × (cut.end ≤ h)
          × (cut.start < cut.end)
    truncate_below r cut h e = (
      ground (arith, e),
      ground (arith, e),
      ground (arith, e),
      ground (arith, e),
      ground (arith, e),
    )

abbrev suggested : List ScanRange
suggested = record { start = 0; end = 10; priority = 2 } ∷ []

abbrev counting : Recovery ℕ ℕ
counting = record { snapshot = λ w. ok 500; suggest_scan_ranges = λ w. ok suggested }

scanned_twice : recover_history counting scanner split truncate 4 6 2 ≡ ok 0
unfolding recover_history first_some batches recover_batches scan_ranges_updated scan_blocks
    zallet.Sync.Scanning.scan_from
scanned_twice = refl

recover_history_lem_example :
    (IsFirst (λ r. truncate r 6) suggested none × (◌≡◌ {A = ℕ} 0 2))
    ⊎ ((range : ScanRange) × (tiles : List ScanRange) × IsFirst
          (λ r. truncate r 6)
          suggested
          (some range)
        × (range.end ≤ 6)
        × Tiles range.start range.end range.priority 4 tiles
        × Runs counting scanner tiles 2 0)
recover_history_lem_example =
    recover_history_lem counting scanner split truncate 4 6 2 0 suggested split-Splits
      truncate-Truncates (omega arith) refl scanned_twice
