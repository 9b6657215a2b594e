-- ===== src/Sync/Initialize/Tests.antt =====
-- A wallet with a number of ranges above the boundary that are still to scan.
use zallet.Prelude.{ℕ, ◌-◌, ltb, max, true, [], ◌∷◌, Option, none, some, ok, if◌then◌else◌}
use zallet.Sync.{BlockHeight}
use zallet.Sync.History.{ScanRange}
use zallet.Sync.Initialize.{Priorities, Startup}
use zallet.Sync.Initialize.Runs.{Runs}

abbrev truncate : ScanRange → BlockHeight → Option ScanRange
truncate r h = if ltb h r.end then some (record r { start = max r.start h }) else none

abbrev priorities : Priorities
priorities = record { historic = 2; verify = 6 }

abbrev startup : Startup ℕ ℕ ℕ ℕ ℕ
startup = record {
  get_sapling_subtree_roots = ok 1;
  get_orchard_subtree_roots = ok 2;
  put_sapling_subtree_roots = λ roots w. ok w;
  put_orchard_subtree_roots = λ roots w. ok w;
  snapshot = λ n. ok 500;
  tip = λ view. ok (record { height = view; hash = view });
  get_block = λ view h. ok (some h);
  update_chain_tip = λ h w. ok w;
  suggest_scan_ranges =
      λ w. ok (if ltb 0 w then record { start = 0; end = 1000; priority = 2 } ∷ [] else []);
  has_block_metadata = λ h w. ok true;
  scan_block = λ view b w. (ok tt, w);
  no_tip_message = λ h. "no tip";
}

abbrev minus_100 : ℕ → ℕ
minus_100 h = h - 100
