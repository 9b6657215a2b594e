-- ===== src/Sync/History/Batches.antt =====
-- What a round of `recover_history` scans.
use mathlib.Core.Path.{subst}
use zallet.Prelude.{
  ℕ, suc, ◌-◌, ◌≤◌, ◌<◌, true, false, List, [], ◌∷◌, Option, none, some, Result, ok, err, map_err,
  bind-ok, Bool-cases, Option-cases, ◌≡◌, ◌⊎◌, inl, inr, refl, arith, ap, sym, ◌∙◌, ◌≢◌,
}
use zallet.Sync.{BlockHeight, ChainError, SyncError, chain}
use zallet.Sync.Scanning.{Scanner, scan_blocks}
use zallet.Sync.History.{
  ScanRange, Recovery, first_some, scan_ranges_updated, batches, recover_batches, recover_history,
}
use zallet.Sync.History.Tiles.{Splits, Truncates, Tiles, batches-Tiles}

map_err_ok : {A : Type 0} (r : Result ChainError A) (a : A) → map_err chain r ≡ ok a → r ≡ ok a
map_err_ok (ok b) a h = ground (arith, h)
map_err_ok (err e) a h = cc

-- The result of `f` at the first element where it has one, if there is one.
abbrev pub IsFirst : {A B : Type 0} → (A → Option B) → List A → Option B → Type 0
IsFirst f [] found = found ≡ none
IsFirst f (a ∷ more) found =
    ((f a ≡ found) × (found ≢ none)) ⊎ ((f a ≡ none) × IsFirst f more found)

pub first_some-IsFirst :
    {A B : Type 0} (f : A → Option B) (l : List A) (found : Option B)
    → first_some f l ≡ found
    → IsFirst f l found
unfolding first_some
first_some-IsFirst f [] found h = sym h
first_some-IsFirst f (a ∷ more) found h = elim (Option-cases (f a)) [
  | inl e ↦ inr (e, first_some-IsFirst f more found (ground (arith, h, e)))
  | inr (b, e) ↦
      let same : some b ≡ found = ground (arith, h, e) in inl (e ∙ same, λ n. cc (same, n))
]

first_some_inv :
    {A B : Type 0} (f : A → Option B) (l : List A) (b : B)
    → first_some f l ≡ some b
    → (a : A) × (f a ≡ some b)
unfolding first_some
first_some_inv f [] b h = cc
first_some_inv f (a ∷ more) b h = elim (Option-cases (f a)) [
  | inl e ↦ first_some_inv f more b (ground (arith, h, e))
  | inr (c, e) ↦ (a, ground (arith, h, e))
]

module _
    {Wallet View Tree Block Queued Decrypted Nullifiers Account Address Scope Metadata
      Scanned : Type 0}
    (db : Recovery Wallet View)
    (scanner : Scanner Wallet View Tree Block Queued Decrypted Nullifiers Account Address Scope
      Metadata Scanned) where
  -- The wallet's first range, if it suggests one, has no higher priority than this one.
  abbrev pub NoneAbove : ScanRange → List ScanRange → Type 0
  NoneAbove r [] = Unit {0}
  NoneAbove r (first ∷ more) = first.priority ≤ r.priority

  -- The ranges are scanned one after the other, each on its own snapshot. Behind each of them the wallet is asked
  -- what it suggests: the run goes on as long as nothing has a higher priority than the range just scanned, and
  -- ends where something has.
  pub data Runs : List ScanRange → Wallet → Wallet → Type 0 where
    none_left : (w : Wallet) → Runs [] w w
    preempted :
        (r : ScanRange) (more : List ScanRange) (view : View) (w w' : Wallet) (first : ScanRange)
        (others : List ScanRange)
        → db.snapshot w ≡ ok view
        → scan_blocks scanner view r.start r.end w ≡ ok w'
        → db.suggest_scan_ranges w' ≡ ok (first ∷ others)
        → r.priority < first.priority
        → Runs (r ∷ more) w w'
    goes_on :
        (r : ScanRange) (more : List ScanRange) (view : View) (w w' w'' : Wallet)
        (latest : List ScanRange)
        → db.snapshot w ≡ ok view
        → scan_blocks scanner view r.start r.end w ≡ ok w'
        → db.suggest_scan_ranges w' ≡ ok latest
        → NoneAbove r latest
        → Runs more w' w''
        → Runs (r ∷ more) w w''

  updated_first :
      (latest : List ScanRange) (r : ScanRange)
      → scan_ranges_updated latest r ≡ true
      → (first : ScanRange) × (more : List ScanRange) × (latest ≡ first ∷ more)
        × (r.priority < first.priority)
  unfolding scan_ranges_updated
  updated_first [] r h = cc
  updated_first (first ∷ more) r h = (first, more, refl, ground (arith, h))

  not_updated-NoneAbove :
      (latest : List ScanRange) (r : ScanRange)
      → scan_ranges_updated latest r ≡ false
      → NoneAbove r latest
  unfolding scan_ranges_updated
  not_updated-NoneAbove [] r h = tt
  not_updated-NoneAbove (first ∷ more) r h = ground (arith, h)

  Runs-cons :
      (r : ScanRange) (more latest : List ScanRange) (view : View) (w w' after : Wallet)
      → db.snapshot w ≡ ok view
      → scan_blocks scanner view r.start r.end w ≡ ok w'
      → db.suggest_scan_ranges w' ≡ ok latest
      → (recover_batches db scanner more w' ≡ ok after → Runs more w' after)
      → ◌≡◌ {A = Result SyncError Wallet}
          (elim (scan_ranges_updated latest r) [
            | true ↦ ok w'
            | false ↦ recover_batches db scanner more w'
          ])
          (ok after)
      → Runs (r ∷ more) w after
  Runs-cons r more latest view w w' after p q s ih h =
      elim (Bool-cases (scan_ranges_updated latest r)) [
        | inl u ↦
            let same : w' ≡ after = ground (arith, h, u) in
            let (first, others, e, above) = updated_first latest r u in
            subst (λ (t : Wallet). Runs (r ∷ more) w t) same
              (preempted r more view w w' first others p q (s ∙ ap ok e) above)
        | inr u ↦
            goes_on r more view w w' after latest p q s (not_updated-NoneAbove latest r u)
              (ih (ground (arith, h, u)))
      ]

  recover_batches-Runs :
      (bs : List ScanRange) (w after : Wallet)
      → recover_batches db scanner bs w ≡ ok after
      → Runs bs w after
  unfolding recover_batches
  recover_batches-Runs [] w after h =
      let same : w ≡ after = cc h in subst (λ (t : Wallet). Runs [] w t) same (none_left w)
  recover_batches-Runs (r ∷ more) w after h =
      let (view, p, h1) = bind-ok (map_err chain (db.snapshot w)) _ _ h in
      let (w', q, h2) = bind-ok (scan_blocks scanner view r.start r.end w) _ _ h1 in
      let (latest, s, h3) = bind-ok (db.suggest_scan_ranges w') _ _ h2 in
      Runs-cons r more latest view w w' after (map_err_ok (db.snapshot w) view p) q s
        (recover_batches-Runs more w' after) h3

  -- A round of `recover_history` that ends with no error: either no suggested range has a part below the boundary,
  -- and nothing changes; or the first one that has is cut there, its part below the boundary is tiled by
  -- ranges of at most the batch size, and these are scanned in their order, up to and including the first one behind
  -- which the range that the wallet suggests first has a higher priority, or all of them if there is none. It rests on
  -- what split_at and truncate_end of scan ranges do, and on a batch size above 0.
  pub recover_history_lem :
      (split_at : ScanRange → BlockHeight → Option (ScanRange × ScanRange))
      (truncate_end : ScanRange → BlockHeight → Option ScanRange) (batch_size : ℕ)
      (upper_boundary : BlockHeight) (w after : Wallet) (ranges : List ScanRange)
      → Splits split_at
      → Truncates truncate_end
      → 0 < batch_size
      → db.suggest_scan_ranges w ≡ ok ranges
      → recover_history db scanner split_at truncate_end batch_size upper_boundary w ≡ ok after
      → (IsFirst (λ r. truncate_end r upper_boundary) ranges none × (after ≡ w))
        ⊎ ((range : ScanRange) × (tiles : List ScanRange) × IsFirst
              (λ r. truncate_end r upper_boundary)
              ranges
              (some range)
            × (range.end ≤ upper_boundary)
            × Tiles range.start range.end range.priority batch_size tiles
            × Runs tiles w after)
  unfolding recover_history
  recover_history_lem split_at truncate_end batch_size upper_boundary w after ranges law cuts n s
        h =
      elim (Option-cases (first_some (λ r. truncate_end r upper_boundary) ranges)) [
        | inl e ↦ inl (first_some-IsFirst _ ranges none e, ground (arith, h, s, e))
        | inr (range, e) ↦
            let first = first_some-IsFirst _ ranges (some range) e in
            let (r, cut) = first_some_inv (λ r. truncate_end r upper_boundary) ranges range e in
            let (start, priority, end, below, nonempty) = cuts.below r range upper_boundary cut in
            let tiles = batches split_at batch_size (suc (range.end - range.start)) range in
            inr (
              range,
              tiles,
              first,
              below,
              batches-Tiles split_at (suc (range.end - range.start)) batch_size range law n nonempty
                  (omega arith),
              recover_batches-Runs tiles w after (ground (arith, h, s, e)),
            )
      ]
