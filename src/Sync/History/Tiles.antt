-- ===== src/Sync/History/Tiles.antt =====
-- The ranges that the iterator of `recover_history` yields.

use zallet.Prelude.{
  ℕ, suc, zero, ◌+◌, ◌-◌, ◌≤◌, ◌<◌, List, [], ◌∷◌, Option, none, some, Option-cases, ◌≡◌, ◌⊎◌, inl,
  inr, refl, arith,
}
use zallet.Sync.{BlockHeight}
use zallet.Sync.History.{ScanRange, batches}

-- `ScanRange::split_at`: two parts that are not empty, or none where there are no such parts.
pub record Splits (split_at : ScanRange → BlockHeight → Option (ScanRange × ScanRange))
    : Type 0 where
  pub parts :
      (r : ScanRange) (p : BlockHeight) (cur next : ScanRange)
      → split_at r p ≡ some (cur, next)
      → (cur ≡ record r { end = p }) × (next ≡ record r { start = p }) × (r.start < p) × (p < r.end)
  pub whole : (r : ScanRange) (p : BlockHeight) → split_at r p ≡ none → (p ≤ r.start) ⊎ (r.end ≤ p)

-- `ScanRange::truncate_end`: what is left of the range below a height, if it is not empty.
pub record Truncates (truncate_end : ScanRange → BlockHeight → Option ScanRange) : Type 0 where
  pub below :
      (r cut : ScanRange) (h : BlockHeight)
      → truncate_end r h ≡ some cut
      → (cut.start ≡ r.start)
        × (cut.priority ≡ r.priority)
        × (cut.end ≤ r.end)
        × (cut.end ≤ h)
        × (cut.start < cut.end)

-- Ranges that are not empty, not longer than a size, of one priority, each from the end of the one before.
abbrev pub Tiles : BlockHeight → BlockHeight → ℕ → ℕ → List ScanRange → Type 0
Tiles start end priority size [] = start ≡ end
Tiles start end priority size (r ∷ more) =
    (r.start ≡ start)
    × (r.priority ≡ priority)
    × (start < r.end)
    × (r.end ≤ start + size)
    × Tiles r.end end priority size more

batches_whole :
    (split_at : ScanRange → BlockHeight → Option (ScanRange × ScanRange)) (fuel size : ℕ)
    (r : ScanRange)
    → split_at r (r.start + size) ≡ none
    → batches split_at size (suc fuel) r ≡ r ∷ []
unfolding batches
batches_whole split_at fuel size r e = rw (e, batches) refl

batches_parts :
    (split_at : ScanRange → BlockHeight → Option (ScanRange × ScanRange)) (fuel size : ℕ)
    (r cur next : ScanRange)
    → split_at r (r.start + size) ≡ some (cur, next)
    → batches split_at size (suc fuel) r ≡ cur ∷ batches split_at size fuel next
unfolding batches
batches_parts split_at fuel size r cur next e = rw (e, batches) refl

pub batches-Tiles :
    (split_at : ScanRange → BlockHeight → Option (ScanRange × ScanRange)) (fuel size : ℕ)
    (r : ScanRange)
    → Splits split_at
    → 0 < size
    → r.start < r.end
    → r.end - r.start < fuel
    → Tiles r.start r.end r.priority size (batches split_at size fuel r)
batches-Tiles split_at zero size r law s n f = absurd (omega (arith, f))
batches-Tiles split_at (suc fuel) size r law s n f =
    elim (Option-cases (split_at r (r.start + size))) [
      | inl e ↦
          rw (batches_whole split_at fuel size r e)
            (refl, refl, n, omega (arith, law.whole r (r.start + size) e, s), refl)
      | inr ((cur, next), e) ↦
          let (c, x, above, below) = law.parts r (r.start + size) cur next e in
          let rest =
            batches-Tiles split_at fuel size (record r { start = r.start + size }) law s below
              (omega (arith, f, s, below)) in
          rw (batches_parts split_at fuel size r cur next e, c, x)
            (refl, refl, above, omega arith, rest)
    ]
