-- ===== src/Sync/Initialize/Settled.antt =====
-- When the wallet suggests nothing that `initialize` would scan.

use zallet.Prelude.{
  ◌≤◌, ◌<◌, Bool-cases, leb, ◌==◌, List, [], ◌∷◌, Option, none, Option-cases, ◌≡◌, ◌≢◌, ◌⊎◌, inl,
  inr, arith,
}
use zallet.Sync.{BlockHeight}
use zallet.Sync.History.{ScanRange, first_some}
use zallet.Sync.Initialize.{Priorities, to_verify}

-- `ScanRange::truncate_start` leaves nothing only of a range that ends at the height or below.
pub record TruncatesStart (truncate_start : ScanRange → BlockHeight → Option ScanRange)
    : Type 0 where
  pub nothing_above : (r : ScanRange) (h : BlockHeight) → truncate_start r h ≡ none → r.end ≤ h

module _ (priorities : Priorities) (boundary : BlockHeight) where
  -- Nothing to verify, and nothing of the priority of history or above it that goes beyond the boundary.
  abbrev pub AreSettled : List ScanRange → Type 0
  AreSettled [] = Unit
  AreSettled (r ∷ ranges) =
      (r.priority ≢ priorities.verify)
      × ((r.priority < priorities.historic) ⊎ (r.end ≤ boundary))
      × AreSettled ranges

  module _ (truncate_start : ScanRange → BlockHeight → Option ScanRange)
      (truncates : TruncatesStart truncate_start) where
    to_verify-none :
        (r : ScanRange)
        → to_verify priorities truncate_start boundary r ≡ none
        → (r.priority ≢ priorities.verify)
          × ((r.priority < priorities.historic) ⊎ (r.end ≤ boundary))
    unfolding to_verify
    to_verify-none r h = elim (Bool-cases (r.priority == priorities.verify)) [
      | inl e ↦ cc (rw e at h)
      | inr e ↦ elim (Bool-cases (leb priorities.historic r.priority)) [
        | inl f ↦ (
          λ same. ground (arith, e, same),
          inr (truncates.nothing_above r boundary (rw (e, f) at h)),
        )
        | inr f ↦ (λ same. ground (arith, e, same), inl (ground (arith, f)))
      ]
    ]

    pub first_some-AreSettled :
        (ranges : List ScanRange)
        → first_some (to_verify priorities truncate_start boundary) ranges ≡ none
        → AreSettled ranges
    unfolding first_some
    first_some-AreSettled [] h = tt
    first_some-AreSettled (r ∷ ranges) h =
        elim (Option-cases (to_verify priorities truncate_start boundary r)) [
          | inl e ↦
              let (a, b) = to_verify-none r e in
              (a, b, first_some-AreSettled ranges (ground (arith, h, e)))
          | inr (c, e) ↦ ground (arith, h, e)
        ]
