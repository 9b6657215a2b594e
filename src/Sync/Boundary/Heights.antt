-- ===== src/Sync/Boundary/Heights.antt =====
-- Which heights `scan_blocks` scans, and which boundary it reports.
use zallet.Prelude.{
  ◌≤◌, ◌<◌, Bool, true, false, Option, none, some, ok, ◌≡◌, ltb, leb, min, ◌⊎◌, ◌&&◌, not,
}
use zallet.Sync.{BlockHeight}
use zallet.Sync.Scanning.{Scanner, scan_from}
use zallet.Sync.Boundary.{ControlFlow, stop, continue, Range, is_beyond}

-- In the range, and not refused by the guard of `scan_block`.
abbrev pub is_allowed : Range → Option BlockHeight → BlockHeight → Bool
is_allowed range shutdown_height height =
    leb range.start height && ltb height range.end && not (is_beyond shutdown_height height)

-- The end of the range, or the divergence height if that is lower.
abbrev pub IsLower : Range → Option BlockHeight → BlockHeight → Type 0
IsLower range none end = end ≡ range.end
IsLower range (some h) end = end ≡ min h range.end

-- The scanning goes up to `end`, which is not scanned. The boundary is reported if it cuts the range.
abbrev pub Stops :
    Range → Option BlockHeight → BlockHeight → ControlFlow BlockHeight (Unit {0}) → Type 0
Stops range none end flow = (end ≡ range.end) × (flow ≡ continue tt)
Stops range (some h) end flow =
    ((range.end ≤ h) × (end ≡ range.end) × (flow ≡ continue tt))
    ⊎ ((h < range.end) × (end ≡ h) × (flow ≡ stop h))

module _
    {Wallet View Tree Block Queued Decrypted Nullifiers Account Address Scope Metadata
      Scanned : Type 0}
    (db : Scanner Wallet View Tree Block Queued Decrypted Nullifiers Account Address Scope Metadata
      Scanned)
    (view : View) where
  -- How a call ends: nothing may be scanned; or the view does not know the state in front of the range; or the blocks
  -- below `end` are scanned.
  pub data Outcome (range : Range) (shutdown_height : Option BlockHeight) (w : Wallet)
      : Wallet → ControlFlow BlockHeight (Unit {0}) → Type 0 where
    nothing_allowed :
        (end : BlockHeight)
        → IsLower range shutdown_height end
        → ((height : BlockHeight) → is_allowed range shutdown_height height ≡ false)
        → Outcome range shutdown_height w w (stop end)
    not_known :
        is_allowed range shutdown_height range.start ≡ true
        → db.tree_state_as_of view (db.previous range.start) ≡ ok none
        → Outcome range shutdown_height w w (continue tt)
    scanned :
        (from_state : Tree) (end : BlockHeight) (w' : Wallet)
        (flow : ControlFlow BlockHeight (Unit {0}))
        → is_allowed range shutdown_height range.start ≡ true
        → db.tree_state_as_of view (db.previous range.start) ≡ ok (some from_state)
        → scan_from db view from_state range.start end w ≡ ok w'
        → ((height : BlockHeight)
            → (leb range.start height && ltb height end) ≡ is_allowed range shutdown_height height)
        → Stops range shutdown_height end flow
        → Outcome range shutdown_height w w' flow

-- What the boundary tells the caller once the range is scanned.
abbrev flow_of : Option BlockHeight → ControlFlow BlockHeight (Unit {0})
flow_of none = continue tt
flow_of (some h) = stop h

-- The scanning up to `end` is exactly that of the allowed heights, of which there are some.
abbrev IsClamped : Range → Option BlockHeight → BlockHeight → Option BlockHeight → Type 0
IsClamped range shutdown_height end boundary =
    (is_allowed range shutdown_height range.start ≡ true)
    × ((height : BlockHeight)
        → (leb range.start height && ltb height end) ≡ is_allowed range shutdown_height height)
    × Stops range shutdown_height end (flow_of boundary)
