-- ===== src/Sync/Boundary.antt =====
-- Stopping before a consensus divergence (zallet-core/src/components/sync/steps.rs): `clamp_to_boundary`,
-- `scan_blocks`, and the guard of `scan_block`. The scanning of a range is that of zallet, with one more tree in the
-- metadata.
pub mod Heights
use zallet.Prelude.{
  ℕ, min, Bool, true, false, Option, none, some, Result, ok, map_err, ◌>>=◌, if◌then◌else◌, ltb,
  leb,
}
use zallet.Sync.{BlockHeight, SyncError, chain}
use zallet.Sync.Scanning.{Scanner, scan_from}

-- `std::ops::ControlFlow`.
pub data ControlFlow (B C : Type 0) : Type 0 where
  stop : B → ControlFlow B C
  continue : C → ControlFlow B C

-- A half-open range of heights.
pub record Range : Type 0 where
  pub start : BlockHeight
  pub end : BlockHeight

unfoldable pub clamp_to_boundary :
    Range → Option BlockHeight → ControlFlow BlockHeight (Option BlockHeight)
clamp_to_boundary range shutdown_height =
    let end : BlockHeight = elim shutdown_height [ none ↦ range.end | some h ↦ min h range.end ] in
    if leb end range.start
    then stop end
    else if ltb end range.end
    then continue (some end)
    else continue none

-- The guard of `scan_block`: the height is not to be scanned.
unfoldable pub is_beyond : Option BlockHeight → BlockHeight → Bool
is_beyond none height = false
is_beyond (some h) height = leb h height

module _
    {Wallet View Tree Block Queued Decrypted Nullifiers Account Address Scope Metadata
      Scanned : Type 0}
    (db : Scanner Wallet View Tree Block Queued Decrypted Nullifiers Account Address Scope Metadata
      Scanned)
    (view : View) where
  -- What stands behind the clamping: `end` is where the scanning stops, `boundary` what is reported then.
  unfoldable pub scan_clamped :
      BlockHeight
      → BlockHeight
      → Option BlockHeight
      → Wallet
      → Result SyncError (Wallet × ControlFlow BlockHeight (Unit {0}))
  scan_clamped start end boundary w =
      map_err chain (db.tree_state_as_of view (db.previous start)) >>= λ found. elim found [
        | some from_state ↦ scan_from db view from_state start end w >>= λ w'.
            ok (w', elim boundary [ none ↦ continue tt | some h ↦ stop h ])
        | none ↦ map_err chain (db.tip_height view) >>= λ tip. ok (w, continue tt)
      ]

  unfoldable pub scan_blocks :
      Range
      → Option BlockHeight
      → Wallet
      → Result SyncError (Wallet × ControlFlow BlockHeight (Unit {0}))
  unfolding clamp_to_boundary scan_clamped
  scan_blocks range shutdown_height w = elim (clamp_to_boundary range shutdown_height) [
    | stop end ↦ ok (w, stop end)
    | continue (some end) ↦ scan_clamped range.start end (some end) w
    | continue none ↦ scan_clamped range.start range.end none w
  ]
