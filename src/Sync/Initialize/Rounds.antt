-- ===== src/Sync/Initialize/Rounds.antt =====
-- The rounds of `initialize`: those that scan, and the one that ends it.

use zallet.Prelude.{
  ℕ, suc, zero, ◌<◌, Bool-cases, false, ltb, List, Option, none, some, Option-cases, ok, map_err,
  bind-ok, map_err-ok, ok_injective, ◌≡◌, ◌⊎◌, inl, inr, sym, ap, ◌∙◌, arith,
}
use zallet.Sync.{BlockHeight, ChainBlock, chain}
use zallet.Sync.Steady.{update_boundary}
use zallet.Sync.Scanning.{Scanner, scan_from, scan_blocks}
use zallet.Sync.History.Batches.{IsFirst}
use zallet.Sync.History.{ScanRange}
use zallet.Sync.Initialize.Settled.{AreSettled}
use zallet.Sync.Initialize.{Priorities, Startup, to_verify, attempt, scan_tip}

module _ {Wallet View Block BlockHash Roots : Type 0}
    (db : Startup Wallet View Block BlockHash Roots) (minus_100 : BlockHeight → BlockHeight)
    (priorities : Priorities) (truncate_start : ScanRange → BlockHeight → Option ScanRange) where
  -- A round from a wallet that ends the loop: the tip and the boundary belong to its snapshot, and the wallet that was
  -- told of the tip suggests nothing that the other tasks could not take over.
  pub record Initialized (number : ℕ) (before w : Wallet) (current_tip : ChainBlock BlockHash)
      (boundary : BlockHeight) : Type 0 where
    pub view : View
    pub told : Wallet
    pub ranges : List ScanRange
    pub snapshot_lem : db.snapshot number ≡ ok view
    pub tip_lem : db.tip view ≡ ok current_tip
    pub boundary_lem : boundary ≡ update_boundary minus_100 0 current_tip.height
    pub told_lem : db.update_chain_tip current_tip.height before ≡ ok told
    pub ranges_lem : db.suggest_scan_ranges told ≡ ok ranges
    pub settled : AreSettled priorities boundary ranges
    pub tip_block :
        (w ≡ told)
        ⊎ ((db.has_block_metadata current_tip.height told ≡ ok false)
            × (0 < current_tip.height)
            × (w ≡ (attempt db view current_tip told).1))

  pub scan_tip-cases :
      (view : View) (current_tip : ChainBlock BlockHash) (told w : Wallet)
      → scan_tip db view current_tip told ≡ ok w
      → (w ≡ told)
        ⊎ ((db.has_block_metadata current_tip.height told ≡ ok false)
            × (0 < current_tip.height)
            × (w ≡ (attempt db view current_tip told).1))
  unfolding scan_tip
  scan_tip-cases view current_tip told w h = elim (Bool-cases (ltb 0 current_tip.height)) [
    | inr e ↦ inl (sym (ok_injective told w (rw e at h)))
    | inl e ↦
        let (known, f, g) =
          bind-ok (db.has_block_metadata current_tip.height told) _ _ (rw e at h) in
        elim (Bool-cases known) [
          | inl k ↦ inl (sym (ok_injective told w (rw k at g)))
          | inr k ↦ inr (f ∙ ap ok k, ground (arith, e), sym (ok_injective _ w (rw k at g)))
        ]
  ]

  module _ {Tree Queued Decrypted Nullifiers Account Address Scope Metadata Scanned : Type 0}
      (scanner : Scanner Wallet View Tree Block Queued Decrypted Nullifiers Account Address Scope
        Metadata Scanned) where
    -- A round that does not end the loop: of what the wallet that was told of the tip suggests, the first range that has
    -- a part to scan is scanned, or left as it is if the view does not know the state in front of it.
    pub record Scans (number : ℕ) (before w : Wallet) : Type 0 where
      pub view : View
      pub current_tip : ChainBlock BlockHash
      pub told : Wallet
      pub ranges : List ScanRange
      pub range : ScanRange
      pub snapshot_lem : db.snapshot number ≡ ok view
      pub tip_lem : db.tip view ≡ ok current_tip
      pub told_lem : db.update_chain_tip current_tip.height before ≡ ok told
      pub ranges_lem : db.suggest_scan_ranges told ≡ ok ranges
      pub is_first :
          IsFirst
            (to_verify priorities truncate_start (update_boundary minus_100 0 current_tip.height))
            ranges
            (some range)
      pub scanned_or_skipped :
          ((from_state : Tree) × (scanner.tree_state_as_of view (scanner.previous range.start)
              ≡ ok (some from_state))
            × (scan_from scanner view from_state range.start range.end told ≡ ok w))
          ⊎ ((scanner.tree_state_as_of view (scanner.previous range.start) ≡ ok none) × (w ≡ told))

    -- So many such rounds, from the one with a number on.
    pub data Rounds : ℕ → ℕ → Wallet → Wallet → Type 0 where
      no_round : (n : ℕ) (w : Wallet) → Rounds zero n w w
      one_more :
          (k n : ℕ) (w w' w'' : Wallet)
          → Scans n w w'
          → Rounds k (suc n) w' w''
          → Rounds (suc k) n w w''

    pub scan_blocks-cases :
        (view : View) (start end : BlockHeight) (told w : Wallet)
        → scan_blocks scanner view start end told ≡ ok w
        → ((from_state : Tree) × (scanner.tree_state_as_of view (scanner.previous start)
              ≡ ok (some from_state))
            × (scan_from scanner view from_state start end told ≡ ok w))
          ⊎ ((scanner.tree_state_as_of view (scanner.previous start) ≡ ok none) × (w ≡ told))
    unfolding scan_blocks
    scan_blocks-cases view start end told w h =
        let state = scanner.tree_state_as_of view (scanner.previous start) in
        let (found, e, h1) = bind-ok (map_err chain state) _ _ h in
        let e' = map_err-ok chain state found e in
        elim (Option-cases found) [
          | inl f ↦
              let (tip, g, h2) =
                bind-ok (map_err chain (scanner.tip_height view)) _ _ (rw f at h1) in
              inr (e' ∙ ap ok f, sym (ok_injective told w h2))
          | inr (from_state, f) ↦ inl (from_state, e' ∙ ap ok f, rw f at h1)
        ]
