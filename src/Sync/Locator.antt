-- ===== src/Sync/Locator.antt =====
-- Block locators (zallet/src/components/sync/locator.rs; `BlockLocator` of zallet/src/components/chain.rs).
pub mod Heights
pub mod Build
use mathlib.Core.Option
use zallet.Prelude.{
  ℕ, suc, zero, ◌+◌, ◌-◌, ◌*◌, ◌^◌, Bool, List, [], ◌∷◌, ◌++◌, Option, none, some, Result, ok, err,
  ◌>>=◌, if◌then◌else◌, ltb, leb,
}
use zallet.Sync.{BlockHeight, ChainBlock, SyncError}

abbrev pub max_locator_depth : ℕ
max_locator_depth = 1000

-- `successors(Some(step), |step| step.checked_mul(2))` on u32, with fuel.
unfoldable pub successors : ℕ → ℕ → List ℕ
successors zero step = []
successors (suc k) step =
    let rest = successors k (step * 2) in if ltb (step * 2) (2 ^ 32) then step ∷ rest else step ∷ []

-- `flat_map(|step| tip.checked_sub(step))`.
unfoldable pub checked_subs : ℕ → List ℕ → List ℕ
checked_subs tip [] = []
checked_subs tip (step ∷ steps) =
    let rest = checked_subs tip steps in if leb step tip then (tip - step) ∷ rest else rest

-- `take_while(|&height| height > min)`.
unfoldable pub take_above : ℕ → List ℕ → List ℕ
take_above low [] = []
take_above low (height ∷ heights) =
    let rest = take_above low heights in if ltb low height then height ∷ rest else []

unfoldable pub locator_block_heights : BlockHeight → List BlockHeight
locator_block_heights tip =
    let low : ℕ = tip - max_locator_depth in
    take_above low (tip ∷ checked_subs tip (successors 32 1)) ++ (low ∷ [])

-- The loop of `BlockLocator::from_blocks`; `none` is the panic of its assertion.
unfoldable pub from_blocks_behind :
    {BlockHash : Type 0}
    → Option BlockHeight
    → List (ChainBlock BlockHash)
    → Option (List BlockHash)
from_blocks_behind prev_height [] = some []
from_blocks_behind prev_height (block ∷ blocks) =
    let rest = from_blocks_behind (some block.height) blocks in
    elim prev_height [
      | none ↦ Option.map (λ hashes. block.hash ∷ hashes) rest
      | some prev ↦
          if ltb block.height prev then Option.map (λ hashes. block.hash ∷ hashes) rest else none
    ]

unfoldable pub from_blocks :
    {BlockHash : Type 0} → List (ChainBlock BlockHash) → Option (List BlockHash)
from_blocks = from_blocks_behind none

-- The loop of `build_block_locator`, over the heights left.
unfoldable pub known_blocks :
    {BlockHash : Type 0}
    → (BlockHeight → Result SyncError (Option BlockHash))
    → List BlockHeight
    → Result SyncError (List (ChainBlock BlockHash))
known_blocks get_block_hash [] = ok []
known_blocks get_block_hash (height ∷ heights) =
    let later = known_blocks get_block_hash heights in
    do
      found ← get_block_hash height
      blocks ← later
      ok (elim found [
        | none ↦ blocks
        | some hash ↦ record { height = height; hash = hash } ∷ blocks
      ])

unfoldable pub build_block_locator :
    {BlockHash : Type 0}
    → (BlockHeight → Result SyncError (Option BlockHash))
    → BlockHeight
    → Result SyncError (Option (List BlockHash))
build_block_locator get_block_hash tip = do
  blocks ← known_blocks get_block_hash (locator_block_heights tip)
  ok (from_blocks blocks)
