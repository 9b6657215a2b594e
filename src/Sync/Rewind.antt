-- ===== src/Sync/Rewind.antt =====
-- Locating the block to resume from (`locate_fork_point`, `rewind_step` and `step_back_to_best_chain` of
-- zallet/src/components/sync.rs).
pub mod Probes
pub mod Locate
use zallet.Prelude.{
  ℕ, suc, zero, ◌+◌, ◌-◌, max, Bool, true, false, List, [], ◌∷◌, Option, none, some, Result, ok,
  err, ◌>>=◌, map_err, Eq, if◌then◌else◌, leb,
}
use zallet.Sync.{
  BlockHeight, ChainBlock, ChainError, SyncError, chain, wallet_diverged_below_birthday,
}
use zallet.Sync.Locator.{build_block_locator}

abbrev pub fork_search_step : ℕ
fork_search_step = 10

unfoldable pub rewind_step : BlockHeight → BlockHeight → BlockHeight × Bool
rewind_step height birthday =
    let next = max (height - fork_search_step) birthday in (next, leb next birthday)

abbrev pub is_hash : {BlockHash : Type 0} ⦃e : Eq BlockHash⦄ → Option BlockHash → BlockHash → Bool
is_hash none hash = false
is_hash {BlockHash} ⦃e⦄ (some best) hash = e.beq best hash

module _ {BlockHash : Type 0} ⦃e : Eq BlockHash⦄ where
  -- The body of the loop at a height: the block found there, if it is on the best chain. The hash of a
  -- header is read together with it.
  unfoldable pub probe :
      (BlockHeight → Result ChainError (Option BlockHash))
      → (BlockHeight → Result SyncError (Option BlockHash))
      → BlockHeight
      → Result SyncError (Option (ChainBlock BlockHash))
  probe get_block_header wallet_hash height = do
    found ← wallet_hash height
    elim found [
      | none ↦ ok none
      | some wh ↦ (do
        best_chain_hash ← map_err chain (get_block_header height)
        ok (
            if is_hash best_chain_hash wh
            then some (record { height = height; hash = wh })
            else none))
    ]

  -- The loop, on fuel: `none` is out of fuel.
  unfoldable pub step_back_to_best_chain :
      (BlockHeight → Result ChainError (Option BlockHash))
      → (BlockHeight → Result SyncError (Option BlockHash))
      → BlockHeight
      → ℕ
      → BlockHeight
      → Option (Result SyncError (ChainBlock BlockHash))
  step_back_to_best_chain get_block_header wallet_hash birthday zero height = none
  step_back_to_best_chain get_block_header wallet_hash birthday (suc k) height =
      let (next, reached_birthday) = rewind_step height birthday in
      let rest = step_back_to_best_chain get_block_header wallet_hash birthday k next in
      elim (probe get_block_header wallet_hash next) [
        | err error ↦ some (err error)
        | ok (some block) ↦ some (ok block)
        | ok none ↦
            if reached_birthday then some (err (wallet_diverged_below_birthday birthday)) else rest
      ]

  -- `none` is a panic, or a loop out of fuel.
  unfoldable pub locate_fork_point :
      (List BlockHash → Result ChainError (Option (ChainBlock BlockHash)))
      → (BlockHeight → Result ChainError (Option BlockHash))
      → Result SyncError (Option BlockHeight)
      → (BlockHeight → Result SyncError (Option BlockHash))
      → ChainBlock BlockHash
      → Option (Result SyncError (ChainBlock BlockHash))
  locate_fork_point find_fork_point get_block_header get_wallet_birthday get_block_hash prev_tip =
      elim get_wallet_birthday [
        | err error ↦ some (err error)
        | ok known ↦
            let birthday : BlockHeight = elim known [ none ↦ 0 | some height ↦ height ] in
            elim (build_block_locator get_block_hash prev_tip.height) [
              | err error ↦ some (err error)
              | ok none ↦ none
              | ok (some locator) ↦ elim (find_fork_point locator) [
                | err error ↦ some (err (chain error))
                | ok (some fork_point) ↦ some (ok fork_point)
                | ok none ↦ elim locator [
                  | [] ↦ some (ok prev_tip)
                  | _ ∷ _ ↦
                      step_back_to_best_chain get_block_header get_block_hash birthday
                        (suc prev_tip.height) prev_tip.height
                ]
              ]
            ]
      ]
