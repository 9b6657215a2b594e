-- ===== src/Sync/Rewind/Locate.antt =====
-- `locate_fork_point` always returns, and where from.
use zallet.Prelude.{
  suc, List, [], ◌∷◌, Option, none, some, Result, ok, Eq, ◌≡◌, refl, arith, inl, inr, ◌⊎◌,
}
use zallet.Sync.{BlockHeight, ChainBlock, ChainError, SyncError}
use zallet.Sync.Locator.{locator_block_heights, build_block_locator}
use zallet.Sync.Locator.Build.{hashes_at, build_block_locator_lem}
use zallet.Sync.Rewind.{locate_fork_point}
use zallet.Sync.Rewind.Probes.{WalksTo, step_back_to_best_chain_lem}

module _ {BlockHash : Type 0} ⦃e : Eq BlockHash⦄
    (find_fork_point : List BlockHash → Result ChainError (Option (ChainBlock BlockHash)))
    (get_block_header : BlockHeight → Result ChainError (Option BlockHash))
    (get_wallet_birthday : Result SyncError (Option BlockHeight))
    (get_block_hash : BlockHeight → Result SyncError (Option BlockHash))
    (best : BlockHeight → Option BlockHash) (recorded : BlockHeight → Option BlockHash)
    -- The chain view and the wallet's database answer.
    (served : (height : BlockHeight) → get_block_header height ≡ ok (best height))
    (readable : (height : BlockHeight) → get_block_hash height ≡ ok (recorded height))
    (prev_tip : ChainBlock BlockHash) where
  abbrev own_locator : List BlockHash
  own_locator = hashes_at recorded (locator_block_heights prev_tip.height)

  -- What the answer of the chain view leads to.
  abbrev pub Located :
      BlockHeight → Option (ChainBlock BlockHash) → Result SyncError (ChainBlock BlockHash) → Type 0
  Located birthday (some fork_point) r = r ≡ ok fork_point
  Located birthday none r =
      ((own_locator ≡ []) × (r ≡ ok prev_tip)) ⊎ WalksTo best recorded birthday prev_tip.height r

  locator_ok : build_block_locator get_block_hash prev_tip.height ≡ ok (some own_locator)
  locator_ok = build_block_locator_lem get_block_hash recorded readable prev_tip.height

  List-cases :
      (xs : List BlockHash)
      → (xs ≡ []) ⊎ ((x : BlockHash) × (rest : List BlockHash) × (xs ≡ x ∷ rest))
  List-cases [] = inl refl
  List-cases (x ∷ rest) = inr (x, rest, refl)

  -- If the view and the database answer and the wallet has a birthday, `locate_fork_point` returns,
  -- without a panic: the fork point that the view finds; if it finds none, the chain pointer (only with
  -- an empty locator), or what the walk back along the wallet's blocks leads to.
  pub locate_fork_point_lem :
      (birthday : BlockHeight) (answer : Option (ChainBlock BlockHash))
      → get_wallet_birthday ≡ ok (some birthday)
      → find_fork_point own_locator ≡ ok answer
      → (r : Result SyncError (ChainBlock BlockHash)) × (locate_fork_point find_fork_point
            get_block_header get_wallet_birthday get_block_hash prev_tip
          ≡ some r)
        × Located birthday answer r
  unfolding locate_fork_point
  locate_fork_point_lem birthday (some fork_point) b f =
      (ok fork_point, rw (b, locate_fork_point) (rw (locator_ok, f) refl), refl)
  locate_fork_point_lem birthday none b f = elim (List-cases own_locator) [
    | inl fresh ↦
        (ok prev_tip, rw (b, locate_fork_point) (rw (locator_ok, f, fresh) refl), inl (fresh, refl))
    | inr (x, rest, some_hashes) ↦
        let (r, returned, walks) =
          step_back_to_best_chain_lem get_block_header get_block_hash best recorded served readable
            birthday (suc prev_tip.height) prev_tip.height (omega arith) in
        (r, rw (b, locate_fork_point) (rw (locator_ok, f, some_hashes) returned), inr walks)
  ]
