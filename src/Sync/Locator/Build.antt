-- ===== src/Sync/Locator/Build.antt =====
-- Building a locator: `from_blocks` accepts what `build_block_locator` hands it.
use mathlib.Core.Option
use zallet.Prelude.{
  ℕ, ◌≤◌, true, List, [], ◌∷◌, Option, none, some, Result, ok, ◌≡◌, refl, arith, inl, inr, ap, ltb,
  Option-cases,
}
use zallet.Sync.{BlockHeight, ChainBlock, SyncError}
use zallet.Sync.Locator.{
  locator_block_heights, from_blocks_behind, from_blocks, known_blocks, build_block_locator,
}
use zallet.Sync.Locator.Heights.{Descends, IsDecreasing, locator_block_heights_lem}

-- The hashes that a wallet has at the heights, in their order.
unfoldable pub hashes_at :
    {BlockHash : Type 0} → (BlockHeight → Option BlockHash) → List BlockHeight → List BlockHash
hashes_at hash_at [] = []
hashes_at hash_at (height ∷ heights) =
    let later = hashes_at hash_at heights in
    elim (hash_at height) [ none ↦ later | some hash ↦ hash ∷ later ]

Descends-weaken : (p q : ℕ) (heights : List ℕ) → p ≤ q → Descends p heights → Descends q heights
Descends-weaken p q [] h d = tt
Descends-weaken p q (x ∷ xs) h (d, rest) = (omega (arith, h, d), rest)

module _ {BlockHash : Type 0} (get_block_hash : BlockHeight → Result SyncError (Option BlockHash))
    (hash_at : BlockHeight → Option BlockHash)
    -- The wallet's database answers.
    (readable : (height : BlockHeight) → get_block_hash height ≡ ok (hash_at height)) where
  blocks_at : List BlockHeight → List (ChainBlock BlockHash)
  blocks_at [] = []
  blocks_at (height ∷ heights) =
      let later = blocks_at heights in
      elim (hash_at height) [
        | none ↦ later
        | some hash ↦ record { height = height; hash = hash } ∷ later
      ]

  known_blocks_lem :
      (heights : List BlockHeight) → known_blocks get_block_hash heights ≡ ok (blocks_at heights)
  unfolding known_blocks blocks_at
  known_blocks_lem [] = refl
  known_blocks_lem (x ∷ xs) = elim (Option-cases (hash_at x)) [
    | inl e ↦ rw (readable x, known_blocks_lem xs, e, blocks_at) refl
    | inr (hash, e) ↦ rw (readable x, known_blocks_lem xs, e, blocks_at) refl
  ]

  accepted_behind :
      (p : BlockHeight) (heights : List BlockHeight)
      → Descends p heights
      → from_blocks_behind (some p) (blocks_at heights) ≡ some (hashes_at hash_at heights)
  unfolding from_blocks_behind blocks_at hashes_at
  accepted_behind p [] d = refl
  accepted_behind p (x ∷ xs) (d, rest) = elim (Option-cases (hash_at x)) [
    | inl e ↦
        rw (e, blocks_at, hashes_at)
          (accepted_behind p xs (Descends-weaken x p xs (omega (arith, d)) rest))
    | inr (hash, e) ↦
        let below : ltb x p ≡ true = ground arith in
        rw (e, blocks_at, hashes_at) (rw (below, accepted_behind x xs rest) refl)
  ]

  accepted :
      (heights : List BlockHeight)
      → IsDecreasing heights
      → from_blocks (blocks_at heights) ≡ some (hashes_at hash_at heights)
  unfolding from_blocks from_blocks_behind blocks_at hashes_at
  accepted [] d = refl
  accepted (x ∷ []) d = elim (Option-cases (hash_at x)) [
    | inl e ↦ rw (e, blocks_at, hashes_at) refl
    | inr (hash, e) ↦ rw (e, blocks_at, hashes_at) refl
  ]
  accepted (x ∷ y ∷ ys) (d, rest) = elim (Option-cases (hash_at x)) [
    | inl e ↦ rw (e, blocks_at, hashes_at) (accepted (y ∷ ys) rest)
    | inr (hash, e) ↦
        rw (e, blocks_at, hashes_at)
          (ap (Option.map (λ l. hash ∷ l)) (accepted_behind x (y ∷ ys) (d, rest)))
  ]

  -- If the database answers, building a locator does not panic, and the locator is the hashes that the
  -- wallet has at the locator heights, in their order.
  pub build_block_locator_lem :
      (tip : BlockHeight)
      → build_block_locator get_block_hash tip
        ≡ ok (some (hashes_at hash_at (locator_block_heights tip)))
  unfolding build_block_locator
  build_block_locator_lem tip =
      rw known_blocks_lem
        (ap ok (accepted (locator_block_heights tip) (locator_block_heights_lem tip).1))
