-- ===== src/Sync/Locator/Heights.antt =====
-- The heights of a locator descend from the tip to the depth floor.
use native.Mathlib.Nat.{pow-suc, suc-add, sub-zero}
use mathlib.Core.Path.{subst}
use zallet.Prelude.{
  ℕ, suc, zero, ◌+◌, ◌-◌, ◌*◌, ◌^◌, ◌≤◌, ◌<◌, true, List, [], ◌∷◌, ◌++◌, Option, none, some, ◌≡◌,
  refl, arith, inl, inr, ◌∙◌, ap, ltb, leb, Bool-cases,
}
use zallet.Sync.{BlockHeight}
use zallet.Sync.Locator.{
  max_locator_depth, successors, checked_subs, take_above, locator_block_heights,
}

-- Each element is above the one before it, the first above `p`.
abbrev Ascends : ℕ → List ℕ → Type 0
Ascends p [] = Unit {0}
Ascends p (x ∷ xs) = (p < x) × Ascends x xs

-- Each element is below the one before it, the first below `p`.
abbrev pub Descends : ℕ → List ℕ → Type 0
Descends p [] = Unit {0}
Descends p (x ∷ xs) = (x < p) × Descends x xs

abbrev pub IsDecreasing : List ℕ → Type 0
IsDecreasing [] = Unit {0}
IsDecreasing (x ∷ xs) = Descends x xs

abbrev pub first : List ℕ → Option ℕ
first [] = none
first (x ∷ _) = some x

unfoldable pub last : List ℕ → Option ℕ
last [] = none
last (x ∷ xs) = elim xs [ [] ↦ some x | y ∷ ys ↦ last xs ]

successors-Ascends : (k p step : ℕ) → p < step → Ascends p (successors k step)
unfolding successors
successors-Ascends zero p step h = tt
successors-Ascends (suc k) p step h = ground (arith, successors-Ascends k step (step * 2))

Ascends-weaken : (p q : ℕ) (xs : List ℕ) → p ≤ q → Ascends q xs → Ascends p xs
Ascends-weaken p q [] h a = tt
Ascends-weaken p q (x ∷ xs) h (a, rest) = (omega (arith, h, a), rest)

checked_subs-Descends :
    (tip p : ℕ) (steps : List ℕ)
    → p ≤ tip
    → Ascends p steps
    → Descends (tip - p) (checked_subs tip steps)
unfolding checked_subs
checked_subs-Descends tip p [] h a = tt
checked_subs-Descends tip p (step ∷ steps) h (a, rest) = elim (Bool-cases (leb step tip)) [
  | inl fits ↦
      rw (fits, checked_subs)
        (ground arith, checked_subs-Descends tip step steps (ground arith) rest)
  | inr over ↦
      rw (over, checked_subs)
        (checked_subs-Descends tip p steps h (Ascends-weaken p step steps (omega (arith, a)) rest))
]

take_above-Descends :
    (low p : ℕ) (heights : List ℕ)
    → low < p
    → Descends p heights
    → Descends p (take_above low heights ++ (low ∷ []))
unfolding take_above
take_above-Descends low p [] h d = (h, tt)
take_above-Descends low p (x ∷ xs) h (d, ds) = elim (Bool-cases (ltb low x)) [
  | inl above ↦ rw (above, take_above) (d, take_above-Descends low x xs (ground arith) ds)
  | inr below ↦ rw (below, take_above) (h, tt)
]

last-snoc : (xs : List ℕ) (x : ℕ) → last (xs ++ (x ∷ [])) ≡ some x
unfolding last
last-snoc [] x = refl
last-snoc (y ∷ []) x = refl
last-snoc (y ∷ z ∷ xs) x = last-snoc (z ∷ xs) x

-- Fuel above that which reaches 2^32 changes nothing.
successors_fuel :
    (k n step : ℕ) → 2 ^ 32 ≤ step * 2 ^ k → 1 ≤ k → successors (k + n) step ≡ successors k step
unfolding successors
successors_fuel zero n step h p = absurd (omega (arith, p))
successors_fuel (suc k) n step h p =
    ap (λ f. successors f step) (suc-add k n) ∙ elim (Bool-cases (ltb (step * 2) (2 ^ 32))) [
      | inl more ↦
          rw (more, successors)
            (ap (λ l. step ∷ l)
              (successors_fuel k n (step * 2)
                (omega (arith, h, ap (λ (t : ℕ). step * t) (pow-suc 2 k))) (positive k more h)))
      | inr done ↦ rw (done, successors) refl
    ]
  where
    positive : (k : ℕ) → ltb (step * 2) (2 ^ 32) ≡ true → 2 ^ 32 ≤ step * 2 ^ suc k → 1 ≤ k
    positive zero more h = absurd (ground arith)
    positive (suc k) more h = omega arith

steps_below : (tip : ℕ) → Descends tip (checked_subs tip (successors 32 1))
steps_below tip =
    subst (λ p. Descends p (checked_subs tip (successors 32 1))) (sub-zero tip)
      (checked_subs-Descends tip 0 (successors 32 1) (omega arith)
        (successors-Ascends 32 0 1 (omega arith)))

-- The heights of a locator decrease strictly, begin with the tip, and end 1000 below it, or at 0; more than 32
-- doublings of the step would change nothing.
pub locator_block_heights_lem :
    (tip : BlockHeight)
    → ((n : ℕ) → successors (32 + n) 1 ≡ successors 32 1)
      × IsDecreasing (locator_block_heights tip)
      × (first (locator_block_heights tip) ≡ some tip)
      × (last (locator_block_heights tip) ≡ some (tip - max_locator_depth))
unfolding locator_block_heights take_above
locator_block_heights_lem tip = elim (Bool-cases (ltb (tip - max_locator_depth) tip)) [
  | inl above ↦
      rw (above, take_above)
        (
          λ n. successors_fuel 32 n 1 (omega arith) (omega arith),
          take_above-Descends (tip - max_locator_depth) tip (checked_subs tip (successors 32 1))
              (ground arith) (steps_below tip),
          refl,
          last-snoc
              (tip ∷ take_above (tip - max_locator_depth) (checked_subs tip (successors 32 1)))
              (tip - max_locator_depth),
        )
  | inr genesis ↦
      rw (genesis, take_above)
        (
          λ n. successors_fuel 32 n 1 (omega arith) (omega arith),
          tt,
          ground arith,
          unfold last in refl,
        )
]
