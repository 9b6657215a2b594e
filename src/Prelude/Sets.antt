-- ===== src/Prelude/Sets.antt =====
-- Equality as an interface, and sets as lists without repetitions (Rust's `HashSet`, where only
-- membership and size are read).
use mathlib.Core.Path.{◌≡◌, refl}
use mathlib.Core.Bool.{Bool, true, false, ◌||◌}
use mathlib.Core.Logic.{◌↔◌, ◌≢◌, inl, inr, ◌⊎◌}
use mathlib.Core.List.{List, [], ◌∷◌}
use Prim.Native.Nat.{◌<◌}
use native.Mathlib.Omega.{arith}
use zallet.Prelude.Tests.{if◌then◌else◌, Bool-cases}
use zallet.Prelude.Lists.{length}

-- `PartialEq` of a type whose `==` is equality.
pub record Eq {ℓ} (A : Type ℓ) : Type ℓ where
  pub beq : A → A → Bool
  pub beq_iff : (a b : A) → (beq a b ≡ true) ↔ (a ≡ b)

module _ {ℓ} {A : Type ℓ} ⦃e : Eq A⦄ where
  unfoldable pub contains : List A → A → Bool
  contains [] a = false
  contains (x ∷ xs) a = e.beq x a || contains xs a

  -- `HashSet::insert`, without its result: that is `not (contains set a)`.
  unfoldable pub insert : A → List A → List A
  unfolding contains
  insert a set = if contains set a then set else a ∷ set

  -- `collect::<HashSet<_>>()`.
  unfoldable pub collect : List A → List A
  unfolding insert
  collect [] = []
  collect (a ∷ more) = insert a (collect more)

  -- Some element differs from `a`; some element differs from the first.
  abbrev pub differs : A → List A → Bool
  differs a [] = false
  differs a (x ∷ xs) = if e.beq a x then differs a xs else true

  abbrev pub has_two : List A → Bool
  has_two [] = false
  has_two (a ∷ xs) = differs a xs

  beq_self : (a : A) → e.beq a a ≡ true
  beq_self a = (e.beq_iff a a).1 refl

  pub contains-insert :
      (a b : A) (s : List A) → contains (insert a s) b ≡ (e.beq a b || contains s b)
  unfolding insert contains
  contains-insert a b s = ground (arith, e.beq_iff a b)

  pub contains-collect : (b : A) (s : List A) → contains (collect s) b ≡ contains s b
  unfolding collect contains
  contains-collect b [] = refl
  contains-collect b (x ∷ s) = rw (contains-insert x b (collect s), contains-collect b s)

  length_pos : (a : A) (s : List A) → contains s a ≡ true → 0 < length s
  unfolding contains
  length_pos a [] h = cc
  length_pos a (x ∷ s) h = omega arith

  length_two :
      (a b : A) (s : List A) → a ≢ b → contains s a ≡ true → contains s b ≡ true → 1 < length s
  unfolding contains
  length_two a b [] n h k = cc
  length_two a b (x ∷ s) n h k =
      ground (arith, e.beq_iff x a, e.beq_iff x b, length_pos a s, length_pos b s)

  differs→two :
      (a : A) (xs s : List A)
      → contains s a ≡ true
      → ((b : A) → contains xs b ≡ true → contains s b ≡ true)
      → differs a xs ≡ true
      → 1 < length s
  unfolding contains
  differs→two a [] s h k d = cc
  differs→two a (x ∷ xs) s h k d = elim (Bool-cases (e.beq a x)) [
    | inl same ↦ differs→two a xs s h (λ b m. k b (ground (arith, m))) (ground arith)
    | inr other ↦
        length_two a x s (λ p. cc (other, (e.beq_iff a x).1 p)) h (k x (ground (arith, beq_self x)))
  ]

  collect_same :
      (a : A) (xs : List A) → differs a xs ≡ false → (collect xs ≡ []) ⊎ (collect xs ≡ a ∷ [])
  unfolding collect insert contains
  collect_same a [] h = inl refl
  collect_same a (x ∷ xs) h = ground (arith, collect_same a xs, e.beq_iff a x, beq_self a)

  -- A set collected from a list has two members or more exactly if the list has two different
  -- elements.
  pub length-collect_iff : (xs : List A) → (1 < length (collect xs)) ↔ (has_two xs ≡ true)
  length-collect_iff [] = (λ h. unfold collect in ground arith, λ h. cc)
  length-collect_iff (a ∷ xs) = (
    λ h. elim (Bool-cases (differs a xs)) [ inl e ↦ e | inr e ↦ absurd (single e h) ],
    λ h.
        differs→two a xs (collect (a ∷ xs))
          (rw contains-collect (unfold contains in ground (arith, beq_self a)))
          (λ b m. rw contains-collect (unfold contains in ground (arith, m))) h,
  )
    where
      single : differs a xs ≡ false → 1 < length (collect (a ∷ xs)) → ⊥
      single e h = unfold collect insert contains in ground (arith, collect_same a xs e, beq_self a)
