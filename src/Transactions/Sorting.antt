-- ===== src/Transactions/Sorting.antt =====
-- A list that is sorted by a key that tells its elements apart has one order only.
use mathlib.Core.List.Perm
use mathlib.Core.List.{
  Perm, Mem, mem-cons_self, mem-cons_of_mem, eq-or-mem_of_mem-cons, not-mem-nil,
}
use mathlib.Core.Logic.Or
use native.Mathlib.Bridge.{le_prop}
use zallet.Prelude.{ℕ, List, [], ◌∷◌, Option, none, some, ◌≡◌, refl, ap, sym, ◌∙◌, arith}
use zallet.Transactions.Filter.{IsBefore, AreAscending}

module _ {A : Type 0} (key : A → Option ℕ) where
  -- Elements with the same key are the same.
  abbrev pub HasNoTies : List A → Type 0
  HasNoTies xs = (x y : A) → Mem x xs → Mem y xs → key x ≡ key y → x ≡ y

  IsBefore-IsProp : (a b : Option ℕ) → IsProp (IsBefore a b)
  IsBefore-IsProp none none = hlevel
  IsBefore-IsProp (some a) none = hlevel
  IsBefore-IsProp none (some b) = hlevel
  IsBefore-IsProp (some a) (some b) = le_prop

  IsBefore-refl : (a : Option ℕ) → IsBefore a a
  IsBefore-refl none = tt
  IsBefore-refl (some a) = omega arith

  IsBefore-trans : (a b c : Option ℕ) → IsBefore a b → IsBefore b c → IsBefore a c
  IsBefore-trans a b none h k = tt
  IsBefore-trans a none (some c) h k = absurd k
  IsBefore-trans none (some b) (some c) h k = absurd h
  IsBefore-trans (some a) (some b) (some c) h k = omega (arith, h, k)

  IsBefore-antisym : (a b : Option ℕ) → IsBefore a b → IsBefore b a → a ≡ b
  IsBefore-antisym none none h k = refl
  IsBefore-antisym (some a) none h k = absurd k
  IsBefore-antisym none (some b) h k = absurd h
  IsBefore-antisym (some a) (some b) h k = let e : a ≡ b = omega (arith, h, k) in ap some e

  AreAscending-head :
      (x z : A) (xs : List A)
      → AreAscending key (x ∷ xs)
      → Mem z (x ∷ xs)
      → IsBefore (key x) (key z)
  AreAscending-head x z [] h m =
      Or.elim (IsBefore-IsProp (key x) (key z)) (eq-or-mem_of_mem-cons m)
        (λ e. rw e (IsBefore-refl (key x))) (λ n. absurd (not-mem-nil n))
  AreAscending-head x z (y ∷ ys) (h, hs) m =
      Or.elim (IsBefore-IsProp (key x) (key z)) (eq-or-mem_of_mem-cons m)
        (λ e. rw e (IsBefore-refl (key x)))
        (λ n. IsBefore-trans (key x) (key y) (key z) h (AreAscending-head y z ys hs n))

  AreAscending-tail : (x : A) (xs : List A) → AreAscending key (x ∷ xs) → AreAscending key xs
  AreAscending-tail x [] h = tt
  AreAscending-tail x (y ∷ ys) (h, hs) = hs

  pub AreAscending-unique :
      (xs ys : List A)
      → AreAscending key xs
      → AreAscending key ys
      → Perm xs ys
      → HasNoTies xs
      → xs ≡ ys
  AreAscending-unique [] ys h k p apart = Perm.nil-eq p
  AreAscending-unique (x ∷ xs) [] h k p apart = sym (Perm.nil-eq (Perm.symm p))
  AreAscending-unique (x ∷ xs) (y ∷ ys) h k p apart =
      let y_in = (Perm.mem_iff p).1 mem-cons_self in
      let x_in = (Perm.mem_iff p).0 mem-cons_self in
      let same_key =
        IsBefore-antisym (key x) (key y) (AreAscending-head x y xs h y_in)
          (AreAscending-head y x ys k x_in) in
      let same : x ≡ y = apart x y mem-cons_self y_in same_key in
      ap (λ z. z ∷ xs) same
      ∙ ap (λ l. y ∷ l)
          (AreAscending-unique xs ys (AreAscending-tail x xs h) (AreAscending-tail y ys k)
            (Perm.cons_inv (rw same at p))
            (λ a b m n. apart a b (mem-cons_of_mem x m) (mem-cons_of_mem x n)))
