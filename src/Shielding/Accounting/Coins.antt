-- ===== src/Shielding/Accounting/Coins.antt =====
-- Amounts of at most two coins, for the tests.
use zallet.Prelude.{ℕ, ◌+◌, ◌≤◌, Option, none, some, ◌≡◌, refl, arith}
use zallet.Shielding.Accounting.{Amounts}
use zallet.Shielding.Accounting.Totals.{AreChecked}

-- At most two coins.
pub data Coins : Type 0 where
  no_coin one two : Coins

abbrev pub number_of : Coins → ℕ
number_of no_coin = 0
number_of one = 1
number_of two = 2

abbrev pub plus : Coins → Coins → Option Coins
plus no_coin b = some b
plus one no_coin = some one
plus one one = some two
plus two no_coin = some two
plus _ _ = none

abbrev pub minus : Coins → Coins → Option Coins
minus a no_coin = some a
minus one one = some no_coin
minus two one = some one
minus two two = some no_coin
minus _ _ = none

abbrev pub coins : Amounts Coins
coins = record { zero_value = no_coin; add = plus; sub = minus; into_u64 = number_of }

plus-some : (a b : Coins) → number_of a + number_of b ≤ 2 → (c : Coins) × (plus a b ≡ some c)
plus-some no_coin b h = (b, refl)
plus-some one no_coin h = (one, refl)
plus-some one one h = (two, refl)
plus-some one two h = absurd (omega arith)
plus-some two no_coin h = (two, refl)
plus-some two one h = absurd (omega arith)
plus-some two two h = absurd (omega arith)

minus-some : (a b : Coins) → number_of b ≤ number_of a → (c : Coins) × (minus a b ≡ some c)
minus-some no_coin no_coin h = (no_coin, refl)
minus-some no_coin one h = absurd (omega arith)
minus-some no_coin two h = absurd (omega arith)
minus-some one no_coin h = (one, refl)
minus-some one one h = (no_coin, refl)
minus-some one two h = absurd (omega arith)
minus-some two no_coin h = (two, refl)
minus-some two one h = (one, refl)
minus-some two two h = (no_coin, refl)

pub coins-AreChecked : AreChecked coins 2
coins-AreChecked = record {
  zero_lem = refl;
  bounded = λ a. ground arith;
  injective = λ a b h. ground arith;
  added = λ a b c h. ground arith;
  adds = plus-some;
  subtracted = λ a b c h. ground arith;
  subtracts = minus-some;
}
