-- ===== src/Params/Ranges.antt =====
-- Which values of the parameters are accepted.
use zallet.Prelude.{ℕ, suc, zero, ◌^◌, ◌≤◌, ◌<◌, Option, none, some, ok, ◌≡◌, ◌↔◌, ◌⊎◌, refl, arith}
use zallet.Prelude.Int.{ℤ, pos, negsuc}
use zallet.Params.{parse_as_of_height, parse_minconf}

parse_as_of_height_iff :
    (given : Option ℤ) (h : ℕ)
    → ((parse_as_of_height given ≡ ok (some h)) ↔ ((given ≡ some (pos h)) × (1 ≤ h) × (h < 2 ^ 32)))
      × ((parse_as_of_height given ≡ ok none) ↔ ((given ≡ none) ⊎ (given ≡ some (negsuc 0))))
unfolding parse_as_of_height
parse_as_of_height_iff none h = ground arith
parse_as_of_height_iff (some (pos zero)) h = ground arith
parse_as_of_height_iff (some (pos (suc n))) h = ground arith
parse_as_of_height_iff (some (negsuc zero)) h = ground arith
parse_as_of_height_iff (some (negsuc (suc n))) h = ground arith

no_height : (default n : ℕ) → parse_minconf (some n) default none ≡ ok n
unfolding parse_minconf
no_height default zero = refl
no_height default (suc n) = refl

parse_minconf_lem :
    (minconf : Option ℕ) (default h : ℕ)
    → 1 ≤ default
    → ((n : ℕ) → parse_minconf minconf default (some h) ≡ ok n → 1 ≤ n)
      × ((n : ℕ) → parse_minconf (some n) default none ≡ ok n)
unfolding parse_minconf
parse_minconf_lem none default h p = (λ n e. ground arith, no_height default)
parse_minconf_lem (some zero) default h p = (λ n e. ground arith, no_height default)
parse_minconf_lem (some (suc m)) default h p = (λ n e. ground arith, no_height default)

-- A height is accepted exactly if it is given as a positive number below 2^32, and is that number;
-- the query is as of now exactly if no height is given, or -1. With a height, and a default of at
-- least one confirmation, the number of confirmations is never zero; as of now, every number is
-- accepted as it is.
parse_as_of_height-parse_minconf :
    (given : Option ℤ) (minconf : Option ℕ) (default h : ℕ)
    → 1 ≤ default
    → ((parse_as_of_height given ≡ ok (some h)) ↔ ((given ≡ some (pos h)) × (1 ≤ h) × (h < 2 ^ 32)))
      × ((parse_as_of_height given ≡ ok none) ↔ ((given ≡ none) ⊎ (given ≡ some (negsuc 0))))
      × ((n : ℕ) → parse_minconf minconf default (some h) ≡ ok n → 1 ≤ n)
      × ((n : ℕ) → parse_minconf (some n) default none ≡ ok n)
parse_as_of_height-parse_minconf given minconf default h p = (
  (parse_as_of_height_iff given h).0,
  (parse_as_of_height_iff given h).1,
  (parse_minconf_lem minconf default h p).0,
  (parse_minconf_lem minconf default h p).1,
)
