-- ===== src/Amount/Tests.antt =====
-- The theorems on amounts, applied.
use zallet.Prelude.{
  ℕ, ◌*◌, ◌^◌, ◌≤◌, Bool, true, false, List, [], ◌∷◌, Option, none, some, Result, ok, err, ◌≡◌,
  refl, arith, inr, if◌then◌else◌, leb,
}
use zallet.Prelude.Int.{ℤ, pos, negsuc}
use zallet.Amount.{
  upper_bound, parse_fixed_point, parse_sign, parse_whole, parse_fraction, parse_exponent,
  exponent_sign, is_nonempty, finalize, whole_digits, fraction_digits, exponent_digits,
  process_mantissa_digit, shift, apply_exponent, scale, signed,
}
use zallet.Amount.Digits.{number_from}
use zallet.Amount.Scale.{abs}
use zallet.Amount.Literals.{Literal, absent, given, minus, IsLiteral, print, digits_value}
use zallet.Amount.Decimal.{Denotes, parse_fixed_point-exact, parse_fixed_point-accepts}
use zallet.Amount.Values.{
  JsonValue, string, number, BalanceError, overflow, underflow, zatoshis_from_value, zec_str,
}
use zallet.Amount.Values.Laws.{zatoshis_from_value-zec_str}

-- "-12.50e-1"
abbrev scientific : Literal
scientific = record {
  negative = true;
  whole = 1 ∷ 2 ∷ [];
  fraction = 5 ∷ 0 ∷ [];
  exponent = given false minus (1 ∷ []);
}

scientific-IsLiteral : IsLiteral scientific
scientific-IsLiteral = record {
  whole = (omega arith, (omega arith, tt));
  fraction = (omega arith, (omega arith, tt));
  exponent = (omega arith, tt);
}

scientific_parsed : parse_fixed_point (print scientific) (pos 8) ≡ some (negsuc 124999999)
unfolding parse_fixed_point print parse_sign parse_whole parse_fraction parse_exponent exponent_sign
    is_nonempty finalize whole_digits fraction_digits exponent_digits process_mantissa_digit shift
    apply_exponent scale signed zallet.Prelude.Int.◌+ℤ◌ zallet.Prelude.Int.◌-ℤ◌
    zallet.Prelude.Int.◌*ℤ◌
scientific_parsed = refl

parse_fixed_point-exact_example :
    (n : ℕ) × (negsuc 124999999 ≡ signed true n)
    × Denotes scientific 8 n
    × (abs (negsuc 124999999) ≤ upper_bound)
parse_fixed_point-exact_example =
    parse_fixed_point-exact scientific 8 (negsuc 124999999) scientific-IsLiteral scientific_parsed

-- "0.50"
abbrev half : Literal
half = record { negative = false; whole = 0 ∷ []; fraction = 5 ∷ 0 ∷ []; exponent = absent }

half-IsLiteral : IsLiteral half
half-IsLiteral = record { whole = refl; fraction = (omega arith, (omega arith, tt)); exponent = tt }

half_fits : digits_value half * 10 ^ 6 ≤ upper_bound
unfolding number_from
half_fits = omega arith

parse_fixed_point-accepts_example :
    parse_fixed_point (print half) (pos 8) ≡ some (signed false (digits_value half * 10 ^ 6))
parse_fixed_point-accepts_example =
    parse_fixed_point-accepts half 8 half-IsLiteral refl (omega arith) (omega arith) half_fits

-- Amounts as numbers, as zcash_protocol has them.
abbrev max_money : ℕ
max_money = 2100000000000000

abbrev from_nonnegative_i64 : ℤ → Result BalanceError ℕ
from_nonnegative_i64 (pos n) = if leb n max_money then ok n else err overflow
from_nonnegative_i64 (negsuc n) = err underflow

keeps : (z : ℤ) (v : ℕ) → from_nonnegative_i64 z ≡ ok v → z ≡ pos v
keeps (pos n) v h = ground arith
keeps (negsuc n) v h = cc

takes : (n : ℕ) → n ≤ max_money → (v : ℕ) × (from_nonnegative_i64 (pos n) ≡ ok v)
takes n h = (n, ground arith)

zatoshis_from_value-zec_str_example :
    (v : ℕ) × (zatoshis_from_value from_nonnegative_i64 (string (zec_str 150000001)) ≡ ok v)
    × (v ≡ 150000001)
zatoshis_from_value-zec_str_example =
    zatoshis_from_value-zec_str ℕ from_nonnegative_i64 (λ v. v) max_money keeps takes 150000001
      (omega arith) (omega arith)

half_taken : zatoshis_from_value from_nonnegative_i64 (number (print half)) ≡ ok 50000000
unfolding zatoshis_from_value zallet.Amount.Values.amount_text parse_fixed_point print parse_sign
    parse_whole parse_fraction parse_exponent exponent_sign is_nonempty finalize whole_digits
    fraction_digits exponent_digits process_mantissa_digit shift apply_exponent scale signed
    zallet.Prelude.Int.◌+ℤ◌ zallet.Prelude.Int.◌-ℤ◌ zallet.Prelude.Int.◌*ℤ◌
half_taken = refl
