-- ===== src/Amount/Decimal.antt =====
-- What `parse_fixed_point` computes on decimal literals: exact results, and plain decimals accepted.
use native.Mathlib.Nat.{pow-le-pow_right}
use native.Mathlib.Decide.{dec_le}
use zallet.Prelude.{
  false, ℕ, suc, zero, ◌+◌, ◌-◌, ◌*◌, ◌^◌, ◌≤◌, ◌<◌, some, ◌≡◌, refl, arith, length, inl, inr, sym,
  ◌∙◌, ap, ◌⊎◌,
}
use zallet.Prelude.Int.{ℤ, pos}
use zallet.Amount.{Mantissa, upper_bound, signed, finalize, parse_fixed_point}
use zallet.Amount.Digits.{number, number_from, number_from-ge, le-mul_pow}
use zallet.Amount.Scale.{abs, pow-add, exponent_up, exponent_down, finalize_exact, finalize_room}
use zallet.Amount.Literals.{
  Literal, absent, IsLiteral, print, digits_value, is_minus, exponent_value,
}
use zallet.Amount.Exact.{parse_fixed_point-Outcome}

-- `l · 10 ^ decimals` is the whole number `n`, with the powers of ten moved to the side where they are not negative.
abbrev pub Denotes : Literal → ℕ → ℕ → Type 0
Denotes l decimals n =
    n * 10 ^ (length l.fraction + exponent_down (is_minus l.exponent) (exponent_value l.exponent))
    ≡ digits_value l
      * 10 ^ (decimals + exponent_up (is_minus l.exponent) (exponent_value l.exponent))

-- If the text of a decimal literal parses, then to a number whose absolute value is at most
-- 10^18 - 1, and which is exactly the literal times 10 to the decimals, with the literal's sign: the
-- text is never rounded.
pub parse_fixed_point-exact :
    (l : Literal) (decimals : ℕ) (z : ℤ)
    → IsLiteral l
    → parse_fixed_point (print l) (pos decimals) ≡ some z
    → (n : ℕ) × (z ≡ signed l.negative n) × Denotes l decimals n × (abs z ≤ upper_bound)
parse_fixed_point-exact l decimals z w h = elim (parse_fixed_point-Outcome l (pos decimals) w) [
  | inl (refused, _) ↦ cc (h, refused)
  | inr (s, computed, same, _) ↦
      let (n, is, exact, fits) =
        finalize_exact l.negative s (length l.fraction) (is_minus l.exponent)
          (exponent_value l.exponent) decimals z (sym computed ∙ h) in
      (
        n,
        is,
        exact
            ∙ ap
                (λ (t : ℕ).
                  t
                  * 10 ^ (decimals + exponent_up (is_minus l.exponent) (exponent_value l.exponent)))
                same,
        fits,
      )
]

-- The power of ten left over is below 18 when the scaled number is in range.
small_scale : (m k : ℕ) → 1 ≤ m → m * 10 ^ k ≤ upper_bound → k < 18
small_scale m k h fits = elim (dec_le 18 k) [
  | yes large ↦
      absurd (omega (arith, pow-le-pow_right {n = 10} (omega arith) large, mul-le (10 ^ k) h))
  | no small ↦ omega (arith, small)
]
  where
    mul-le : (n : ℕ) → 1 ≤ m → n ≤ m * n
    mul-le n h = grind (arith, h)

zero_or_positive : (m : ℕ) → (m ≡ 0) ⊎ (1 ≤ m)
zero_or_positive zero = inl refl
zero_or_positive (suc m) = inr (omega arith)

-- A literal with no exponent, with no more digits behind the point than there are decimals (fewer
-- than 18), and whose value in the smallest unit is at most 10^18 - 1, parses to that value.
pub parse_fixed_point-accepts :
    (l : Literal) (decimals : ℕ)
    → IsLiteral l
    → l.exponent ≡ absent
    → decimals < 18
    → length l.fraction ≤ decimals
    → digits_value l * 10 ^ (decimals - length l.fraction) ≤ upper_bound
    → parse_fixed_point (print l) (pos decimals)
      ≡ some (signed l.negative (digits_value l * 10 ^ (decimals - length l.fraction)))
parse_fixed_point-accepts l decimals w plain small short fits =
    elim (parse_fixed_point-Outcome l (pos decimals) w) [
      | inl (_, inl big) ↦ absurd (omega (arith, big, fits, le-mul_pow (digits_value l) up))
      | inl (_, inr big) ↦ absurd (omega (arith, big, ap exponent_value plain))
      | inr (s, computed, same, zeros) ↦ computed ∙ all_in s same zeros
    ]
  where
    up : ℕ
    up = decimals - length l.fraction

    regroup :
        (s : Mantissa)
        → number s ≡ digits_value l
        → s.mantissa * 10 ^ (s.tzeros + up) ≡ digits_value l * 10 ^ up
    regroup s same = omega (
      arith,
      ap (λ (t : ℕ). s.mantissa * t) (pow-add s.tzeros up),
      ap (λ (t : ℕ). t * 10 ^ up) same,
    )

    in_range :
        (s : Mantissa)
        → number s ≡ digits_value l
        → (number_from 0 l.whole ≡ 0 → s.tzeros ≤ length l.fraction)
        → s.tzeros + up < 18
    in_range s same zeros = elim (zero_or_positive s.mantissa) [
      | inl z ↦
          let none_whole : number_from 0 l.whole ≡ 0 = omega (
            arith,
            same,
            ap (λ (t : ℕ). t * 10 ^ s.tzeros) z,
            number_from-ge (number_from 0 l.whole) l.fraction,
          ) in
          omega (arith, zeros none_whole)
      | inr p ↦ small_scale s.mantissa (s.tzeros + up) p (omega (arith, regroup s same))
    ]

    all_in :
        (s : Mantissa)
        → number s ≡ digits_value l
        → (number_from 0 l.whole ≡ 0 → s.tzeros ≤ length l.fraction)
        → finalize l.negative s
            (length l.fraction)
            (is_minus l.exponent)
            (exponent_value l.exponent)
            (pos decimals)
          ≡ some (signed l.negative (digits_value l * 10 ^ up))
    all_in s same zeros = rw plain (
        finalize_room l.negative s (length l.fraction) false 0 decimals (s.tzeros + up)
          (omega arith) (in_range s same zeros) (omega (arith, regroup s same))
        ∙ ap (λ (t : ℕ). some (signed l.negative t)) (regroup s same))
