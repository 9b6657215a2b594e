-- ===== src/Amount/Exact.antt =====
-- `parse_fixed_point` on decimal literals: every result is exact, and plain decimals are accepted.

use mathlib.Core.Path.{subst}
use zallet.Prelude.{
  ℕ, suc, zero, ◌+◌, ◌*◌, ◌≤◌, ◌<◌, Bool, List, [], ◌∷◌, ◌++◌, none, some, ◌≡◌, refl, arith, length,
  inl, inr, ◌∙◌, ap, ◌⊎◌, Bool-cases, Option-cases,
}
use zallet.Prelude.Int.{ℤ}
use zallet.Amount.{
  Text, Mantissa, upper_bound, is_ascii_digit, parse_sign, parse_whole, parse_fraction,
  parse_exponent, is_nonempty, finalize, parse_fixed_point, fraction_digits, process_mantissa_digit,
}
use zallet.Amount.Digits.{number, number_from, number_from-ge, text_of}
use zallet.Amount.Literals.{
  exponent_text, tail_text, Literal, IsLiteral, IsWhole, print, digits_value, is_minus,
  exponent_value, EndsDigits-tail, parse_sign-print, parse_whole-Reads, parse_fraction-Reads,
  parse_exponent-Reads,
}

-- A zero digit adds one to the trailing zeros, and any other digit resets them.
process-tzeros :
    (ch : ℕ) (s s' : Mantissa) → process_mantissa_digit ch s ≡ some s' → s'.tzeros ≤ s.tzeros + 1
unfolding process_mantissa_digit
process-tzeros ch s s' h = ground arith

fraction_digits-tzeros :
    (val rest : Text) (s s' : Mantissa) (c c' : ℕ)
    → fraction_digits val s c ≡ some (rest, s', c')
    → s'.tzeros + c ≤ s.tzeros + c'
unfolding fraction_digits
fraction_digits-tzeros [] rest s s' c c' h = ground arith
fraction_digits-tzeros (ch ∷ val) rest s s' c c' h = elim (Bool-cases (is_ascii_digit ch)) [
  | inr other ↦ ground arith
  | inl digit ↦ elim (Option-cases (process_mantissa_digit ch s)) [
    | inl over ↦ ground arith
    | inr (t, e) ↦
        ground (arith, process-tzeros ch s t e, fraction_digits-tzeros val rest t s' (c + 1) c')
  ]
]

parse_fraction-tzeros :
    (val rest : Text) (s s' : Mantissa) (c : ℕ)
    → parse_fraction val s ≡ some (rest, s', c)
    → s'.tzeros ≤ s.tzeros + c
unfolding parse_fraction
parse_fraction-tzeros [] rest s s' c h = ground arith
parse_fraction-tzeros (ch ∷ val) rest s s' c h =
    ground (arith, fraction_digits-tzeros val rest s s' 0 c)

zero_whole : (whole : List ℕ) → IsWhole whole → number_from 0 whole ≡ 0 → whole ≡ 0 ∷ []
unfolding number_from
zero_whole [] h z = absurd h
zero_whole (zero ∷ ds) h z = ap (λ l. 0 ∷ l) h
zero_whole (suc d ∷ ds) h z = absurd (omega (arith, number_from-ge (0 * 10 + suc d) ds))

-- What becomes of a literal before its exponent is applied.
abbrev Outcome : Literal → ℤ → Type 0
Outcome l decimals =
    ((parse_fixed_point (print l) decimals ≡ none)
      × ((upper_bound < digits_value l) ⊎ (upper_bound < exponent_value l.exponent)))
    ⊎ ((s : Mantissa) × (parse_fixed_point (print l) decimals
          ≡ finalize l.negative s (length l.fraction) (is_minus l.exponent)
              (exponent_value l.exponent) decimals)
        × (number s ≡ digits_value l)
        × (number_from 0 l.whole ≡ 0 → s.tzeros ≤ length l.fraction))

single_zero :
    (rest : Text) (s : Mantissa) → parse_whole (b'0' ∷ rest) ≡ some (rest, s) → s.tzeros ≡ 0
unfolding parse_whole
single_zero rest s h = ground arith

module _ (text u : Text) (negative : Bool) (decimals : ℤ)
    (signed_ok : parse_sign text ≡ (negative, u)) where
  no_whole : parse_whole u ≡ none → parse_fixed_point text decimals ≡ none
  unfolding parse_fixed_point
  no_whole h = rw (signed_ok, h) refl

  module _ (b : Text) (s : Mantissa) (whole_ok : parse_whole u ≡ some (b, s)) where
    no_fraction : parse_fraction b s ≡ none → parse_fixed_point text decimals ≡ none
    unfolding parse_fixed_point
    no_fraction h = rw (signed_ok, whole_ok, h) refl

    module _ (b' : Text) (t : Mantissa) (c : ℕ)
        (fraction_ok : parse_fraction b s ≡ some (b', t, c)) where
      no_exponent : parse_exponent b' ≡ none → parse_fixed_point text decimals ≡ none
      unfolding parse_fixed_point
      no_exponent h = rw (signed_ok, whole_ok, fraction_ok, h) refl

      all_parts :
          (ne : Bool) (e : ℕ)
          → parse_exponent b' ≡ some ([], ne, e)
          → parse_fixed_point text decimals ≡ finalize negative t c ne e decimals
      unfolding parse_fixed_point is_nonempty
      all_parts ne e h = rw (signed_ok, whole_ok, fraction_ok, h) refl

pub parse_fixed_point-Outcome : (l : Literal) (decimals : ℤ) → IsLiteral l → Outcome l decimals
parse_fixed_point-Outcome l decimals w =
    elim (parse_whole-Reads l.whole rest w.whole (EndsDigits-tail l.fraction l.exponent)) [
      | inl (over, big) ↦ inl (
        no_whole (print l) _ l.negative decimals sign_read over,
        inl (omega (arith, number_from-ge (number_from 0 l.whole) l.fraction)),
      )
      | inr (s, read, exact) ↦ elim (parse_fraction-Reads l.fraction l.exponent s w.fraction) [
        | inl (over, big) ↦ inl (
          no_fraction (print l) _ l.negative decimals sign_read _ s read over,
          inl (subst (λ n. upper_bound < number_from n l.fraction) exact big),
        )
        | inr (t, read', exact') ↦ elim (parse_exponent-Reads l.exponent w.exponent) [
          | inl (over, big) ↦ inl (
            no_exponent (print l) _ l.negative decimals sign_read _ s read _ t _ read' over,
            inr big,
          )
          | inr read'' ↦ inr (
            t,
            all_parts (print l) _ l.negative decimals sign_read _ s read _ t _ read' _ _ read'',
            exact' ∙ ap (λ n. number_from n l.fraction) exact,
            λ z. zeros s t read read' z,
          )
        ]
      ]
    ]
  where
    rest : Text
    rest = tail_text l.fraction l.exponent

    sign_read : parse_sign (print l) ≡ (l.negative, text_of l.whole ++ rest)
    sign_read = unfold print in parse_sign-print l.negative l.whole rest w.whole

    zeros :
        (s t : Mantissa)
        → parse_whole (text_of l.whole ++ rest) ≡ some (rest, s)
        → parse_fraction rest s ≡ some (exponent_text l.exponent, t, length l.fraction)
        → number_from 0 l.whole ≡ 0
        → t.tzeros ≤ length l.fraction
    zeros s t read read' z =
        let e =
          subst (λ ds. parse_whole (text_of ds ++ rest) ≡ some (rest, s))
            (zero_whole l.whole w.whole z) read in
        let zero_s = single_zero rest s e in
        omega (
          arith,
          parse_fraction-tzeros rest (exponent_text l.exponent) s t (length l.fraction) read',
        )
