-- ===== src/Amount/Literals.antt =====
-- Decimal literals: what `parse_fixed_point` makes of each.
use mathlib.Core.Path.{subst}
use mathlib.Core.List.{append-nil}
use zallet.Prelude.{
  ℕ, suc, zero, ◌+◌, ◌<◌, Bool, true, false, List, [], ◌∷◌, ◌++◌, Option, none, some, ◌≡◌, refl,
  arith, length, inl, inr, sym, ◌∙◌, ap, if◌then◌else◌, ◌⊎◌,
}
use zallet.Amount.{
  Text, Mantissa, upper_bound, parse_sign, parse_whole, parse_fraction, exponent_sign,
  parse_exponent, starts_with_digit, exponent_digits, fraction_digits, whole_digits, ◌>>=◌,
}
use zallet.Amount.Digits.{
  digit_facts, AreDigits, EndsDigits, text_of, number, number_from, Reads, ReadsFraction,
  whole_digits-Reads, fraction_digits-Reads, exponent_digits-Reads,
}

pub data Sign : Type 0 where
  unsigned plus minus : Sign

pub data Exponent : Type 0 where
  absent : Exponent
  -- Written with a capital `E` or not.
  given : Bool → Sign → List ℕ → Exponent

-- No fraction stands for a literal with no point.
pub record Literal : Type 0 where
  pub negative : Bool
  pub whole : List ℕ
  pub fraction : List ℕ
  pub exponent : Exponent

abbrev pub fraction_text : List ℕ → Text
fraction_text [] = []
fraction_text (d ∷ ds) = b'.' ∷ text_of (d ∷ ds)

abbrev pub sign_text : Sign → Text
sign_text unsigned = []
sign_text plus = b'+' ∷ []
sign_text minus = b'-' ∷ []

abbrev pub exponent_text : Exponent → Text
exponent_text absent = []
exponent_text (given capital sign ds) =
    (if capital then b'E' else b'e') ∷ (sign_text sign ++ text_of ds)

abbrev pub tail_text : List ℕ → Exponent → Text
tail_text fraction exponent = fraction_text fraction ++ exponent_text exponent

unfoldable pub print : Literal → Text
print l =
    (if l.negative then b'-' ∷ [] else [])
    ++ (text_of l.whole ++ (fraction_text l.fraction ++ exponent_text l.exponent))

-- The digits before the point are a single 0, or begin with another digit.
abbrev pub IsWhole : List ℕ → Type 0
IsWhole [] = ⊥
IsWhole (zero ∷ ds) = ds ≡ []
IsWhole (suc d ∷ ds) = (suc d < 10) × AreDigits ds

abbrev pub IsExponent : Exponent → Type 0
IsExponent absent = Unit {0}
IsExponent (given capital sign []) = ⊥
IsExponent (given capital sign (d ∷ ds)) = AreDigits (d ∷ ds)

pub record IsLiteral (l : Literal) : Type 0 where
  pub whole : IsWhole l.whole
  pub fraction : AreDigits l.fraction
  pub exponent : IsExponent l.exponent

-- All the digits of a literal, as one number.
abbrev pub digits_value : Literal → ℕ
digits_value l = number_from (number_from 0 l.whole) l.fraction

abbrev pub is_minus : Exponent → Bool
is_minus (given capital minus ds) = true
is_minus _ = false

abbrev pub exponent_value : Exponent → ℕ
exponent_value absent = 0
exponent_value (given capital sign ds) = number_from 0 ds

pub EndsDigits-tail : (fraction : List ℕ) (x : Exponent) → EndsDigits (tail_text fraction x)
EndsDigits-tail [] absent = tt
EndsDigits-tail [] (given true s ds) = refl
EndsDigits-tail [] (given false s ds) = refl
EndsDigits-tail (d ∷ ds) x = refl

EndsDigits-exponent : (x : Exponent) → EndsDigits (exponent_text x)
EndsDigits-exponent absent = tt
EndsDigits-exponent (given true s ds) = refl
EndsDigits-exponent (given false s ds) = refl

pub parse_sign-print :
    (negative : Bool) (whole : List ℕ) (rest : Text)
    → IsWhole whole
    → parse_sign ((if negative then b'-' ∷ [] else []) ++ (text_of whole ++ rest))
      ≡ (negative, text_of whole ++ rest)
unfolding parse_sign
parse_sign-print true whole rest h = refl
parse_sign-print false [] rest h = absurd h
parse_sign-print false (zero ∷ ds) rest h = refl
parse_sign-print false (suc d ∷ ds) rest h = ground arith

no_mantissa : Mantissa
no_mantissa = record { mantissa = 0; tzeros = 0 }

parse_whole_digits :
    (d : ℕ) (val : Text)
    → suc d < 10
    → parse_whole ((b'0' + suc d) ∷ val) ≡ whole_digits ((b'0' + suc d) ∷ val) no_mantissa
unfolding parse_whole no_mantissa
parse_whole_digits d val h = ground arith

pub parse_whole-Reads :
    (whole : List ℕ) (rest : Text)
    → IsWhole whole
    → EndsDigits rest
    → Reads (parse_whole (text_of whole ++ rest)) rest (number_from 0 whole)
unfolding no_mantissa
parse_whole-Reads [] rest h k = absurd h
parse_whole-Reads (zero ∷ ds) rest h k =
    rw h (inr (no_mantissa, unfold parse_whole in refl, unfold number_from in refl))
parse_whole-Reads (suc d ∷ ds) rest (h, hs) k =
    subst (λ r. Reads r rest (number_from 0 (suc d ∷ ds)))
      (sym (parse_whole_digits d (text_of ds ++ rest) h))
      (whole_digits-Reads (suc d ∷ ds) rest no_mantissa (h, hs) k)

skip_fraction :
    (x : Exponent) (s : Mantissa)
    → parse_fraction (exponent_text x) s ≡ some (exponent_text x, s, 0)
unfolding parse_fraction
skip_fraction absent s = refl
skip_fraction (given true sign ds) s = refl
skip_fraction (given false sign ds) s = refl

parse_fraction_digits :
    (d : ℕ) (val : Text) (s : Mantissa)
    → d < 10
    → parse_fraction (b'.' ∷ (b'0' + d) ∷ val) s ≡ fraction_digits ((b'0' + d) ∷ val) s 0
unfolding parse_fraction
parse_fraction_digits d val s h = ground arith

pub parse_fraction-Reads :
    (fraction : List ℕ) (x : Exponent) (s : Mantissa)
    → AreDigits fraction
    → ReadsFraction
        (parse_fraction (tail_text fraction x) s)
        (exponent_text x)
        (number_from (number s) fraction)
        (length fraction)
parse_fraction-Reads [] x s h = inr (s, skip_fraction x s, unfold number_from in refl)
parse_fraction-Reads (d ∷ ds) x s h =
    let count : 0 + length (d ∷ ds) ≡ length (d ∷ ds) = omega arith in
    subst
      (λ r. ReadsFraction r (exponent_text x) (number_from (number s) (d ∷ ds)) (length (d ∷ ds)))
      (sym (parse_fraction_digits d (text_of ds ++ exponent_text x) s h.0))
      (subst
        (λ c.
          ReadsFraction (fraction_digits ((b'0' + d) ∷ (text_of ds ++ exponent_text x)) s 0)
            (exponent_text x) (number_from (number s) (d ∷ ds)) c)
        count (fraction_digits-Reads (d ∷ ds) (exponent_text x) s 0 h (EndsDigits-exponent x)))

exponent_sign-print :
    (sign : Sign) (d : ℕ) (val : Text)
    → d < 10
    → exponent_sign (sign_text sign ++ (b'0' + d) ∷ val)
      ≡ ((b'0' + d) ∷ val, is_minus (given true sign []))
unfolding exponent_sign
exponent_sign-print unsigned d val h = ground arith
exponent_sign-print plus d val h = refl
exponent_sign-print minus d val h = refl

-- The digits read, with the sign.
abbrev with_sign : Bool → Option (Text × ℕ) → Option (Text × Bool × ℕ)
with_sign negative none = none
with_sign negative (some (val, e)) = some (val, negative, e)

read_signed :
    (d : ℕ) (ds : List ℕ) (negative : Bool) (r : Option (Text × ℕ))
    → d < 10
    → exponent_digits (text_of (d ∷ ds)) 0 ≡ r
    → (if starts_with_digit (text_of (d ∷ ds))
        then (exponent_digits (text_of (d ∷ ds)) 0 >>= λ p. some (p.0, negative, p.1))
        else none)
      ≡ with_sign negative r
read_signed d ds negative none h e = rw ((digit_facts d h).0, e)
read_signed d ds negative (some p) h e = rw ((digit_facts d h).0, e)

parse_exponent_digits :
    (capital : Bool) (sign : Sign) (d : ℕ) (ds : List ℕ) (r : Option (Text × ℕ))
    → d < 10
    → exponent_digits (text_of (d ∷ ds)) 0 ≡ r
    → parse_exponent (exponent_text (given capital sign (d ∷ ds)))
      ≡ with_sign (is_minus (given true sign [])) r
unfolding parse_exponent
parse_exponent_digits true sign d ds r h e =
    rw (exponent_sign-print sign d (text_of ds) h) (read_signed d ds _ r h e)
parse_exponent_digits false sign d ds r h e =
    rw (exponent_sign-print sign d (text_of ds) h) (read_signed d ds _ r h e)

is_minus_same :
    (capital : Bool) (sign : Sign) (ds : List ℕ)
    → is_minus (given true sign []) ≡ is_minus (given capital sign ds)
is_minus_same capital unsigned ds = refl
is_minus_same capital plus ds = refl
is_minus_same capital minus ds = refl

pub parse_exponent-Reads :
    (x : Exponent)
    → IsExponent x
    → ((parse_exponent (exponent_text x) ≡ none) × (upper_bound < exponent_value x))
      ⊎ (parse_exponent (exponent_text x) ≡ some ([], is_minus x, exponent_value x))
parse_exponent-Reads absent h = inr (unfold parse_exponent in refl)
parse_exponent-Reads (given capital sign []) h = absurd h
parse_exponent-Reads (given capital sign (d ∷ ds)) h =
    elim (exponent_digits-Reads (d ∷ ds) [] 0 h tt) [
      | inl (over, big) ↦
          inl (parse_exponent_digits capital sign d ds none h.0 (rw append-nil at over), big)
      | inr read ↦ inr (
          parse_exponent_digits capital sign d ds _ h.0 (rw append-nil at read)
          ∙ ap (λ b. some ([], b, number_from 0 (d ∷ ds))) (is_minus_same capital sign (d ∷ ds)))
    ]
