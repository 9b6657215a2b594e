-- ===== src/Amount/Digits.antt =====
-- The loops over digits compute the number that the digits stand for.
use native.Mathlib.Nat.{pow-suc, one-le-pow}
use native.Mathlib.Numerals.{add-one}
use native.Mathlib.Decide.{dec_le}
use mathlib.Core.Path.{subst}
use zallet.Prelude.{
  ℕ, suc, zero, ◌+◌, ◌-◌, ◌*◌, ◌/◌, ◌^◌, ◌≤◌, ◌<◌, true, false, List, [], ◌∷◌, ◌++◌, Option, none,
  some, ◌≡◌, refl, arith, length, map, Option-cases, Bool-cases, inl, inr, sym, ◌∙◌, ap, ltb, ◌==◌,
  ◌⊎◌,
}
use zallet.Amount.{
  Text, Mantissa, upper_bound, is_ascii_digit, shift, process_mantissa_digit, whole_digits,
  fraction_digits, exponent_digits,
}

-- The number that the digits `ds` stand for, behind the digits of `acc`.
unfoldable pub number_from : ℕ → List ℕ → ℕ
number_from acc [] = acc
number_from acc (d ∷ ds) = number_from (acc * 10 + d) ds

-- Digits, as numbers below ten; and as text.
abbrev pub AreDigits : List ℕ → Type 0
AreDigits [] = Unit {0}
AreDigits (d ∷ ds) = (d < 10) × AreDigits ds

abbrev pub text_of : List ℕ → Text
text_of = map (λ d. b'0' + d)

-- The number that a mantissa stands for.
abbrev pub number : Mantissa → ℕ
number s = s.mantissa * 10 ^ s.tzeros

-- The text does not go on with a digit.
abbrev pub EndsDigits : Text → Type 0
EndsDigits [] = Unit {0}
EndsDigits (ch ∷ _) = is_ascii_digit ch ≡ false

pub ten_pow : (m k : ℕ) → m * 10 ^ suc k ≡ m * 10 * 10 ^ k
ten_pow m k = omega (arith, ap (λ (t : ℕ). m * t) (pow-suc 10 k))

pub le-mul_pow : (m k : ℕ) → m ≤ m * 10 ^ k
le-mul_pow m k = grind (arith, one-le-pow k 10)

shift_exact : (k m n : ℕ) → shift k m ≡ some n → n ≡ m * 10 ^ k
unfolding shift
shift_exact zero m n h = ground arith
shift_exact (suc k) m n h = ground (arith, shift_exact k (m * 10) n, ten_pow m k)

shift_room : (k m : ℕ) → m * 10 ^ k ≤ upper_bound → shift k m ≡ some (m * 10 ^ k)
unfolding shift
shift_room zero m h = ground arith
shift_room (suc k) m h = ground (arith, shift_room k (m * 10), ten_pow m k, le-mul_pow (m * 10) k)

-- The digit of a character.
abbrev pub digit_of : ℕ → ℕ
digit_of ch = ch - b'0'

process_exact :
    (ch : ℕ) (s s' : Mantissa)
    → is_ascii_digit ch ≡ true
    → process_mantissa_digit ch s ≡ some s'
    → number s' ≡ number s * 10 + digit_of ch
unfolding process_mantissa_digit
process_exact ch s s' h e = elim (Bool-cases (ch == b'0')) [
  | inl z ↦ ground (arith, ten_pow s.mantissa s.tzeros, add-one s.tzeros)
  | inr nz ↦ elim (Option-cases (shift (suc s.tzeros) s.mantissa)) [
    | inl over ↦ ground arith
    | inr (m, fits) ↦
        ground (arith, shift_exact (suc s.tzeros) s.mantissa m fits, ten_pow s.mantissa s.tzeros)
  ]
]

process_room :
    (ch : ℕ) (s : Mantissa)
    → is_ascii_digit ch ≡ true
    → number s * 10 + digit_of ch ≤ upper_bound
    → (s' : Mantissa) × (process_mantissa_digit ch s ≡ some s')
unfolding process_mantissa_digit
process_room ch s h e = elim (Bool-cases (ch == b'0')) [
  | inl z ↦ (record s { tzeros = s.tzeros + 1 }, rw z)
  | inr nz ↦ (
    record { mantissa = s.mantissa * 10 ^ suc s.tzeros + (ch - b'0'); tzeros = 0 },
    rw (nz, shift_room (suc s.tzeros) s.mantissa (omega (arith, ten_pow s.mantissa s.tzeros))),
  )
]

pub digit_facts : (d : ℕ) → d < 10 → (is_ascii_digit (b'0' + d) ≡ true) × (digit_of (b'0' + d) ≡ d)
digit_facts d h = (ground arith, ground arith)

-- A digit is taken in, or the number with it is out of bounds.
process_cases :
    (d : ℕ) (s : Mantissa)
    → d < 10
    → ((process_mantissa_digit (b'0' + d) s ≡ none) × (upper_bound < number s * 10 + d))
      ⊎ ((s' : Mantissa) × (process_mantissa_digit (b'0' + d) s ≡ some s')
          × (number s' ≡ number s * 10 + d))
process_cases d s h =
    let (isd, same) = digit_facts d h in
    elim (Option-cases (process_mantissa_digit (b'0' + d) s)) [
      | inr (s', e) ↦
          inr (s', e, process_exact (b'0' + d) s s' isd e ∙ ap (λ t. number s * 10 + t) same)
      | inl e ↦ elim (dec_le (number s * 10 + d) upper_bound) [
        | no over ↦ inl (e, omega (arith, over))
        | yes fits ↦ absurd (full (process_room (b'0' + d) s isd (rw same fits)) e)
      ]
    ]
  where
    full :
        (s' : Mantissa) × (process_mantissa_digit (b'0' + d) s ≡ some s')
        → process_mantissa_digit (b'0' + d) s ≡ none
        → ⊥
    full (s', e) e' = cc

pub number_from-ge : (acc : ℕ) (ds : List ℕ) → acc ≤ number_from acc ds
unfolding number_from
number_from-ge acc [] = omega arith
number_from-ge acc (d ∷ ds) = omega (arith, number_from-ge (acc * 10 + d) ds)

-- What reading the digits of `n` gives, before the text `rest`.
abbrev pub Reads : Option (Text × Mantissa) → Text → ℕ → Type 0
Reads r rest n =
    ((r ≡ none) × (upper_bound < n)) ⊎ ((s : Mantissa) × (r ≡ some (rest, s)) × (number s ≡ n))

pub whole_digits-Reads :
    (ds : List ℕ) (rest : Text) (s : Mantissa)
    → AreDigits ds
    → EndsDigits rest
    → Reads (whole_digits (text_of ds ++ rest) s) rest (number_from (number s) ds)
unfolding whole_digits number_from
whole_digits-Reads [] [] s h k = inr (s, refl, refl)
whole_digits-Reads [] (ch ∷ rest) s h k = inr (s, rw (k, whole_digits) refl, refl)
whole_digits-Reads (d ∷ ds) rest s (h, hs) k = elim (process_cases d s h) [
  | inl (over, big) ↦ inl (
    rw ((digit_facts d h).0, whole_digits) (rw over refl),
    omega (arith, number_from-ge (number s * 10 + d) ds),
  )
  | inr (s', e, exact) ↦
      subst (λ r. Reads r rest (number_from (number s) (d ∷ ds)))
        (sym (rw ((digit_facts d h).0, whole_digits) (rw e refl)))
        (subst (λ n. Reads (whole_digits (text_of ds ++ rest) s') rest (number_from n ds)) exact
          (whole_digits-Reads ds rest s' hs k))
]

abbrev pub ReadsFraction : Option (Text × Mantissa × ℕ) → Text → ℕ → ℕ → Type 0
ReadsFraction r rest n count =
    ((r ≡ none) × (upper_bound < n))
    ⊎ ((s : Mantissa) × (r ≡ some (rest, s, count)) × (number s ≡ n))

pub fraction_digits-Reads :
    (ds : List ℕ) (rest : Text) (s : Mantissa) (count : ℕ)
    → AreDigits ds
    → EndsDigits rest
    → ReadsFraction
        (fraction_digits (text_of ds ++ rest) s count)
        rest
        (number_from (number s) ds)
        (count + length ds)
unfolding fraction_digits number_from
fraction_digits-Reads [] [] s count h k = inr (s, ground arith, refl)
fraction_digits-Reads [] (ch ∷ rest) s count h k =
    inr (s, rw (k, fraction_digits) (ground arith), refl)
fraction_digits-Reads (d ∷ ds) rest s count (h, hs) k = elim (process_cases d s h) [
  | inl (over, big) ↦ inl (
    rw ((digit_facts d h).0, fraction_digits) (rw over refl),
    omega (arith, number_from-ge (number s * 10 + d) ds),
  )
  | inr (s', e, exact) ↦
      rw ((digit_facts d h).0, fraction_digits)
        (rw (e, ← exact)
          (subst
            (λ n.
              ReadsFraction (fraction_digits (text_of ds ++ rest) s' (count + 1)) rest
                (number_from (number s') ds) n)
            (omega arith) (fraction_digits-Reads ds rest s' (count + 1) hs k)))
]

-- The exponent: too large, or exact.
pub exponent_digits-Reads :
    (ds : List ℕ) (rest : Text) (e : ℕ)
    → AreDigits ds
    → EndsDigits rest
    → ((exponent_digits (text_of ds ++ rest) e ≡ none) × (upper_bound < number_from e ds))
      ⊎ (exponent_digits (text_of ds ++ rest) e ≡ some (rest, number_from e ds))
unfolding exponent_digits number_from
exponent_digits-Reads [] [] e h k = inr refl
exponent_digits-Reads [] (ch ∷ rest) e h k = inr (rw (k, exponent_digits) refl)
exponent_digits-Reads (d ∷ ds) rest e (h, hs) k =
    rw ((digit_facts d h).0, exponent_digits)
      (elim (Bool-cases (ltb (upper_bound / 10) e)) [
        | inl big ↦ inl (rw big refl, ground (arith, number_from-ge (e * 10 + d) ds))
        | inr small ↦
            rw (small, (digit_facts d h).1) (exponent_digits-Reads ds rest (e * 10 + d) hs k)
      ])
