-- ===== src/Amount.antt =====
-- Amounts in JSON-RPC parameters (zallet/src/components/json_rpc/utils.rs): `parse_fixed_point`
-- and `zatoshis_from_value`. A text is the list of its code points. The i64 variables are
-- unbounded here; each multiplication by ten is behind a test against `upper_bound / 10`.
pub mod Digits
pub mod Scale
pub mod Literals
pub mod Exact
pub mod Decimal
pub mod Values
mod Tests
use zallet.Prelude.{
  ℕ, suc, zero, ◌+◌, ◌-◌, ◌*◌, ◌/◌, Bool, true, false, not, ◌&&◌, ◌||◌, List, [], ◌∷◌, Option, none,
  some, if◌then◌else◌, ltb, leb, ◌==◌,
}
use zallet.Prelude.Int.{ℤ, pos, negsuc, pos_part, neg_part, ltb_ℤ, ◌+ℤ◌, ◌-ℤ◌, ◌*ℤ◌}

abbrev pub Text : Type 0
Text = List ℕ

abbrev pub upper_bound : ℕ
upper_bound = 999999999999999999

abbrev pub is_ascii_digit : ℕ → Bool
is_ascii_digit ch = leb b'0' ch && leb ch b'9'

pub record Mantissa : Type 0 where
  pub mantissa : ℕ
  pub tzeros : ℕ

-- The loop `for _ in 0..=*mantissa_tzeros`, by the rounds left; `none` is `return false`.
unfoldable pub shift : ℕ → ℕ → Option ℕ
shift zero m = some m
shift (suc k) m = elim (ltb (upper_bound / 10) m) [ true ↦ none | false ↦ shift k (m * 10) ]

unfoldable pub process_mantissa_digit : ℕ → Mantissa → Option Mantissa
process_mantissa_digit ch s =
    if ch == b'0'
    then some (record s { tzeros = s.tzeros + 1 })
    else elim (shift (suc s.tzeros) s.mantissa) [
      | none ↦ none
      | some m ↦ some (record { mantissa = m + (ch - b'0'); tzeros = 0 })
    ]

-- The loop over the digits before the point: the rest of the text, and the mantissa.
unfoldable pub whole_digits : Text → Mantissa → Option (Text × Mantissa)
whole_digits [] s = some ([], s)
whole_digits (ch ∷ val) s = elim (is_ascii_digit ch) [
  | true ↦ elim (process_mantissa_digit ch s) [ none ↦ none | some s' ↦ whole_digits val s' ]
  | false ↦ some (ch ∷ val, s)
]

-- The loop over the digits behind the point, which also counts them.
unfoldable pub fraction_digits : Text → Mantissa → ℕ → Option (Text × Mantissa × ℕ)
fraction_digits [] s point_ofs = some ([], s, point_ofs)
fraction_digits (ch ∷ val) s point_ofs = elim (is_ascii_digit ch) [
  | true ↦ elim (process_mantissa_digit ch s) [
    | none ↦ none
    | some s' ↦ fraction_digits val s' (point_ofs + 1)
  ]
  | false ↦ some (ch ∷ val, s, point_ofs)
]

unfoldable pub exponent_digits : Text → ℕ → Option (Text × ℕ)
exponent_digits [] e = some ([], e)
exponent_digits (ch ∷ val) e = elim (is_ascii_digit ch) [
  | true ↦ elim (ltb (upper_bound / 10) e) [
    | true ↦ none
    | false ↦ exponent_digits val (e * 10 + (ch - b'0'))
  ]
  | false ↦ some (ch ∷ val, e)
]

infixl 5 ◌>>=◌
abbrev pub ◌>>=◌ {ℓ κ} : {A : Type ℓ} {B : Type κ} → Option A → (A → Option B) → Option B
none >>= f = none
some a >>= f = f a

-- The text behind the sign, and whether there is one.
unfoldable pub parse_sign : Text → Bool × Text
parse_sign [] = (false, [])
parse_sign (ch ∷ rest) = if ch == b'-' then (true, rest) else (false, ch ∷ rest)

unfoldable pub parse_whole : Text → Option (Text × Mantissa)
parse_whole [] = none
parse_whole (ch ∷ rest) =
    let s : Mantissa = record { mantissa = 0; tzeros = 0 } in
    let digits = whole_digits (ch ∷ rest) s in
    if ch == b'0' then some (rest, s) else if is_ascii_digit ch then digits else none

abbrev pub starts_with_digit : Text → Bool
starts_with_digit [] = false
starts_with_digit (ch ∷ _) = is_ascii_digit ch

unfoldable pub parse_fraction : Text → Mantissa → Option (Text × Mantissa × ℕ)
parse_fraction [] s = some ([], s, 0)
parse_fraction (ch ∷ rest) s =
    let digits = fraction_digits rest s 0 in
    if ch == b'.' then if starts_with_digit rest then digits else none else some (ch ∷ rest, s, 0)

-- The sign of an exponent: the rest, and whether it is negative.
unfoldable pub exponent_sign : Text → Text × Bool
exponent_sign [] = ([], false)
exponent_sign (ch ∷ rest) =
    if ch == b'+' then (rest, false) else if ch == b'-' then (rest, true) else (ch ∷ rest, false)

unfoldable pub parse_exponent : Text → Option (Text × Bool × ℕ)
parse_exponent [] = some ([], false, 0)
parse_exponent (ch ∷ rest) =
    let (digits, negative) = exponent_sign rest in
    let read = exponent_digits digits 0 in
    if ch == b'e' || ch == b'E'
    then if starts_with_digit digits then (do (val, e) ← read; some (val, negative, e)) else none
    else some (ch ∷ rest, false, 0)

unfoldable pub is_nonempty : Text → Bool
is_nonempty [] = false
is_nonempty (_ ∷ _) = true

-- The loop `for _ in 0..exponent` over the signed mantissa, with its test of both bounds.
unfoldable pub scale : ℕ → ℤ → Option ℤ
scale zero m = some m
scale (suc k) m =
    elim (leb (pos_part m) (upper_bound / 10) && leb (neg_part m) (upper_bound / 10)) [
      | true ↦ scale k (m *ℤ pos 10)
      | false ↦ none
    ]

unfoldable pub signed : Bool → ℕ → ℤ
signed negative n = if negative then pos 0 -ℤ pos n else pos n

-- From the test `exponent < 0` on.
unfoldable pub apply_exponent : ℤ → ℤ → Option ℤ
apply_exponent exponent mantissa =
    if ltb_ℤ exponent (pos 0) then none else if not (ltb_ℤ exponent (pos 18)) then none else (do
      m ← scale (pos_part exponent) mantissa
      if leb (pos_part m) upper_bound && leb (neg_part m) upper_bound then some m else none)

-- From `// finalize exponent` on.
unfoldable pub finalize : Bool → Mantissa → ℕ → Bool → ℕ → ℤ → Option ℤ
finalize negative s point_ofs negative_exponent e decimals =
    apply_exponent ((signed negative_exponent e -ℤ pos point_ofs) +ℤ pos s.tzeros +ℤ decimals)
      (signed negative s.mantissa)

unfoldable pub parse_fixed_point : Text → ℤ → Option ℤ
unfolding is_nonempty
parse_fixed_point text decimals = do
  let (mantissa_sign, unsigned) = parse_sign text
  (behind_whole, whole) ← parse_whole unsigned
  (behind_fraction, s, point_ofs) ← parse_fraction behind_whole whole
  (val, negative_exponent, e) ← parse_exponent behind_fraction
  if is_nonempty val then none else finalize mantissa_sign s point_ofs negative_exponent e decimals
