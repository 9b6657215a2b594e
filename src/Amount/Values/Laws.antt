-- ===== src/Amount/Values/Laws.antt =====
-- What `zatoshis_from_value` returns, and its round trip with `zec_str`.
use mathlib.Core.Path.{subst}
use native.Mathlib.Nat.{pow-suc}
use zallet.Prelude.{
  ℕ, suc, zero, ◌+◌, ◌-◌, ◌*◌, ◌/◌, ◌%◌, ◌^◌, ◌≤◌, ◌<◌, Bool, false, List, [], ◌∷◌, ◌++◌, some, ◌≡◌,
  ◌≢◌, refl, arith, length, inl, inr, sym, ◌∙◌, ap, ◌⊎◌, Bool-cases, Option-cases, ltb,
}
use zallet.Prelude.Int.{ℤ, pos, pos_part, ◌-ℤ◌}
use zallet.Prelude.{Result, ok, err, map_err}
use zallet.Amount.{Text, upper_bound, signed, parse_fixed_point}
use zallet.Amount.Digits.{AreDigits, number_from}
use zallet.Amount.Literals.{Literal, absent, IsLiteral, IsWhole, print, digits_value}
use zallet.Amount.Decimal.{Denotes, parse_fixed_point-exact, parse_fixed_point-accepts}
use zallet.Amount.Values.{
  JsonValue, number, string, BalanceError, amount_text, amount_error, zatoshis_from_value,
  decimal_digits, padded_digits, zec_str,
}

number_from-snoc :
    (acc : ℕ) (ds : List ℕ) (d : ℕ) → number_from acc (ds ++ (d ∷ [])) ≡ number_from acc ds * 10 + d
unfolding number_from
number_from-snoc acc [] d = refl
number_from-snoc acc (e ∷ ds) d = number_from-snoc (acc * 10 + e) ds d

AreDigits-snoc : (ds : List ℕ) (d : ℕ) → AreDigits ds → d < 10 → AreDigits (ds ++ (d ∷ []))
AreDigits-snoc [] d h k = (k, tt)
AreDigits-snoc (e ∷ ds) d (h, hs) k = (h, AreDigits-snoc ds d hs k)

length-snoc : (ds : List ℕ) (d : ℕ) → length (ds ++ (d ∷ [])) ≡ suc (length ds)
length-snoc [] d = refl
length-snoc (e ∷ ds) d = ap suc (length-snoc ds d)

div_mod_ten : (n : ℕ) → (n / 10 * 10 + n % 10 ≡ n) × (n % 10 < 10)
div_mod_ten n = (omega arith, omega arith)

padded-AreDigits : (k n : ℕ) → AreDigits (padded_digits k n)
unfolding padded_digits
padded-AreDigits zero n = tt
padded-AreDigits (suc k) n =
    AreDigits-snoc (padded_digits k (n / 10)) (n % 10) (padded-AreDigits k (n / 10))
      (div_mod_ten n).1

padded-length : (k n : ℕ) → length (padded_digits k n) ≡ k
unfolding padded_digits
padded-length zero n = refl
padded-length (suc k) n =
    length-snoc (padded_digits k (n / 10)) (n % 10) ∙ ap suc (padded-length k (n / 10))

padded-value : (k n acc : ℕ) → n < 10 ^ k → number_from acc (padded_digits k n) ≡ acc * 10 ^ k + n
unfolding padded_digits number_from
padded-value zero n acc h = omega (arith, h)
padded-value (suc k) n acc h = omega (
  arith,
  number_from-snoc acc (padded_digits k (n / 10)) (n % 10),
  pow-suc 10 k,
  div_mod_ten n,
  ap (λ (t : ℕ). acc * t) (pow-suc 10 k),
  padded-value k (n / 10) acc (omega (arith, pow-suc 10 k, h)),
)

decimal-value : (k n : ℕ) → n < 10 ^ k → number_from 0 (decimal_digits k n) ≡ n
unfolding decimal_digits number_from
decimal-value zero n h = omega (arith, h)
decimal-value (suc k) n h = elim (Bool-cases (ltb n 10)) [
  | inl small ↦ rw (small, decimal_digits) (omega arith)
  | inr large ↦
      rw (large, decimal_digits)
        (omega (
          arith,
          number_from-snoc 0 (decimal_digits k (n / 10)) (n % 10),
          div_mod_ten n,
          decimal-value k (n / 10) (omega (arith, pow-suc 10 k, h)),
        ))
]

IsWhole-snoc :
    (ds : List ℕ) (d : ℕ) → IsWhole ds → ds ≢ (0 ∷ []) → d < 10 → IsWhole (ds ++ (d ∷ []))
IsWhole-snoc [] d h nz k = absurd h
IsWhole-snoc (zero ∷ ds) d h nz k = absurd (nz (ap (λ (l : List ℕ). 0 ∷ l) h))
IsWhole-snoc (suc e ∷ ds) d (h, hs) nz k = (h, AreDigits-snoc ds d hs k)

one_digit : (n : ℕ) → n < 10 → IsWhole (n ∷ [])
one_digit zero h = refl
one_digit (suc n) h = (h, tt)

decimal-IsWhole : (k n : ℕ) → 1 ≤ k → n < 10 ^ k → IsWhole (decimal_digits k n)
unfolding decimal_digits number_from
decimal-IsWhole zero n p h = absurd (omega (arith, p))
decimal-IsWhole (suc k) n p h = elim (Bool-cases (ltb n 10)) [
  | inl small ↦ rw (small, decimal_digits) (one_digit n (ground arith))
  | inr large ↦
      let rest : n / 10 < 10 ^ k = omega (arith, pow-suc 10 k, h) in
      rw (large, decimal_digits)
        (IsWhole-snoc (decimal_digits k (n / 10)) (n % 10)
          (decimal-IsWhole k (n / 10) (positive k large h) rest)
          (λ e.
            absurd (not_zero large (sym (decimal-value k (n / 10) rest) ∙ ap (number_from 0) e)))
          (div_mod_ten n).1)
]
  where
    positive : (k : ℕ) → ltb n 10 ≡ false → n < 10 ^ suc k → 1 ≤ k
    positive zero large h = ground arith
    positive (suc k) large h = omega arith

    not_zero : ltb n 10 ≡ false → n / 10 ≡ number_from 0 (0 ∷ []) → ⊥
    not_zero large e = ground arith

-- The literal that `zec_str` prints.
zec_literal : ℕ → Literal
zec_literal z = record {
  negative = false;
  whole = decimal_digits 20 (z / 100000000);
  fraction = padded_digits 8 (z % 100000000);
  exponent = absent;
}

zec_literal-IsLiteral : (z : ℕ) → z ≤ upper_bound → IsLiteral (zec_literal z)
unfolding zec_literal
zec_literal-IsLiteral z h = record {
  whole = decimal-IsWhole 20 (z / 100000000) (omega arith) (omega (arith, h));
  fraction = padded-AreDigits 8 (z % 100000000);
  exponent = tt;
}

zec_str-print : (z : ℕ) → zec_str z ≡ print (zec_literal z)
unfolding zec_str print zec_literal padded_digits
zec_str-print z = refl

zec_value : (z : ℕ) → z ≤ upper_bound → digits_value (zec_literal z) ≡ z
unfolding zec_literal
zec_value z h =
    padded-value 8 (z % 100000000) (number_from 0 (decimal_digits 20 (z / 100000000))) (omega arith)
    ∙ omega (arith, decimal-value 20 (z / 100000000) (omega (arith, h)))

pub parse_fixed_point-zec_str :
    (z : ℕ) → z ≤ upper_bound → parse_fixed_point (zec_str z) (pos 8) ≡ some (pos z)
unfolding signed zec_literal
parse_fixed_point-zec_str z h =
    let short : length (padded_digits 8 (z % 100000000)) ≡ 8 = padded-length 8 (z % 100000000) in
    let total = zec_value z h in
    let value : digits_value (zec_literal z) * 10 ^ (8 - length (zec_literal z).fraction) ≡ z =
      unfold zec_literal in rw short (omega (arith, total)) in
    ap (λ t. parse_fixed_point t (pos 8)) (zec_str-print z)
    ∙ parse_fixed_point-accepts (zec_literal z) 8 (zec_literal-IsLiteral z h)
        (unfold zec_literal in refl) (omega arith) (unfold zec_literal in omega (arith, short))
        (omega (arith, value, h))
    ∙ ap (λ (t : ℕ). some (pos t)) value

same_number : (negative : Bool) (n u : ℕ) → signed negative n ≡ pos u → n ≡ u
unfolding signed ◌-ℤ◌
same_number negative n u h = ground arith

module _ (Zatoshis : Type 0) (from_nonnegative_i64 : ℤ → Result BalanceError Zatoshis)
    (into_u64 : Zatoshis → ℕ) (max_money : ℕ)
    -- `from_nonnegative_i64` keeps the number it is given, and takes those from 0 to `max_money`.
    (keeps : (z : ℤ) (v : Zatoshis) → from_nonnegative_i64 z ≡ ok v → z ≡ pos (into_u64 v))
    (takes : (n : ℕ) → n ≤ max_money → (v : Zatoshis) × (from_nonnegative_i64 (pos n) ≡ ok v)) where
  parsed :
      (value : JsonValue) (t : Text) (v : Zatoshis)
      → amount_text value ≡ ok t
      → zatoshis_from_value from_nonnegative_i64 value ≡ ok v
      → (z : ℤ) × (parse_fixed_point t (pos 8) ≡ some z) × (from_nonnegative_i64 z ≡ ok v)
  unfolding zatoshis_from_value
  parsed value t v is h = elim (Option-cases (parse_fixed_point t (pos 8))) [
    | inl bad ↦ cc (rw (is, bad) at h)
    | inr (z, good) ↦ (z, good, kept (from_nonnegative_i64 z) (rw (is, good) at h))
  ]
    where
      kept : (r : Result BalanceError Zatoshis) → map_err amount_error r ≡ ok v → r ≡ ok v
      kept (ok u) e = ground arith
      kept (err x) e = ground arith

  -- If a JSON string or number that is a decimal literal is taken for an amount, then the amount is
  -- exactly the literal times 10^8. `from_nonnegative_i64` keeps the number it is given.
  zatoshis_from_value-exact :
      (value : JsonValue) (l : Literal) (v : Zatoshis)
      → (value ≡ string (print l)) ⊎ (value ≡ number (print l))
      → IsLiteral l
      → zatoshis_from_value from_nonnegative_i64 value ≡ ok v
      → Denotes l 8 (into_u64 v)
  zatoshis_from_value-exact value l v is w h =
      let (z, read, kept) = parsed value (print l) v (text_is is) h in
      let (n, same, exact, _) = parse_fixed_point-exact l 8 z w read in
      subst (Denotes l 8) (same_number l.negative n (into_u64 v) (sym same ∙ keeps z v kept)) exact
    where
      text_is :
          (value ≡ string (print l)) ⊎ (value ≡ number (print l)) → amount_text value ≡ ok (print l)
      text_is is = unfold amount_text in ground arith

  -- An amount that `zec_str` prints is read back as itself, as long as `from_nonnegative_i64` takes
  -- the numbers up to `max_money`, keeps them, and `max_money` is at most 10^18 - 1.
  pub zatoshis_from_value-zec_str :
      (n : ℕ)
      → n ≤ max_money
      → max_money ≤ upper_bound
      → (v : Zatoshis) × (zatoshis_from_value from_nonnegative_i64 (string (zec_str n)) ≡ ok v)
        × (into_u64 v ≡ n)
  zatoshis_from_value-zec_str n h bound =
      let (v, taken) = takes n h in
      (
        v,
        unfold zatoshis_from_value amount_text in
            rw (parse_fixed_point-zec_str n (omega (arith, h, bound)), taken) refl,
        pos_injective (sym (keeps (pos n) v taken)),
      )
    where
      pos_injective : {a b : ℕ} → pos a ≡ pos b → a ≡ b
      pos_injective e = ap pos_part e
