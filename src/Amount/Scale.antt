-- ===== src/Amount/Scale.antt =====
-- The end of `parse_fixed_point`: the exponent is applied exactly.
use Prim.Native.Nat.add
use native.Mathlib.Nat.{pow-suc, mul-one}
use zallet.Prelude.{
  ℕ, suc, zero, ◌+◌, ◌*◌, ◌/◌, ◌^◌, ◌≤◌, ◌<◌, Bool, true, ◌&&◌, some, ◌≡◌, refl, arith, Bool-cases,
  inl, inr, sym, ◌∙◌, ap, leb, if◌then◌else◌,
}
use zallet.Prelude.Int.{ℤ, pos, negsuc, pos_part, neg_part, ◌+ℤ◌, ◌-ℤ◌, ◌*ℤ◌}
use zallet.Amount.{Mantissa, upper_bound, scale, signed, apply_exponent, finalize}
use zallet.Amount.Digits.{number, ten_pow, le-mul_pow}

abbrev pub abs : ℤ → ℕ
abs z = pos_part z + neg_part z

pub pow-add : (a b : ℕ) → 10 ^ (a + b) ≡ 10 ^ a * 10 ^ b
pow-add zero b = ground arith
pow-add (suc a) b = omega (
  arith,
  add.suc a b,
  ap (λ (t : ℕ). 10 ^ t) (add.suc a b),
  pow-suc 10 (a + b),
  pow-add a b,
  ap (λ (t : ℕ). t * 10 ^ b) (pow-suc 10 a),
)

signed_parts :
    (negative : Bool) (m : ℕ)
    → (pos_part (signed negative m) ≡ (if negative then 0 else m))
      × (neg_part (signed negative m) ≡ (if negative then m else 0))
unfolding signed ◌-ℤ◌
signed_parts negative m = ground arith

signed_mul : (negative : Bool) (m : ℕ) → signed negative m *ℤ pos 10 ≡ signed negative (m * 10)
unfolding signed ◌-ℤ◌ ◌*ℤ◌
signed_mul negative m = ground arith

-- The test of the loop.
abbrev within : ℤ → Bool
within z = leb (pos_part z) (upper_bound / 10) && leb (neg_part z) (upper_bound / 10)

within_room : (negative : Bool) (m : ℕ) → m * 10 ≤ upper_bound → within (signed negative m) ≡ true
within_room negative m h = ground (arith, signed_parts negative m)

scale_exact :
    (negative : Bool) (k m : ℕ) (z : ℤ)
    → scale k (signed negative m) ≡ some z
    → z ≡ signed negative (m * 10 ^ k)
unfolding scale
scale_exact negative zero m z h = ground (arith, ap (signed negative) (mul-one m))
scale_exact negative (suc k) m z h = elim (Bool-cases (within (signed negative m))) [
  | inl fits ↦
      scale_exact negative k (m * 10) z (rw (← signed_mul negative m) (rw (fits, scale) at h))
      ∙ ap (signed negative) (sym (ten_pow m k))
  | inr over ↦ cc (over, h)
]

scale_room :
    (negative : Bool) (k m : ℕ)
    → m * 10 ^ k ≤ upper_bound
    → scale k (signed negative m) ≡ some (signed negative (m * 10 ^ k))
unfolding scale
scale_room negative zero m h = ap (λ t. some (signed negative t)) (sym (mul-one m))
scale_room negative (suc k) m h =
    rw
      (
        within_room negative m (omega (arith, ten_pow m k, le-mul_pow (m * 10) k)),
        scale,
        signed_mul,
        ten_pow,
      )
      (scale_room negative k (m * 10) (omega (arith, ten_pow m k)))

abbrev pub at_exponent : Bool → ℕ → ℤ → ℕ → ℕ → ℤ
at_exponent negative_exponent e decimals tzeros point_ofs =
    (signed negative_exponent e -ℤ pos point_ofs) +ℤ pos tzeros +ℤ decimals

-- The exponent behind the point, for an exponent of either sign.
abbrev pub exponent_up : Bool → ℕ → ℕ
exponent_up negative e = if negative then 0 else e

abbrev pub exponent_down : Bool → ℕ → ℕ
exponent_down negative e = if negative then e else 0

exponent_eq :
    (ne : Bool) (e d t p k : ℕ)
    → at_exponent ne e (pos d) t p ≡ pos k
    → k + p + exponent_down ne e ≡ t + d + exponent_up ne e
unfolding signed ◌+ℤ◌ ◌-ℤ◌
exponent_eq ne e d t p k h = ground arith

exponent_room :
    (ne : Bool) (e d t p k : ℕ)
    → k + p + exponent_down ne e ≡ t + d + exponent_up ne e
    → at_exponent ne e (pos d) t p ≡ pos k
unfolding signed ◌+ℤ◌ ◌-ℤ◌
exponent_room ne e d t p k h = ground arith

apply_exponent-some :
    (x m z : ℤ)
    → apply_exponent x m ≡ some z
    → (k : ℕ) × (x ≡ pos k) × (scale k m ≡ some z) × (abs z ≤ upper_bound)
unfolding apply_exponent
apply_exponent-some (negsuc n) m z h = ground arith
apply_exponent-some (pos k) m z h = (k, refl, (in_range z h).0, (in_range z h).1)
  where
    in_range :
        (z : ℤ) → apply_exponent (pos k) m ≡ some z → (scale k m ≡ some z) × (abs z ≤ upper_bound)
    in_range (pos n) h = (ground arith, ground arith)
    in_range (negsuc n) h = (ground arith, ground arith)

apply_exponent_room :
    (k : ℕ) (m z : ℤ)
    → k < 18
    → scale k m ≡ some z
    → abs z ≤ upper_bound
    → apply_exponent (pos k) m ≡ some z
unfolding apply_exponent
apply_exponent_room k m z small h fits = ground arith

-- Whatever `finalize` returns is the number of the mantissa times the power of ten, exactly.
pub finalize_exact :
    (negative : Bool) (s : Mantissa) (p : ℕ) (ne : Bool) (e d : ℕ) (z : ℤ)
    → finalize negative s p ne e (pos d) ≡ some z
    → (n : ℕ) × (z ≡ signed negative n)
      × (n * 10 ^ (p + exponent_down ne e) ≡ number s * 10 ^ (d + exponent_up ne e))
      × (abs z ≤ upper_bound)
unfolding finalize
finalize_exact negative s p ne e d z h =
    let (k, at, scaled, fits) =
      apply_exponent-some (at_exponent ne e (pos d) s.tzeros p) (signed negative s.mantissa) z h in
    (
      s.mantissa * 10 ^ k,
      scale_exact negative k s.mantissa z scaled,
      regroup k (exponent_eq ne e d s.tzeros p k at),
      fits,
    )
  where
    regroup :
        (k : ℕ)
        → k + p + exponent_down ne e ≡ s.tzeros + d + exponent_up ne e
        → s.mantissa * 10 ^ k * 10 ^ (p + exponent_down ne e)
          ≡ s.mantissa * 10 ^ s.tzeros * 10 ^ (d + exponent_up ne e)
    regroup k eq = omega (
      arith,
      ap (λ (t : ℕ). s.mantissa * t) (pow-add k (p + exponent_down ne e)),
      ap (λ (t : ℕ). s.mantissa * t) (pow-add s.tzeros (d + exponent_up ne e)),
      ap (λ (t : ℕ). s.mantissa * 10 ^ t)
          (let same : k + (p + exponent_down ne e) ≡ s.tzeros + (d + exponent_up ne e) =
              omega (arith, eq) in
            same),
    )

-- The result is the mantissa times the power of ten, if the exponent and the result are in range.
pub finalize_room :
    (negative : Bool) (s : Mantissa) (p : ℕ) (ne : Bool) (e d k : ℕ)
    → k + p + exponent_down ne e ≡ s.tzeros + d + exponent_up ne e
    → k < 18
    → s.mantissa * 10 ^ k ≤ upper_bound
    → finalize negative s p ne e (pos d) ≡ some (signed negative (s.mantissa * 10 ^ k))
unfolding finalize
finalize_room negative s p ne e d k h small fits = rw (exponent_room ne e d s.tzeros p k h) (
    apply_exponent_room k (signed negative s.mantissa) (signed negative (s.mantissa * 10 ^ k)) small
      (scale_room negative k s.mantissa fits)
      (ground (arith, signed_parts negative (s.mantissa * 10 ^ k))))
