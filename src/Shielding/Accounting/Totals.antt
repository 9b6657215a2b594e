-- ===== src/Shielding/Accounting/Totals.antt =====
-- What the numbers of z_shieldcoinbase add up to.
use zallet.Prelude.{
  ℕ, suc, ◌+◌, ◌≤◌, List, [], ◌∷◌, ◌++◌, some, ok, bind-ok, length, length-append, Option-cases,
  ◌≡◌, ◌↔◌, refl, sym, ap, ◌∙◌, arith, inl, inr,
}
use zallet.Shielding.{Utxo, ShieldingStep}
use zallet.Shielding.Accounting.{
  u64_max, saturating_add, Amounts, sum_inputs, sum_steps, add_values,
}

-- `Zatoshis` of zcash_protocol: the numbers from 0 to `max_money`, with checked addition and subtraction.
pub record AreChecked {Z : Type 0} (amounts : Amounts Z) (max_money : ℕ) : Type 0 where
  pub zero_lem : amounts.into_u64 amounts.zero_value ≡ 0
  pub bounded : (a : Z) → amounts.into_u64 a ≤ max_money
  pub injective : (a b : Z) → amounts.into_u64 a ≡ amounts.into_u64 b → a ≡ b
  pub added :
      (a b c : Z)
      → amounts.add a b ≡ some c
      → amounts.into_u64 c ≡ amounts.into_u64 a + amounts.into_u64 b
  pub adds :
      (a b : Z)
      → amounts.into_u64 a + amounts.into_u64 b ≤ max_money
      → (c : Z) × (amounts.add a b ≡ some c)
  pub subtracted :
      (a b c : Z)
      → amounts.sub a b ≡ some c
      → amounts.into_u64 c + amounts.into_u64 b ≡ amounts.into_u64 a
  pub subtracts :
      (a b : Z) → amounts.into_u64 b ≤ amounts.into_u64 a → (c : Z) × (amounts.sub a b ≡ some c)

-- Saturating additions one by one are one of the sum.
pub saturating_add_lem :
    (a b c : ℕ) → saturating_add (saturating_add a b) c ≡ saturating_add a (b + c)
unfolding saturating_add
saturating_add_lem a b c = omega arith

saturating_add-suc : (a n : ℕ) → saturating_add (saturating_add a 1) n ≡ saturating_add a (suc n)
unfolding saturating_add
saturating_add-suc a n = omega arith

pub saturating_add-zero : (a : ℕ) → a ≤ u64_max → saturating_add a 0 ≡ a
unfolding saturating_add
saturating_add-zero a h = omega (arith, h)

pub saturating_add-le : (a b : ℕ) → saturating_add a b ≤ u64_max
unfolding saturating_add
saturating_add-le a b = omega arith

-- The value of outputs, as a plain sum.
abbrev pub total : {A Z : Type 0} → Amounts Z → List (Utxo A Z) → ℕ
total amounts [] = 0
total amounts (utxo ∷ utxos) = amounts.into_u64 utxo.value + total amounts utxos

pub total-append :
    {A Z : Type 0} (amounts : Amounts Z) (us vs : List (Utxo A Z))
    → total amounts (us ++ vs) ≡ total amounts us + total amounts vs
total-append amounts [] vs = omega arith
total-append amounts (u ∷ us) vs = omega (arith, total-append amounts us vs)

-- The inputs of all steps, in their order.
abbrev pub inputs_of : {A Z : Type 0} → List (ShieldingStep A Z) → List (Utxo A Z)
inputs_of [] = []
inputs_of (step ∷ steps) = step.transparent_inputs ++ inputs_of steps

module _ {Z : Type 0} (amounts : Amounts Z) {max_money : ℕ}
    (laws : AreChecked amounts max_money) where
  pub sub_iff :
      (a b c : Z)
      → (amounts.sub a b ≡ some c) ↔ (amounts.into_u64 c + amounts.into_u64 b ≡ amounts.into_u64 a)
  sub_iff a b c = (
    laws.subtracted a b c,
    λ h.
        let (d, e) = laws.subtracts a b (omega (arith, h)) in
        e ∙ ap some (laws.injective d c (omega (arith, laws.subtracted a b d e, h))),
  )

  -- A checked addition under a sum that stays in range.
  add_first :
      (a b c : Z) (rest : ℕ)
      → amounts.into_u64 c ≡ amounts.into_u64 a + (amounts.into_u64 b + rest)
      → (d : Z) × (amounts.add a b ≡ some d) × (amounts.into_u64 c ≡ amounts.into_u64 d + rest)
  add_first a b c rest h =
      let (d, e) = laws.adds a b (omega (arith, h, laws.bounded c)) in
      (d, e, omega (arith, h, laws.added a b d e))

  module _ {A : Type 0} where
    -- A sum in range is the number of an amount.
    pub partial_sum :
        (utxos : List (Utxo A Z)) (sum : Z)
        → amounts.into_u64 sum + total amounts utxos ≤ max_money
        → (d : Z) × (amounts.into_u64 d ≡ amounts.into_u64 sum + total amounts utxos)
    partial_sum [] sum h = (sum, omega arith)
    partial_sum (utxo ∷ utxos) sum h =
        let (d, e) = laws.adds sum utxo.value (omega (arith, h)) in
        let v = laws.added sum utxo.value d e in
        let (r, w) = partial_sum utxos d (omega (arith, h, v)) in (r, omega (arith, w, v))

    pub add_values_iff :
        (utxos : List (Utxo A Z)) (sum result : Z)
        → (add_values amounts utxos sum ≡ ok result)
          ↔ (amounts.into_u64 result ≡ amounts.into_u64 sum + total amounts utxos)
    unfolding add_values
    add_values_iff [] sum result =
        (λ h. ground arith, λ h. ap ok (laws.injective sum result (omega (arith, h))))
    add_values_iff (utxo ∷ utxos) sum result = (
      λ h. elim (Option-cases (amounts.add sum utxo.value)) [
        | inl e ↦ cc (rw e at h)
        | inr (d, e) ↦
            omega
              (arith, (add_values_iff utxos d result).0 (rw e at h), laws.added sum utxo.value d e)
      ],
      λ h.
          let (d, e, rest) = add_first sum utxo.value result (total amounts utxos) h in
          rw e ((add_values_iff utxos d result).1 rest),
    )

    sum_inputs_iff :
        (utxos : List (Utxo A Z)) (count : ℕ) (sum : Z) (n : ℕ) (result : Z)
        → count ≤ u64_max
        → (sum_inputs amounts utxos count sum ≡ ok (n, result)) ↔ (
            (n ≡ saturating_add count (length utxos))
            × (amounts.into_u64 result ≡ amounts.into_u64 sum + total amounts utxos))
    unfolding sum_inputs
    sum_inputs_iff [] count sum n result small = (
      λ h.
          let same : count ≡ n = cc h in
          let same' : sum ≡ result = cc h in
          (
            sym same ∙ sym (saturating_add-zero count small),
            omega (arith, ap amounts.into_u64 same'),
          ),
      λ (c, v).
          rw (c ∙ saturating_add-zero count small, laws.injective sum result (omega (arith, v)))
            refl,
    )
    sum_inputs_iff (utxo ∷ utxos) count sum n result small =
        let later = λ (d : Z).
          sum_inputs_iff utxos (saturating_add count 1) d n result (saturating_add-le count 1) in
        let counted = saturating_add-suc count (length utxos) in
        (
          λ h. elim (Option-cases (amounts.add sum utxo.value)) [
            | inl e ↦ cc (rw e at h)
            | inr (d, e) ↦
                let (c, v) = (later d).0 (rw e at h) in
                (c ∙ counted, omega (arith, v, laws.added sum utxo.value d e))
          ],
          λ (c, v).
              let (d, e, rest) = add_first sum utxo.value result (total amounts utxos) v in
              rw e ((later d).1 (c ∙ sym counted, rest)),
        )

    pub sum_steps_iff :
        (steps : List (ShieldingStep A Z)) (count : ℕ) (sum : Z) (n : ℕ) (result : Z)
        → count ≤ u64_max
        → (sum_steps amounts steps count sum ≡ ok (n, result)) ↔ (
            (n ≡ saturating_add count (length (inputs_of steps)))
            × (amounts.into_u64 result ≡ amounts.into_u64 sum + total amounts (inputs_of steps)))
    unfolding sum_steps
    sum_steps_iff [] count sum n result small = sum_inputs_iff [] count sum n result small
    sum_steps_iff (step ∷ steps) count sum n result small = (
      λ h.
          let ((m, d), e, rest) =
            bind-ok (sum_inputs amounts step.transparent_inputs count sum) _ _ h in
          let (c, v) = (sum_inputs_iff step.transparent_inputs count sum m d small).0 e in
          let (c', v') = (sum_steps_iff steps m d n result (bounded m c)).0 rest in
          (
            c' ∙ joined m c,
            omega (arith, v, v', total-append amounts step.transparent_inputs (inputs_of steps)),
          ),
      λ (c, v).
          let m = saturating_add count (length step.transparent_inputs) in
          let split = total-append amounts step.transparent_inputs (inputs_of steps) in
          let (d, w) =
            partial_sum step.transparent_inputs sum
              (omega (arith, v, split, laws.bounded result)) in
          rw ((sum_inputs_iff step.transparent_inputs count sum m d small).1 (refl, w)) (
            (sum_steps_iff steps m d n result (bounded m refl)).1
              (c ∙ sym (joined m refl), omega (arith, v, w, split))),
    )
      where
        bounded : (m : ℕ) → m ≡ saturating_add count (length step.transparent_inputs) → m ≤ u64_max
        bounded m c = omega (arith, c, saturating_add-le count (length step.transparent_inputs))

        joined :
            (m : ℕ)
            → m ≡ saturating_add count (length step.transparent_inputs)
            → saturating_add m (length (inputs_of steps))
              ≡ saturating_add count (length (step.transparent_inputs ++ inputs_of steps))
        joined m c =
            rw (c, length-append step.transparent_inputs (inputs_of steps))
              (saturating_add_lem count (length step.transparent_inputs) (length (inputs_of steps)))
