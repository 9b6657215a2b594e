-- ===== src/Shielding/Accounting/Remaining.antt =====
-- What z_shieldcoinbase reports as shielded, and as left for another call.
use zallet.Prelude.{
  min, ok_injective, ok_or-ok, ℕ, ◌+◌, ◌≤◌, String, List, [], ◌∷◌, ◌++◌, some, Result, ok, ok_or,
  ◌>>=◌, bind-ok, length, length-append, ◌≡◌, ◌↔◌, refl, sym, ap, ◌∙◌, arith,
}
use zallet.Shielding.{Utxo, ShieldingStep}
use zallet.Shielding.Accounting.{
  u64_max, saturating_add, checked_sub, Amounts, Preflight, sum_steps, sum_selected_inputs,
  add_values, enumerate_from, enumerate_eligible, preflight,
}
use zallet.Shielding.Accounting.Totals.{
  AreChecked, saturating_add_lem, saturating_add-zero, saturating_add-le, total, total-append,
  inputs_of, sub_iff, partial_sum, add_values_iff, sum_steps_iff,
}

checked_sub_iff : (a b c : ℕ) → (checked_sub a b ≡ some c) ↔ (c + b ≡ a)
unfolding checked_sub
checked_sub_iff a b c = (λ h. ground arith, λ h. ground arith)

-- The outputs that a query finds for each of the addresses, in their order.
abbrev pub read_all :
    {A Z : Type 0}
    → (A → Result String (List (Utxo A Z)))
    → List A
    → Result String (List (Utxo A Z))
read_all read [] = ok []
read_all read (addr ∷ addrs) = do utxos ← read addr; rest ← read_all read addrs; ok (utxos ++ rest)

module _ {A Z : Type 0} (amounts : Amounts Z) {max_money : ℕ} (laws : AreChecked amounts max_money)
    (read : A → Result String (List (Utxo A Z))) where
  enumerate_from_iff :
      (addrs : List A) (eligible : List (Utxo A Z)) (count : ℕ) (sum : Z) (n : ℕ) (result : Z)
      → read_all read addrs ≡ ok eligible
      → count ≤ u64_max
      → (enumerate_from amounts read addrs count sum ≡ ok (n, result)) ↔ (
          (n ≡ saturating_add count (length eligible))
          × (amounts.into_u64 result ≡ amounts.into_u64 sum + total amounts eligible))
  unfolding enumerate_from
  enumerate_from_iff [] eligible count sum n result found small =
      let nothing : [] ≡ eligible = cc found in
      rw (← nothing) (
        λ h.
            let same : count ≡ n = cc h in
            let same' : sum ≡ result = cc h in
            (
              sym same ∙ sym (saturating_add-zero count small),
              omega (arith, ap amounts.into_u64 same'),
            ),
        λ (c, v).
            rw (c ∙ saturating_add-zero count small, laws.injective sum result (omega (arith, v)))
              refl,
      )
  enumerate_from_iff (addr ∷ addrs) eligible count sum n result found small =
      let (utxos, e, found') = bind-ok (read addr) _ _ found in
      let (rest, e', found'') = bind-ok (read_all read addrs) _ _ found' in
      let all : utxos ++ rest ≡ eligible = cc found'' in
      let m = saturating_add count (length utxos) in
      let joined : saturating_add m (length rest) ≡ saturating_add count (length eligible) =
        saturating_add_lem count (length utxos) (length rest)
        ∙ ap (saturating_add count) (sym (length-append utxos rest) ∙ ap length all) in
      let split : total amounts eligible ≡ total amounts utxos + total amounts rest =
        sym (ap (total amounts) all) ∙ total-append amounts utxos rest in
      let later = λ (d : Z).
        enumerate_from_iff addrs rest m d n result e' (saturating_add-le count (length utxos)) in
      rw e (
        λ h.
            let (d, f, h') = bind-ok (add_values amounts utxos sum) _ _ h in
            let v = (add_values_iff amounts laws utxos sum d).0 f in
            let (c', v') = (later d).0 h' in (c' ∙ joined, omega (arith, v, v', split)),
        λ (c, v).
            let (d, w) =
              partial_sum amounts laws utxos sum (omega (arith, v, split, laws.bounded result)) in
            rw ((add_values_iff amounts laws utxos sum d).1 w)
              ((later d).1 (c ∙ sym joined, omega (arith, v, w, split))),
      )

  -- The numbers of a call, for the outputs selected and those eligible.
  pub record Reports {JsonZec : Type 0} (value_from_zatoshis : Z → JsonZec)
      (selected eligible : List (Utxo A Z)) (p : Preflight JsonZec) : Type 0 where
    pub shielding : Z
    pub remaining : Z
    pub shielding_shown : value_from_zatoshis shielding ≡ p.shielding_value
    pub remaining_shown : value_from_zatoshis remaining ≡ p.remaining_value
    pub shielding_total : amounts.into_u64 shielding ≡ total amounts selected
    pub remaining_total :
        amounts.into_u64 remaining + amounts.into_u64 shielding ≡ total amounts eligible
    pub eligible_range : total amounts eligible ≤ max_money
    pub shielding_count : p.shielding_utxos ≡ min u64_max (length selected)
    pub remaining_count : p.remaining_utxos + p.shielding_utxos ≡ min u64_max (length eligible)

  from_zero : (n : ℕ) → saturating_add 0 n ≡ min u64_max n
  unfolding saturating_add
  from_zero n = omega arith

  -- If the wallet answers for every address: the call reports numbers exactly if the value of the eligible outputs
  -- is in range, the outputs selected and their value are what it shields, and with what remains they make all
  -- eligible outputs and their value; the counts stop at the last 64-bit number.
  pub preflight_iff :
      {JsonZec : Type 0} (value_from_zatoshis : Z → JsonZec) (steps : List (ShieldingStep A Z))
      (from_addrs : List A) (eligible : List (Utxo A Z)) (p : Preflight JsonZec)
      → read_all read from_addrs ≡ ok eligible
      → (preflight amounts read value_from_zatoshis steps from_addrs ≡ ok p)
        ↔ Reports value_from_zatoshis (inputs_of steps) eligible p
  unfolding preflight sum_selected_inputs enumerate_eligible
  preflight_iff value_from_zatoshis steps from_addrs eligible p found = (
    λ h.
        let ((s, shielding), e, h1) =
          bind-ok (sum_steps amounts steps 0 amounts.zero_value) _ _ h in
        let ((t, whole), f, h2) =
          bind-ok (enumerate_from amounts read from_addrs 0 amounts.zero_value) _ _ h1 in
        let (r, g, h3) = bind-ok (ok_or (checked_sub t s) _) _ _ h2 in
        let (remaining, k, h4) = bind-ok (ok_or (amounts.sub whole shielding) _) _ _ h3 in
        let (n, v) =
          (sum_steps_iff amounts laws steps 0 amounts.zero_value s shielding (omega arith)).0 e in
        let (m, w) =
          (enumerate_from_iff from_addrs eligible 0 amounts.zero_value t whole found
              (omega arith)).0
            f in
        let left = (checked_sub_iff t s r).0 (ok_or-ok (checked_sub t s) _ r g) in
        let rest =
          (sub_iff amounts laws whole shielding remaining).0
            (ok_or-ok (amounts.sub whole shielding) _ remaining k) in
        rw (← ok_injective _ p h4) (record {
          shielding = shielding;
          remaining = remaining;
          shielding_shown = refl;
          remaining_shown = refl;
          shielding_total = omega (arith, v, laws.zero_lem);
          remaining_total = omega (arith, w, rest, laws.zero_lem);
          eligible_range = omega (arith, w, laws.zero_lem, laws.bounded whole);
          shielding_count = n ∙ from_zero (length (inputs_of steps));
          remaining_count = left ∙ m ∙ from_zero (length eligible);
        }),
    λ r.
        let (whole, w) =
          partial_sum amounts laws eligible amounts.zero_value
            (omega (arith, r.eligible_range, laws.zero_lem)) in
        rw
          (
            (sum_steps_iff amounts laws steps 0 amounts.zero_value p.shielding_utxos r.shielding
                  (omega arith)).1
                (
                  r.shielding_count ∙ sym (from_zero (length (inputs_of steps))),
                  omega (arith, r.shielding_total, laws.zero_lem),
                ),
            (enumerate_from_iff from_addrs eligible 0 amounts.zero_value
                  (min u64_max (length eligible)) whole found (omega arith)).1
                (sym (from_zero (length eligible)), w),
            (checked_sub_iff (min u64_max (length eligible)) p.shielding_utxos p.remaining_utxos).1
                r.remaining_count,
            (sub_iff amounts laws whole r.shielding r.remaining).1
                (omega (arith, w, r.remaining_total, laws.zero_lem)),
          )
          (rw (r.remaining_shown, r.shielding_shown) refl),
  )
