-- ===== src/Shielding/Keys/Lookup.antt =====
-- Which keys are collected for a proposal.
use zallet.Prelude.{
  ℕ, zero, suc, ◌+◌, true, ◌&&◌, List, [], ◌∷◌, ◌++◌, Option, none, some, Result, ok, map_err,
  map_err-ok, ok_injective, bind-ok, Eq, contains, if◌then◌else◌, replicate, ◌≡◌, ◌⊎◌, inl, inr,
  refl, sym, ap, ◌∙◌, arith, Bool-cases,
}
use mathlib.Core.List.{append_assoc}
use zallet.Shielding.{Utxo, ShieldingStep}
use zallet.Shielding.Keys.{
  AddressSource, KeyStoreError, key_error, standalone_addrs, push_key, collect_input,
  collect_inputs, collect_steps, collect_standalone_transparent_keys,
}

replicate_add {ℓ} :
    {K : Type ℓ} (m n : ℕ) (k : K) → replicate m k ++ replicate n k ≡ replicate (m + n) k
replicate_add zero n k = let e : n ≡ 0 + n = omega arith in ap (λ (t : ℕ). replicate t k) e
replicate_add (suc m) n k =
    let e : suc (m + n) ≡ suc m + n = omega arith in
    ap (λ l. k ∷ l) (replicate_add m n k) ∙ ap (λ (t : ℕ). replicate t k) e

module _ {A SecretKey : Type 0} ⦃e : Eq A⦄ where
  -- The keys collected under an address.
  abbrev pub keys_at : A → List (A × List SecretKey) → List SecretKey
  keys_at a [] = []
  keys_at a ((b, ks) ∷ keys) = if e.beq b a then ks else keys_at a keys

  keys_at-push_key :
      (a b : A) (k : SecretKey) (keys : List (A × List SecretKey))
      → keys_at a (push_key b k keys)
        ≡ (if e.beq b a then keys_at a keys ++ (k ∷ []) else keys_at a keys)
  unfolding push_key
  keys_at-push_key a b k [] = refl
  keys_at-push_key a b k ((c, ks) ∷ keys) =
      ground (arith, keys_at-push_key a b k keys, e.beq_iff c b, e.beq_iff b a, e.beq_iff c a)

module _ {A : Type 0} ⦃e : Eq A⦄ where
  abbrev uses_input : List A → A → Option A → ℕ
  uses_input standalone a none = 0
  uses_input standalone a (some b) = if e.beq b a && contains standalone b then 1 else 0

  -- How many of the inputs stand at the address, if it is a standalone one.
  abbrev uses_inputs : {Z : Type 0} → List A → A → List (Utxo A Z) → ℕ
  uses_inputs standalone a [] = 0
  uses_inputs standalone a (utxo ∷ utxos) =
      uses_input standalone a utxo.script_address + uses_inputs standalone a utxos

  abbrev pub uses_steps : {Z : Type 0} → List A → A → List (ShieldingStep A Z) → ℕ
  uses_steps standalone a [] = 0
  uses_steps standalone a (step ∷ steps) =
      uses_inputs standalone a step.transparent_inputs + uses_steps standalone a steps

module _ {A SecretKey : Type 0} ⦃e : Eq A⦄ (standalone : List A)
    (decrypt : A → Result KeyStoreError SecretKey) (a : A) where
  -- The keys under the address grow by copies of its key.
  Grows : ℕ → List (A × List SecretKey) → List (A × List SecretKey) → Type 0
  Grows n before after =
      ((n ≡ 0) × (keys_at a after ≡ keys_at a before))
      ⊎ ((k : SecretKey) × (decrypt a ≡ ok k)
          × (keys_at a after ≡ keys_at a before ++ replicate n k))

  Grows-trans :
      (m n : ℕ) (before between after : List (A × List SecretKey))
      → Grows m before between
      → Grows n between after
      → Grows (m + n) before after
  unfolding Grows
  Grows-trans m n before between after (inl (z, s)) (inl (z', s')) = inl (omega arith, s' ∙ s)
  Grows-trans m n before between after (inl (z, s)) (inr (k, d, s')) =
      let e : n ≡ m + n = omega arith in
      inr (
        k,
        d,
        s' ∙ ap (λ l. l ++ replicate n k) s ∙ ap (λ (t : ℕ). keys_at a before ++ replicate t k) e,
      )
  Grows-trans m n before between after (inr (k, d, s)) (inl (z', s')) =
      let e : m ≡ m + n = omega arith in
      inr (k, d, s' ∙ s ∙ ap (λ (t : ℕ). keys_at a before ++ replicate t k) e)
  Grows-trans m n before between after (inr (k, d, s)) (inr (k', d', s')) =
      let same : k' ≡ k = cc (d, d') in
      inr (
        k,
        d,
        s' ∙ rw (same, s, append_assoc) (ap (λ l. keys_at a before ++ l) (replicate_add m n k)),
      )

  push_key-Grows :
      (b : A) (k : SecretKey) (before : List (A × List SecretKey))
      → contains standalone b ≡ true
      → decrypt b ≡ ok k
      → Grows (uses_input standalone a (some b)) before (push_key b k before)
  unfolding Grows
  push_key-Grows b k before listed d = elim (Bool-cases (e.beq b a)) [
    | inl here ↦
        rw (here, listed)
          (inr (k, rw (← (e.beq_iff b a).0 here) d, keys_at-push_key a b k before ∙ rw here refl))
    | inr there ↦ rw there (inl (refl, keys_at-push_key a b k before ∙ rw there refl))
  ]

  collect_input-Grows :
      (input : Option A) (before after : List (A × List SecretKey))
      → collect_input standalone decrypt input before ≡ ok after
      → Grows (uses_input standalone a input) before after
  unfolding collect_input Grows
  collect_input-Grows none before after h =
      inl (refl, ap (keys_at a) (sym (ok_injective before after h)))
  collect_input-Grows (some b) before after h = elim (Bool-cases (contains standalone b)) [
    | inr other ↦
        rw other
          (inl (ground arith, ap (keys_at a) (sym (ok_injective before after (rw other at h)))))
    | inl listed ↦
        let (k, d, h') = bind-ok (map_err key_error (decrypt b)) _ _ (rw listed at h) in
        rw (← ok_injective _ after h')
          (push_key-Grows b k before listed (map_err-ok key_error (decrypt b) k d))
  ]

  collect_inputs-Grows :
      {Z : Type 0} (utxos : List (Utxo A Z)) (before after : List (A × List SecretKey))
      → collect_inputs standalone decrypt utxos before ≡ ok after
      → Grows (uses_inputs standalone a utxos) before after
  unfolding collect_inputs
  collect_inputs-Grows [] before after h =
      unfold Grows in inl (refl, ap (keys_at a) (sym (ok_injective before after h)))
  collect_inputs-Grows (utxo ∷ utxos) before after h =
      let (between, here, later) =
        bind-ok (collect_input standalone decrypt utxo.script_address before) _ _ h in
      Grows-trans (uses_input standalone a utxo.script_address) (uses_inputs standalone a utxos)
        before between after (collect_input-Grows utxo.script_address before between here)
        (collect_inputs-Grows utxos between after later)

  collect_steps-Grows :
      {Z : Type 0} (steps : List (ShieldingStep A Z)) (before after : List (A × List SecretKey))
      → collect_steps standalone decrypt steps before ≡ ok after
      → Grows (uses_steps standalone a steps) before after
  unfolding collect_steps
  collect_steps-Grows [] before after h =
      unfold Grows in inl (refl, ap (keys_at a) (sym (ok_injective before after h)))
  collect_steps-Grows (step ∷ steps) before after h =
      let (between, here, later) =
        bind-ok (collect_inputs standalone decrypt step.transparent_inputs before) _ _ h in
      Grows-trans (uses_inputs standalone a step.transparent_inputs) (uses_steps standalone a steps)
        before between after (collect_inputs-Grows step.transparent_inputs before between here)
        (collect_steps-Grows steps between after later)

module _ {A SecretKey Z : Type 0} ⦃e : Eq A⦄ (decrypt : A → Result KeyStoreError SecretKey) where
  -- If the keys of a proposal are collected, then an address that no input spends from, or that is not a
  -- standalone one, has none; and a standalone address has its key, as often as inputs spend from it.
  pub collect_standalone_transparent_keys_lem :
      (receivers : List (A × AddressSource)) (steps : List (ShieldingStep A Z))
      (keys : List (A × List SecretKey)) (a : A)
      → collect_standalone_transparent_keys (ok receivers) decrypt steps ≡ ok keys
      → ((uses_steps (standalone_addrs receivers) a steps ≡ 0) × (keys_at a keys ≡ []))
        ⊎ ((k : SecretKey) × (decrypt a ≡ ok k)
            × (keys_at a keys ≡ replicate (uses_steps (standalone_addrs receivers) a steps) k))
  unfolding collect_standalone_transparent_keys Grows
  collect_standalone_transparent_keys_lem receivers steps keys a h =
      collect_steps-Grows (standalone_addrs receivers) decrypt a steps [] keys h
