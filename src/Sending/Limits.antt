-- ===== src/Sending/Limits.antt =====
-- When a proposal is refused for its Orchard actions, and what the error says.
use zallet.Prelude.{
  ℕ, ◌≤◌, ◌<◌, max, List, [], ◌∷◌, ok, err, ltb, ◌≡◌, ◌↔◌, ◌⊎◌, Result-cases, inl, inr, refl, arith,
  Bool-cases,
}
use zallet.Privacy.Proposal.{Step}
use zallet.Sending.{ExcessKind, orchard_spends, orchard_outputs, excess, check_orchard_actions}

module _ {A : Type 0} where
  -- Neither the Orchard spends nor the Orchard outputs of a step exceed the limit.
  abbrev pub AreWithin : ℕ → List (Step A) → Type 0
  AreWithin limit [] = Unit {0}
  AreWithin limit (step ∷ steps) =
      ((orchard_spends step ≤ limit) × (orchard_outputs step ≤ limit)) × AreWithin limit steps

  check_orchard_actions_iff :
      (limit : ℕ) (steps : List (Step A))
      → (check_orchard_actions limit steps ≡ ok tt) ↔ AreWithin limit steps
  unfolding check_orchard_actions
  check_orchard_actions_iff limit [] = (λ h. tt, λ h. refl)
  check_orchard_actions_iff limit (step ∷ steps) =
      let later = check_orchard_actions_iff limit steps in
      elim (Bool-cases (ltb limit (max (orchard_spends step) (orchard_outputs step)))) [
        | inl over ↦ rw (over, check_orchard_actions) (λ h. cc, λ (w, _). absurd (ground arith))
        | inr within ↦
            rw (within, check_orchard_actions)
              (λ h. ((ground arith, ground arith), later.0 h), λ (_, rest). later.1 rest)
      ]

  check_orchard_actions-over :
      (limit : ℕ) (steps : List (Step A)) (n : ℕ) (kind : ExcessKind)
      → check_orchard_actions limit steps ≡ err (n, kind)
      → limit < n
  unfolding check_orchard_actions excess
  check_orchard_actions-over limit [] n kind h = cc
  check_orchard_actions-over limit (step ∷ steps) n kind h =
      elim (Bool-cases (ltb limit (max (orchard_spends step) (orchard_outputs step)))) [
        | inl over ↦ ground arith
        | inr within ↦ check_orchard_actions-over limit steps n kind (rw within at h)
      ]

  -- A proposal passes if in each step both the Orchard spends and the Orchard outputs are within the limit; and
  -- else it is refused, with an error that names a number above the limit.
  pub check_orchard_actions_lem :
      (limit : ℕ) (steps : List (Step A))
      → ((check_orchard_actions limit steps ≡ ok tt) × AreWithin limit steps)
        ⊎ ((n : ℕ) × (kind : ExcessKind) × (check_orchard_actions limit steps ≡ err (n, kind))
            × (limit < n)
            × ¬ AreWithin limit steps)
  check_orchard_actions_lem limit steps = elim (Result-cases (check_orchard_actions limit steps)) [
    | inl (tt, e) ↦ inl (e, (check_orchard_actions_iff limit steps).0 e)
    | inr ((n, kind), e) ↦ inr (
      n,
      kind,
      e,
      check_orchard_actions-over limit steps n kind e,
      λ w. cc ((check_orchard_actions_iff limit steps).1 w, e),
    )
  ]
