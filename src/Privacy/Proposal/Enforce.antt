-- ===== src/Privacy/Proposal/Enforce.antt =====
-- Enforcement agrees with the required policy and with what the steps reveal.
use zallet.Prelude.{
  true, false, List, [], ◌∷◌, none, some, ok, err, ◌≡◌, refl, ◌↔◌, arith, ◌⊎◌, inl, inr, Eq,
  Option-cases, ◌∙◌, sym, ap, ◌++◌,
}
use zallet.Privacy.{
  PrivacyPolicy, allow_revealed_amounts, allow_revealed_recipients, allow_revealed_senders,
  allow_fully_transparent, allow_linking_account_addresses, no_privacy, is_compatible_with,
  permits_revealed_amounts, permits_revealed_recipients, permits_revealed_senders,
  permits_fully_transparent, permits_linking_account_addresses, permits_no_privacy,
}
use zallet.Privacy.Lattice.{Leak, permits, is_compatible_with_iff, is_compatible_with_full}
use zallet.Privacy.Proposal.{
  Step, IncompatiblePrivacyPolicy, not_no_privacy, linking_account_addresses, fully_transparent,
  transparent_sender, transparent_recipient, transparent_change, transparent_receiver,
  revealing_sapling_amount, revealing_orchard_amount, revealing_receiver_amounts, check_step,
  enforce_privacy_policy, step_required, required_privacy_policy,
}
use zallet.Privacy.Proposal.Leaks.{reveals, any_reveals, permits-step_required, permits-required}

-- The policy that the message of an error asks for.
unfoldable pub policy_of : IncompatiblePrivacyPolicy → PrivacyPolicy
policy_of not_no_privacy = no_privacy
policy_of linking_account_addresses = allow_linking_account_addresses
policy_of fully_transparent = allow_fully_transparent
policy_of transparent_sender = allow_revealed_senders
policy_of transparent_recipient = allow_revealed_recipients
policy_of transparent_change = allow_revealed_recipients
policy_of transparent_receiver = allow_revealed_recipients
policy_of revealing_sapling_amount = allow_revealed_amounts
policy_of revealing_orchard_amount = allow_revealed_amounts
policy_of revealing_receiver_amounts = allow_revealed_amounts

module _ {A : Type 0} ⦃e : Eq A⦄ where
  check_step-some :
      (step : Step A) (policy : PrivacyPolicy) {x : IncompatiblePrivacyPolicy}
      → check_step step policy ≡ some x
      → (policy_of x ≡ step_required step) × (is_compatible_with policy (policy_of x) ≡ false)
  unfolding check_step policy_of step_required permits_revealed_amounts permits_revealed_recipients
      permits_revealed_senders permits_fully_transparent permits_linking_account_addresses
      permits_no_privacy
  check_step-some step policy h = ground arith

  check_step-none :
      (step : Step A) (policy : PrivacyPolicy)
      → check_step step policy ≡ none
      → is_compatible_with policy (step_required step) ≡ true
  unfolding check_step step_required permits_revealed_amounts permits_revealed_recipients
      permits_revealed_senders permits_fully_transparent permits_linking_account_addresses
      permits_no_privacy
  check_step-none step policy h = ground (arith, is_compatible_with_full policy)

  check_step_iff :
      (step : Step A) (policy : PrivacyPolicy)
      → (check_step step policy ≡ none)
        ↔ ((l : Leak) → reveals step l ≡ true → permits policy l ≡ true)
  check_step_iff step policy = (
    λ h l r.
        (is_compatible_with_iff policy (step_required step)).0 (check_step-none step policy h) l
          (permits-step_required step l ∙ r),
    λ h. elim (Option-cases (check_step step policy)) [
      | inl e ↦ e
      | inr (x, e) ↦ cc (
        (is_compatible_with_iff policy (step_required step)).1
            (λ l r. h l (sym (permits-step_required step l) ∙ r)),
        (check_step-some step policy e).0,
        (check_step-some step policy e).1,
      )
    ],
  )

  pub enforce_iff :
      (steps : List (Step A)) (policy : PrivacyPolicy)
      → (enforce_privacy_policy steps policy ≡ some (ok tt))
        ↔ ((l : Leak) → any_reveals steps l ≡ true → permits policy l ≡ true)
  unfolding enforce_privacy_policy
  enforce_iff [] policy = (λ h l r. cc, λ h. rw (is_compatible_with_full policy))
  enforce_iff (step ∷ steps) policy = elim (Option-cases (check_step step policy)) [
    | inl e ↦
        let here = (check_step_iff step policy).0 e in
        let later = enforce_iff steps policy in
        rw (e, enforce_privacy_policy)
          (λ h l r. ground (arith, here l, later.0 h l), λ h. later.1 (λ l r. h l (ground arith)))
    | inr (x, e) ↦
        rw (e, enforce_privacy_policy)
          (λ h. cc, λ h. cc (e, (check_step_iff step policy).1 (λ l r. h l (ground arith))))
  ]

  -- Enforcement succeeds exactly if the policy permits every leak that some step of the proposal
  -- reveals, and exactly if the policy is compatible with the one that the proposal requires.
  pub enforce-required_iff :
      (steps : List (Step A)) (policy : PrivacyPolicy)
      → ((enforce_privacy_policy steps policy ≡ some (ok tt))
          ↔ ((l : Leak) → any_reveals steps l ≡ true → permits policy l ≡ true))
        × ((enforce_privacy_policy steps policy ≡ some (ok tt))
            ↔ (is_compatible_with policy (required_privacy_policy steps) ≡ true))
  enforce-required_iff steps policy = (
    enforce_iff steps policy,
    (
      λ h.
          (is_compatible_with_iff policy (required_privacy_policy steps)).1
            (λ l r. (enforce_iff steps policy).0 h l (sym (permits-required steps l) ∙ r)),
      λ h. (enforce_iff steps policy).1 (λ l r.
          (is_compatible_with_iff policy (required_privacy_policy steps)).0 h l
            (permits-required steps l ∙ r)),
    ),
  )

  -- The step that an error is about: those before it pass, it requires the policy that the error
  -- names, and the caller's policy is not compatible with that one.
  pub record Refused (steps : List (Step A)) (policy : PrivacyPolicy)
      (x : IncompatiblePrivacyPolicy) : Type 0 where
    pub before : List (Step A)
    pub step : Step A
    pub after : List (Step A)
    pub split : steps ≡ before ++ step ∷ after
    pub passed : enforce_privacy_policy before policy ≡ some (ok tt)
    pub names : policy_of x ≡ step_required step
    pub refused : is_compatible_with policy (policy_of x) ≡ false

  -- Enforcement never panics: it succeeds, or it names the first step that the policy does not
  -- allow.
  pub enforce_total :
      (steps : List (Step A)) (policy : PrivacyPolicy)
      → (enforce_privacy_policy steps policy ≡ some (ok tt))
        ⊎ ((x : IncompatiblePrivacyPolicy) × (enforce_privacy_policy steps policy ≡ some (err x))
            × Refused steps policy x)
  unfolding enforce_privacy_policy
  enforce_total [] policy = inl (rw (is_compatible_with_full policy))
  enforce_total (step ∷ steps) policy = elim (Option-cases (check_step step policy)) [
    | inr (x, e) ↦ inr (
      x,
      rw (e, enforce_privacy_policy),
      record {
        before = [];
        step = step;
        after = steps;
        split = refl;
        passed = rw (is_compatible_with_full policy);
        names = (check_step-some step policy e).0;
        refused = (check_step-some step policy e).1;
      },
    )
    | inl e ↦ elim (enforce_total steps policy) [
      | inl fine ↦ inl (rw (e, enforce_privacy_policy) fine)
      | inr (x, failed, r) ↦ inr (
        x,
        rw (e, enforce_privacy_policy) failed,
        record {
          before = step ∷ r.before;
          step = r.step;
          after = r.after;
          split = ap (λ l. step ∷ l) r.split;
          passed = rw (e, enforce_privacy_policy) r.passed;
          names = r.names;
          refused = r.refused;
        },
      )
    ]
  ]
