-- ===== src/Privacy/Proposal/Leaks.antt =====
-- What a step reveals, described without the policies.
use zallet.Prelude.{
  Bool, false, ◌&&◌, ◌||◌, List, [], ◌∷◌, ◌≡◌, arith, Eq, has_two, length-collect_iff,
}
use zallet.Privacy.{PrivacyPolicy, full_privacy, meet}
use zallet.Privacy.Lattice.{
  Leak, amounts, recipients, senders, linked_addresses, permits, permits-meet,
}
use zallet.Privacy.Proposal.{
  transparent, sapling, orchard, Step, input_in_pool, has_transparent_recipient,
  has_transparent_change, has_sapling_recipient, has_orchard_recipient, step_required,
  required_from, required_privacy_policy,
}

module _ {A : Type 0} ⦃e : Eq A⦄ where
  -- What a step of a proposal reveals: the senders, if transparent funds are spent or shielded;
  -- that addresses are linked, if those funds come from two different addresses; the recipients,
  -- if a payment or the change is transparent; and amounts, with each of these, and if funds
  -- cross between the shielded pools.
  abbrev pub reveals : Step A → Leak → Bool
  reveals step senders = input_in_pool step transparent
  reveals step linked_addresses = input_in_pool step transparent && has_two step.transparent_inputs
  reveals step recipients = has_transparent_recipient step || has_transparent_change step
  reveals step amounts =
      input_in_pool step transparent
      || (has_transparent_recipient step || has_transparent_change step)
      || (input_in_pool step orchard && has_sapling_recipient step)
      || (input_in_pool step sapling && has_orchard_recipient step)

  abbrev pub any_reveals : List (Step A) → Leak → Bool
  any_reveals [] l = false
  any_reveals (step ∷ steps) l = reveals step l || any_reveals steps l

  pub permits-step_required :
      (step : Step A) (l : Leak) → permits (step_required step) l ≡ reveals step l
  unfolding step_required permits
  permits-step_required step amounts = ground (arith, length-collect_iff step.transparent_inputs)
  permits-step_required step recipients = ground (arith, length-collect_iff step.transparent_inputs)
  permits-step_required step senders = ground (arith, length-collect_iff step.transparent_inputs)
  permits-step_required step linked_addresses =
      ground (arith, length-collect_iff step.transparent_inputs)

  permits-required_from :
      (required : PrivacyPolicy) (steps : List (Step A)) (l : Leak)
      → permits (required_from required steps) l ≡ (permits required l || any_reveals steps l)
  unfolding required_from
  permits-required_from required [] l = ground arith
  permits-required_from required (step ∷ steps) l = ground (
    arith,
    permits-required_from (meet required (step_required step)) steps l,
    permits-meet required (step_required step) l,
    permits-step_required step l,
  )

  -- The required policy of a proposal permits exactly the leaks that some step reveals.
  pub permits-required :
      (steps : List (Step A)) (l : Leak)
      → permits (required_privacy_policy steps) l ≡ any_reveals steps l
  unfolding required_privacy_policy permits
  permits-required steps l = permits-required_from full_privacy steps l
