-- ===== src/Privacy/Proposal.antt =====
-- Enforcing a privacy policy on a proposal, and the policy that a proposal requires
-- (zallet/src/components/json_rpc/payments.rs, `enforce_privacy_policy` and
-- `required_privacy_policy`). A step is what the code reads of a proposal's step.
pub mod Leaks
pub mod Enforce
use zallet.Prelude.{
  ℕ, Bool, true, false, not, ◌&&◌, ◌||◌, List, [], ◌∷◌, map, Option, none, some, Result, ok, err,
  if◌then◌else◌, ltb, length, Eq, collect,
}
use zallet.Privacy.{
  PrivacyPolicy, full_privacy, allow_revealed_amounts, allow_revealed_recipients,
  allow_revealed_senders, allow_fully_transparent, allow_linking_account_addresses, no_privacy,
  meet, is_compatible_with, permits_revealed_amounts, permits_revealed_recipients,
  permits_revealed_senders, permits_fully_transparent, permits_linking_account_addresses,
  permits_no_privacy,
}

pub data PoolType : Type 0 where
  transparent sapling orchard : PoolType

abbrev pub pool_eq : PoolType → PoolType → Bool
pool_eq transparent transparent = true
pool_eq sapling sapling = true
pool_eq orchard orchard = true
pool_eq _ _ = false

-- The errors of `enforce_privacy_policy` and of the checks of a payment.
pub data IncompatiblePrivacyPolicy : Type 0 where
  not_no_privacy linking_account_addresses fully_transparent : IncompatiblePrivacyPolicy
  transparent_sender transparent_recipient transparent_change : IncompatiblePrivacyPolicy
  transparent_receiver revealing_sapling_amount : IncompatiblePrivacyPolicy
  revealing_orchard_amount revealing_receiver_amounts : IncompatiblePrivacyPolicy

-- A step of a proposal: whether it shields, the recipient address of each transparent input,
-- the pool of each spent note, of each payment and of each change output.
pub record Step (A : Type 0) : Type 0 where
  pub is_shielding : Bool
  pub transparent_inputs : List A
  pub shielded_notes : List PoolType
  pub payment_pools : List PoolType
  pub proposed_change : List PoolType

abbrev pub any_pool : PoolType → List PoolType → Bool
any_pool p [] = false
any_pool p (q ∷ qs) = pool_eq q p || any_pool p qs

abbrev pub is_empty {ℓ} : {A : Type ℓ} → List A → Bool
is_empty [] = true
is_empty (_ ∷ _) = false

module _ {A : Type 0} where
  unfoldable pub input_in_pool : Step A → PoolType → Bool
  input_in_pool step transparent = step.is_shielding || not (is_empty step.transparent_inputs)
  input_in_pool step sapling = any_pool sapling step.shielded_notes
  input_in_pool step orchard = any_pool orchard step.shielded_notes

  unfoldable pub output_in_pool : Step A → PoolType → Bool
  output_in_pool step pool_type = any_pool pool_type step.payment_pools

  unfoldable pub change_in_pool : Step A → PoolType → Bool
  change_in_pool step pool_type = any_pool pool_type step.proposed_change

-- The locals of a step.
module _ {A : Type 0} where
  unfoldable pub has_transparent_recipient : Step A → Bool
  unfolding output_in_pool
  has_transparent_recipient step = output_in_pool step transparent

  unfoldable pub has_transparent_change : Step A → Bool
  unfolding change_in_pool
  has_transparent_change step = change_in_pool step transparent

  unfoldable pub has_sapling_recipient : Step A → Bool
  unfolding output_in_pool change_in_pool
  has_sapling_recipient step = output_in_pool step sapling || change_in_pool step sapling

  unfoldable pub has_orchard_recipient : Step A → Bool
  unfolding output_in_pool change_in_pool
  has_orchard_recipient step = output_in_pool step orchard || change_in_pool step orchard

module _ {A : Type 0} ⦃e : Eq A⦄ where
  -- What one step of the loop of `enforce_privacy_policy` returns early with, if anything.
  unfoldable pub check_step : Step A → PrivacyPolicy → Option IncompatiblePrivacyPolicy
  check_step step policy =
      if input_in_pool step transparent
      then if ltb 1 (length (collect step.transparent_inputs))
        then if has_transparent_recipient step || has_transparent_change step
          then if not (permits_no_privacy policy) then some not_no_privacy else none
          else if not (permits_linking_account_addresses policy)
          then some linking_account_addresses
          else none
        else if has_transparent_recipient step || has_transparent_change step
        then if not (permits_fully_transparent policy) then some fully_transparent else none
        else if not (permits_revealed_senders policy)
        then some transparent_sender
        else none
      else if has_transparent_recipient step
      then if not (permits_revealed_recipients policy) then some transparent_recipient else none
      else if has_transparent_change step
      then if not (permits_revealed_recipients policy) then some transparent_change else none
      else if input_in_pool step orchard && has_sapling_recipient step
      then if not (permits_revealed_amounts policy) then some revealing_sapling_amount else none
      else if input_in_pool step sapling && has_orchard_recipient step
      then if not (permits_revealed_amounts policy) then some revealing_orchard_amount else none
      else none

  -- `none` is the panic of the `assert!` behind the loop.
  unfoldable pub enforce_privacy_policy :
      List (Step A) → PrivacyPolicy → Option (Result IncompatiblePrivacyPolicy (Unit {0}))
  unfolding check_step
  enforce_privacy_policy [] policy =
      if is_compatible_with policy full_privacy then some (ok tt) else none
  enforce_privacy_policy (step ∷ steps) policy = elim (check_step step policy) [
    | some e ↦ some (err e)
    | none ↦ enforce_privacy_policy steps policy
  ]

  unfoldable pub step_required : Step A → PrivacyPolicy
  step_required step =
      if input_in_pool step transparent
      then if ltb 1 (length (collect step.transparent_inputs))
        then if has_transparent_recipient step || has_transparent_change step
          then no_privacy
          else allow_linking_account_addresses
        else if has_transparent_recipient step || has_transparent_change step
        then allow_fully_transparent
        else allow_revealed_senders
      else if has_transparent_recipient step || has_transparent_change step
      then allow_revealed_recipients
      else if (input_in_pool step orchard && has_sapling_recipient step)
          || (input_in_pool step sapling && has_orchard_recipient step)
      then allow_revealed_amounts
      else full_privacy

  -- The `fold` over the steps, with its accumulator.
  unfoldable pub required_from : PrivacyPolicy → List (Step A) → PrivacyPolicy
  unfolding step_required
  required_from required [] = required
  required_from required (step ∷ steps) = required_from (meet required (step_required step)) steps

  unfoldable pub required_privacy_policy : List (Step A) → PrivacyPolicy
  unfolding required_from
  required_privacy_policy steps = required_from full_privacy steps
