-- ===== src/Sending/Tests.antt =====
-- The theorems on sending, applied.
use zallet.Prelude.{
  ℕ, ◌-◌, ◌<◌, true, false, String, List, [], ◌∷◌, Option, none, some, ok, err, if◌then◌else◌, leb,
  ◌≡◌, ◌⊎◌, refl,
}
use zallet.Privacy.{full_privacy, is_compatible_with, permits_revealed_amounts}
use zallet.Privacy.Proposal.{Step, orchard}
use zallet.Sending.{
  ExcessKind, inputs, check_orchard_actions, orchard_spends, orchard_outputs, count_orchard, excess,
}
use zallet.Sending.Limits.{AreWithin, check_orchard_actions_lem}
use zallet.Sending.Recipients.{
  Recipient, unified, check_payments, check_payment, check_unified, all_allowed,
  check_payments-allowed,
}

-- Two spends and one output.
abbrev one_step : List (Step String)
one_step =
    record {
      is_shielding = false;
      transparent_inputs = [];
      shielded_notes = orchard ∷ orchard ∷ [];
      payment_pools = [];
      proposed_change = orchard ∷ [];
    }
    ∷ []

exceeded : check_orchard_actions 1 one_step ≡ err (2, inputs)
unfolding check_orchard_actions orchard_spends orchard_outputs count_orchard excess
exceeded = refl

check_orchard_actions_lem_example :
    ((check_orchard_actions 1 one_step ≡ ok tt) × AreWithin 1 one_step)
    ⊎ ((n : ℕ) × (kind : ExcessKind) × (check_orchard_actions 1 one_step ≡ err (n, kind))
        × (1 < n)
        × ¬ AreWithin 1 one_step)
check_orchard_actions_lem_example = check_orchard_actions_lem 1 one_step

abbrev sub : ℕ → ℕ → Option ℕ
sub a b = if leb b a then some (a - b) else none

abbrev two_payments : List (Recipient × ℕ)
two_payments = (Recipient.sapling, 3) ∷ (unified true true, 4) ∷ []

passed : check_payments sub full_privacy two_payments (10, 10) ≡ ok (7, 6)
unfolding check_payments check_payment check_unified permits_revealed_amounts is_compatible_with
passed = refl

check_payments-allowed_example : all_allowed sub full_privacy two_payments ≡ true
check_payments-allowed_example =
    check_payments-allowed sub full_privacy two_payments (10, 10) (7, 6) passed
