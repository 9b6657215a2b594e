-- ===== src/Privacy/Tests.antt =====
-- The theorems on privacy policies, applied: a step that spends Orchard notes to a Sapling receiver.
use zallet.Prelude.{String, true, false, ◌||◌, List, [], ◌∷◌, some, ok, err, ◌≡◌, ◌↔◌, ◌⊎◌}
use zallet.AsyncOp.Registry.{string_eq}
use zallet.Privacy.{
  full_privacy, allow_revealed_amounts, allow_revealed_senders, allow_revealed_recipients,
  allow_linking_account_addresses, no_privacy, meet, is_compatible_with,
}
use zallet.Privacy.Lattice.{Leak, permits, meet_laws}
use zallet.Privacy.Proposal.{
  Step, sapling, orchard, IncompatiblePrivacyPolicy, enforce_privacy_policy,
  required_privacy_policy,
}
use zallet.Privacy.Proposal.Leaks.{any_reveals}
use zallet.Privacy.Proposal.Enforce.{Refused, enforce-required_iff, enforce_total}

abbrev crossing : List (Step String)
crossing =
    record {
      is_shielding = false;
      transparent_inputs = [];
      shielded_notes = orchard ∷ [];
      payment_pools = sapling ∷ [];
      proposed_change = orchard ∷ [];
    }
    ∷ []

enforce-required_iff_example :
    ((enforce_privacy_policy crossing allow_revealed_amounts ≡ some (ok tt))
      ↔ ((l : Leak) → any_reveals crossing l ≡ true → permits allow_revealed_amounts l ≡ true))
    × ((enforce_privacy_policy crossing allow_revealed_amounts ≡ some (ok tt))
        ↔ (is_compatible_with allow_revealed_amounts (required_privacy_policy crossing) ≡ true))
enforce-required_iff_example = enforce-required_iff crossing allow_revealed_amounts

enforce_total_example :
    (enforce_privacy_policy crossing full_privacy ≡ some (ok tt))
    ⊎ ((x : IncompatiblePrivacyPolicy) × (enforce_privacy_policy crossing full_privacy
          ≡ some (err x))
        × Refused crossing full_privacy x)
enforce_total_example = enforce_total crossing full_privacy

meet_laws_example :
    ((l : Leak)
      → permits (meet allow_revealed_senders allow_revealed_recipients) l
        ≡ (permits allow_revealed_senders l || permits allow_revealed_recipients l))
    × (meet allow_revealed_senders allow_revealed_recipients
        ≡ meet allow_revealed_recipients allow_revealed_senders)
    × (meet (meet allow_revealed_senders allow_revealed_recipients) allow_linking_account_addresses
        ≡ meet allow_revealed_senders
            (meet allow_revealed_recipients allow_linking_account_addresses))
    × (meet allow_revealed_senders allow_revealed_senders ≡ allow_revealed_senders)
    × (meet full_privacy allow_revealed_senders ≡ allow_revealed_senders)
    × (meet no_privacy allow_revealed_senders ≡ no_privacy)
    × ((is_compatible_with allow_revealed_senders allow_revealed_recipients ≡ true) ↔ (
        (l : Leak)
        → permits allow_revealed_recipients l ≡ true
        → permits allow_revealed_senders l ≡ true))
meet_laws_example =
    meet_laws allow_revealed_senders allow_revealed_recipients allow_linking_account_addresses
