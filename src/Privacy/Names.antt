-- ===== src/Privacy/Names.antt =====
-- The names of the policies, as a caller gives them.
use zallet.Prelude.{false, String, none, some, ok, ◌≡◌, refl, ◌↔◌, arith, eq_iff, str_eq}
use zallet.Privacy.{
  PrivacyPolicy, full_privacy, allow_revealed_amounts, allow_revealed_recipients,
  allow_revealed_senders, allow_fully_transparent, allow_linking_account_addresses, no_privacy,
  name, from_str, parse_privacy_policy,
}

pub from_str-name : (p : PrivacyPolicy) → from_str (name p) ≡ some p
unfolding from_str name
from_str-name full_privacy = refl
from_str-name allow_revealed_amounts = refl
from_str-name allow_revealed_recipients = refl
from_str-name allow_revealed_senders = refl
from_str-name allow_fully_transparent = refl
from_str-name allow_linking_account_addresses = refl
from_str-name no_privacy = refl

name_of_from_str : (s : String) (p : PrivacyPolicy) → from_str s ≡ some p → s ≡ name p
unfolding from_str name
name_of_from_str s p h = ground (
  arith,
  eq_iff s "FullPrivacy",
  eq_iff s "AllowRevealedAmounts",
  eq_iff s "AllowRevealedRecipients",
  eq_iff s "AllowRevealedSenders",
  eq_iff s "AllowFullyTransparent",
  eq_iff s "AllowLinkingAccountAddresses",
  eq_iff s "NoPrivacy",
)

name-ne-legacy : (p : PrivacyPolicy) → str_eq (name p) "LegacyCompat" ≡ false
unfolding name
name-ne-legacy full_privacy = refl
name-ne-legacy allow_revealed_amounts = refl
name-ne-legacy allow_revealed_recipients = refl
name-ne-legacy allow_revealed_senders = refl
name-ne-legacy allow_fully_transparent = refl
name-ne-legacy allow_linking_account_addresses = refl
name-ne-legacy no_privacy = refl

-- A given policy is accepted exactly if it is the name of a policy, which is the result; with no
-- policy given the result is `FullPrivacy`.
parse_privacy_policy_iff :
    (p : PrivacyPolicy)
    → ((s : String) → (parse_privacy_policy (some s) ≡ ok p) ↔ (s ≡ name p))
      × (parse_privacy_policy none ≡ ok full_privacy)
unfolding parse_privacy_policy
parse_privacy_policy_iff p = (
  λ s. (
    λ h. name_of_from_str s p (ground arith),
    λ h. rw h (rw (name-ne-legacy p, from_str-name p)),
  ),
  refl,
)
