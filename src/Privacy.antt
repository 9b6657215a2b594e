-- ===== src/Privacy.antt =====
-- Privacy policies and their enforcement on a transaction proposal
-- (zallet/src/components/json_rpc/payments.rs).
pub mod Lattice
pub mod Names
pub mod Proposal
mod Tests
use zallet.Prelude.{
  Bool, true, false, String, Option, none, some, str_eq, if◌then◌else◌, Result, ok, err, ok_or,
  str_append,
}
use zallet.Rpc.Error.{RpcResult, with_static, with_message, invalid_parameter}

pub data PrivacyPolicy : Type 0 where
  full_privacy allow_revealed_amounts allow_revealed_recipients : PrivacyPolicy
  allow_revealed_senders allow_fully_transparent allow_linking_account_addresses : PrivacyPolicy
  no_privacy : PrivacyPolicy

pub PrivacyPolicy-discrete : Discrete PrivacyPolicy
PrivacyPolicy-discrete = hlevel

-- `From<PrivacyPolicy> for &'static str`.
unfoldable pub name : PrivacyPolicy → String
name full_privacy = "FullPrivacy"
name allow_revealed_amounts = "AllowRevealedAmounts"
name allow_revealed_recipients = "AllowRevealedRecipients"
name allow_revealed_senders = "AllowRevealedSenders"
name allow_fully_transparent = "AllowFullyTransparent"
name allow_linking_account_addresses = "AllowLinkingAccountAddresses"
name no_privacy = "NoPrivacy"

unfoldable pub from_str : String → Option PrivacyPolicy
from_str s =
    if str_eq s "FullPrivacy"
    then some full_privacy
    else if str_eq s "AllowRevealedAmounts"
    then some allow_revealed_amounts
    else if str_eq s "AllowRevealedRecipients"
    then some allow_revealed_recipients
    else if str_eq s "AllowRevealedSenders"
    then some allow_revealed_senders
    else if str_eq s "AllowFullyTransparent"
    then some allow_fully_transparent
    else if str_eq s "AllowLinkingAccountAddresses"
    then some allow_linking_account_addresses
    else if str_eq s "NoPrivacy"
    then some no_privacy
    else none

unfoldable pub parse_privacy_policy : Option String → RpcResult PrivacyPolicy
unfolding from_str
parse_privacy_policy none = ok full_privacy
parse_privacy_policy (some s) =
    if str_eq s "LegacyCompat"
    then err (with_static invalid_parameter "LegacyCompat privacy policy is unsupported in Zallet")
    else ok_or (from_str s)
        (with_message invalid_parameter (str_append "Unknown privacy policy " s))

-- The meet of two policies: the strictest that allows everything that either allows.
unfoldable pub meet : PrivacyPolicy → PrivacyPolicy → PrivacyPolicy
meet full_privacy other = other
meet allow_revealed_amounts full_privacy = allow_revealed_amounts
meet allow_revealed_amounts other = other
meet allow_revealed_recipients full_privacy = allow_revealed_recipients
meet allow_revealed_recipients allow_revealed_amounts = allow_revealed_recipients
meet allow_revealed_recipients allow_revealed_senders = allow_fully_transparent
meet allow_revealed_recipients allow_linking_account_addresses = no_privacy
meet allow_revealed_recipients other = other
meet allow_revealed_senders full_privacy = allow_revealed_senders
meet allow_revealed_senders allow_revealed_amounts = allow_revealed_senders
meet allow_revealed_senders allow_revealed_recipients = allow_fully_transparent
meet allow_revealed_senders other = other
meet allow_fully_transparent full_privacy = allow_fully_transparent
meet allow_fully_transparent allow_revealed_amounts = allow_fully_transparent
meet allow_fully_transparent allow_revealed_recipients = allow_fully_transparent
meet allow_fully_transparent allow_revealed_senders = allow_fully_transparent
meet allow_fully_transparent allow_linking_account_addresses = no_privacy
meet allow_fully_transparent other = other
meet allow_linking_account_addresses full_privacy = allow_linking_account_addresses
meet allow_linking_account_addresses allow_revealed_amounts = allow_linking_account_addresses
meet allow_linking_account_addresses allow_revealed_senders = allow_linking_account_addresses
meet allow_linking_account_addresses allow_revealed_recipients = no_privacy
meet allow_linking_account_addresses allow_fully_transparent = no_privacy
meet allow_linking_account_addresses other = other
meet no_privacy other = no_privacy

abbrev policy_eq : PrivacyPolicy → PrivacyPolicy → Bool
unfolding PrivacyPolicy-discrete
policy_eq a b = elim (PrivacyPolicy-discrete a b) [ yes _ ↦ true | no _ ↦ false ]

unfoldable pub is_compatible_with : PrivacyPolicy → PrivacyPolicy → Bool
unfolding meet PrivacyPolicy-discrete
is_compatible_with self other = policy_eq self (meet self other)

unfoldable pub permits_revealed_amounts : PrivacyPolicy → Bool
permits_revealed_amounts p = is_compatible_with p allow_revealed_amounts

unfoldable pub permits_revealed_recipients : PrivacyPolicy → Bool
permits_revealed_recipients p = is_compatible_with p allow_revealed_recipients

unfoldable pub permits_revealed_senders : PrivacyPolicy → Bool
permits_revealed_senders p = is_compatible_with p allow_revealed_senders

unfoldable pub permits_fully_transparent : PrivacyPolicy → Bool
permits_fully_transparent p = is_compatible_with p allow_fully_transparent

unfoldable pub permits_linking_account_addresses : PrivacyPolicy → Bool
permits_linking_account_addresses p = is_compatible_with p allow_linking_account_addresses

unfoldable pub permits_no_privacy : PrivacyPolicy → Bool
permits_no_privacy p = is_compatible_with p no_privacy
