-- ===== src/Shielding.antt =====
-- Shielding of coinbase outputs: the parameters of z_shieldcoinbase
-- (zallet/src/components/json_rpc/methods/z_shieldcoinbase.rs). The types and parsers of uuid, zcash_keys and
-- zcash_address are parameters; `debug` is the format `{:?}`.
pub mod Accounting
pub mod Call
pub mod Keys
mod Tests
use zallet.Prelude.{
  String, str_append, str_eq, Bool, List, Option, none, some, Result, ok, err, if◌then◌else◌, map,
}
use zallet.Rpc.Error.{
  RpcResult, invalid_parameter, invalid_address_or_key, with_message, with_static,
}
use zallet.Privacy.{PrivacyPolicy, allow_revealed_senders, allow_linking_account_addresses}
use zallet.Privacy.Proposal.{PoolType, Step}

-- `zcash_keys::address::Address`, as far as the code tells addresses apart.
pub data Address (TransparentAddress : Type 0) : Type 0 where
  transparent : TransparentAddress → Address TransparentAddress
  other : Address TransparentAddress

pub data FromAddressInput (Uuid TransparentAddress : Type 0) : Type 0 where
  account_uuid : Uuid → FromAddressInput Uuid TransparentAddress
  transparent_address : TransparentAddress → FromAddressInput Uuid TransparentAddress

module _ {Uuid TransparentAddress : Type 0} (parse_uuid : String → Option Uuid)
    (decode : String → Option (Address TransparentAddress)) (debug : String → String) where
  unfoldable pub decoded_fromaddress :
      String
      → Option (Address TransparentAddress)
      → RpcResult (FromAddressInput Uuid TransparentAddress)
  decoded_fromaddress fromaddress (some (transparent addr)) = ok (transparent_address addr)
  decoded_fromaddress fromaddress (some other) = err (
      with_message invalid_address_or_key (
        str_append
          "Invalid `fromaddress`: only transparent addresses are accepted (got a non-transparent Zcash address): "
          fromaddress))
  decoded_fromaddress fromaddress none = err (
      with_message invalid_parameter (
        str_append
          "Invalid `fromaddress`: expected a wallet-owned transparent address or an account UUID, got "
          (debug fromaddress)))

  unfoldable pub parse_fromaddress : String → RpcResult (FromAddressInput Uuid TransparentAddress)
  unfolding decoded_fromaddress
  parse_fromaddress fromaddress =
      if str_eq fromaddress "*"
      then err (
          with_static invalid_parameter
            "Invalid `fromaddress`: the `\"*\"` wildcard (sweep all wallet t-addrs) is not supported by Zallet. Pass either a wallet-owned transparent address or an account UUID to scope the sweep.")
      else elim (parse_uuid fromaddress) [
        | some uuid ↦ ok (account_uuid uuid)
        | none ↦ decoded_fromaddress fromaddress (decode fromaddress)
      ]

module _ {Uuid TransparentAddress : Type 0} (debug : String → String) where
  unfoldable pub parse_privacy_policy :
      Option String → FromAddressInput Uuid TransparentAddress → RpcResult PrivacyPolicy
  parse_privacy_policy none (transparent_address _) = ok allow_revealed_senders
  parse_privacy_policy none (account_uuid _) = ok allow_linking_account_addresses
  parse_privacy_policy (some policy) from_input =
      if str_eq policy "AllowRevealedSenders"
      then ok allow_revealed_senders
      else if str_eq policy "AllowLinkingAccountAddresses"
      then ok allow_linking_account_addresses
      else err (
          with_message invalid_parameter (
            str_append "Invalid privacy_policy " (
              str_append (debug policy)
                " for z_shieldcoinbase: only \"AllowRevealedSenders\" and \"AllowLinkingAccountAddresses\" are accepted, because coinbase shielding always reveals the source transparent address(es).")))

-- A transparent output, with the address that it pays.
pub record Utxo (TransparentAddress Zatoshis : Type 0) : Type 0 where
  pub recipient_address : TransparentAddress
  -- The address that its script is parsed as.
  pub script_address : Option TransparentAddress
  pub value : Zatoshis

-- What the code reads of a step of a shielding proposal.
pub record ShieldingStep (TransparentAddress Zatoshis : Type 0) : Type 0 where
  pub is_shielding : Bool
  pub transparent_inputs : List (Utxo TransparentAddress Zatoshis)
  pub shielded_notes : List PoolType
  pub payment_pools : List PoolType
  pub proposed_change : List PoolType

-- What the enforcement of a privacy policy reads of it.
abbrev pub privacy_step : {A Z : Type 0} → ShieldingStep A Z → Step A
privacy_step {A} {Z} step = record {
  is_shielding = step.is_shielding;
  transparent_inputs = map (λ (utxo : Utxo A Z). utxo.recipient_address) step.transparent_inputs;
  shielded_notes = step.shielded_notes;
  payment_pools = step.payment_pools;
  proposed_change = step.proposed_change;
}
