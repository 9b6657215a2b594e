-- ===== src/Shielding/Call.antt =====
-- The handler of z_shieldcoinbase, up to the operation that it starts
-- (zallet/src/components/json_rpc/methods/z_shieldcoinbase.rs). The wallet, the key store and the address types are
-- parameters; each of the wallet's queries has an answer of its own, since the database may change between them.
pub mod Policy
use zallet.Prelude.{
  ℕ, String, str_append, Bool, true, false, List, [], ◌∷◌, map, Option, none, some, Result, ok, err,
  ok_or, map_err, ◌>>=◌, ◌>>◌, Eq, if◌then◌else◌, Bytes,
}
use zallet.Rpc.Error.{
  RpcError, RpcResult, wallet, database, invalid_parameter, invalid_address_or_key, with_message,
  with_static,
}
use zallet.Amount.Values.{JsonValue, null}
use zallet.Payments.{Zip321, optional_memo}
use zallet.Privacy.{PrivacyPolicy}
use zallet.Privacy.Proposal.{IncompatiblePrivacyPolicy, enforce_privacy_policy}
use zallet.Shielding.{
  Address, transparent, FromAddressInput, account_uuid, transparent_address, parse_fromaddress,
  parse_privacy_policy, Utxo, ShieldingStep, privacy_step,
}
use zallet.Shielding.Accounting.{Amounts, Preflight, preflight}
use zallet.Shielding.Keys.{
  AddressSource, KeyStoreError, key_error, collect_standalone_transparent_keys,
}

pub record Derivation : Type 0 where
  pub seed_fingerprint : Bytes
  pub account_index : ℕ

pub record Proposal (A Z : Type 0) : Type 0 where
  pub steps : List (ShieldingStep A Z)
  pub min_target_height : ℕ

-- What the call uses of uuid and zcash_keys, and its formats.
pub record Texts (Uuid A : Type 0) : Type 0 where
  pub parse_uuid : String → Option Uuid
  pub decode : String → Option (Address A)
  pub debug : String → String
  pub show_uuid : Uuid → String
  pub debug_uuid : Uuid → String
  pub debug_address : A → String
  pub incompatible : IncompatiblePrivacyPolicy → String

-- The queries, in the order of the call; an error stands as its text. An account is read as its key derivation.
pub record Wallet (Uuid A Z Destination Memo : Type 0) : Type 0 where
  pub has_account : Uuid → Result String Bool
  pub get_transparent_receivers : Uuid → Result String (List A)
  pub find_account_for_address : A → Result String (Option Uuid)
  pub get_account : Uuid → Result String (Option (Option Derivation))
  pub propose_shielding_coinbase :
      List A → Destination → Option Memo → Option ℕ → Result String (Proposal A Z)
  pub get_spendable_transparent_outputs : ℕ → A → Result String (List (Utxo A Z))
  pub sources_of_receivers : Uuid → Result String (List (A × AddressSource))

-- What the call uses of the key store and of zcash_keys.
pub record Keys (A SecretKey Usk : Type 0) : Type 0 where
  pub decrypt_seed : Bytes → Result KeyStoreError Bytes
  pub from_seed : Bytes → ℕ → Result String Usk
  pub decrypt_standalone_transparent_key : A → Result KeyStoreError SecretKey

-- The parameters of the call.
pub record Parameters : Type 0 where
  pub fromaddress : String
  pub toaddress : String
  pub fee : Option JsonValue
  pub limit : Option ℕ
  pub memo : Option String
  pub privacy_policy : Option String

-- What the call has found before it checks the privacy policy.
pub record Prepared (Uuid A Z : Type 0) : Type 0 where
  pub policy : PrivacyPolicy
  pub account_id : Uuid
  pub from_addrs : List A
  pub key_derivation : Option Derivation
  pub proposal : Proposal A Z

-- What the call returns: the numbers, the context of the operation, and what the operation runs on.
pub record Started (A Z JsonZec SecretKey Usk : Type 0) : Type 0 where
  pub numbers : Preflight JsonZec
  pub context_method : String
  pub context_params : String × String × Option ℕ
  pub proposal : Proposal A Z
  pub usk : Usk
  pub standalone_keys : List (A × List SecretKey)

abbrev pub is_null : JsonValue → Bool
is_null null = true
is_null _ = false

unfoldable pub check_fee : Option JsonValue → RpcResult (Unit {0})
check_fee none = ok tt
check_fee (some v) =
    if is_null v
    then ok tt
    else err (
        with_static invalid_parameter
          "Zallet always calculates fees internally; the fee field must be null.")

module _ {Uuid A : Type 0} (texts : Texts Uuid A) where
  unfoldable pub policy_error : IncompatiblePrivacyPolicy → RpcError
  policy_error e = with_message invalid_parameter (texts.incompatible e)

module _ {Uuid A Z Destination Memo : Type 0} (texts : Texts Uuid A)
    (wallet_db : Wallet Uuid A Z Destination Memo) where
  unfoldable pub resolve_fromaddress_input : FromAddressInput Uuid A → RpcResult (Uuid × List A)
  resolve_fromaddress_input (account_uuid uuid) = do
    known ← map_err (with_message database) (wallet_db.has_account uuid)
    from_addrs ←
        if known
        then map_err (with_message database) (wallet_db.get_transparent_receivers uuid)
        else err (
            with_message invalid_parameter
              (str_append "Unknown account UUID: " (texts.show_uuid uuid)))
    ok (uuid, from_addrs)
  resolve_fromaddress_input (transparent_address addr) = do
    owner ← map_err (with_message database) (wallet_db.find_account_for_address addr)
    owner' ← ok_or owner (
        with_message invalid_address_or_key (
          str_append "Transparent address is not owned by any account in this wallet: "
            (texts.debug_address addr)))
    ok (owner', addr ∷ [])

  unfoldable pub check_from_addrs : List A → RpcResult (Unit {0})
  check_from_addrs [] =
      err (
        with_static invalid_parameter
          "No source transparent addresses resolved from `fromaddress`.")
  check_from_addrs (_ ∷ _) = ok tt

  module _ {HexBytes Payment Request : Type 0} ⦃destinations : Eq Destination⦄
      (z : Zip321 Destination Z HexBytes Memo Payment Request) where
    -- The call up to its proposal.
    unfoldable pub prepare : Parameters → RpcResult (Prepared Uuid A Z)
    unfolding check_fee resolve_fromaddress_input check_from_addrs
    prepare p = do
      check_fee p.fee
      to_address ← ok_or (z.parse_address p.toaddress) (
          with_message invalid_parameter
            (str_append "Invalid parameter, unknown address format: " p.toaddress))
      memo ← optional_memo z p.memo
      from_input ← parse_fromaddress texts.parse_uuid texts.decode texts.debug p.fromaddress
      policy ← parse_privacy_policy texts.debug p.privacy_policy from_input
      (account_id, from_addrs) ← resolve_fromaddress_input from_input
      check_from_addrs from_addrs
      account ← map_err (with_message database) (wallet_db.get_account account_id)
      key_derivation ← ok_or account (
          with_message database
            (str_append "Account vanished mid-call: " (texts.debug_uuid account_id)))
      proposal ←
          map_err
            (λ text.
              with_message wallet (str_append "Failed to propose shielding transaction: " text))
            (wallet_db.propose_shielding_coinbase from_addrs to_address memo p.limit)
      ok (record {
        policy = policy;
        account_id = account_id;
        from_addrs = from_addrs;
        key_derivation = key_derivation;
        proposal = proposal;
      })

  module _ {JsonZec SecretKey Usk : Type 0} ⦃e : Eq A⦄ (amounts : Amounts Z)
      (value_from_zatoshis : Z → JsonZec) (keys : Keys A SecretKey Usk) where
    -- The call behind the check of the privacy policy; a warning about many inputs is left out.
    unfoldable pub conclude :
        Parameters → Prepared Uuid A Z → RpcResult (Started A Z JsonZec SecretKey Usk)
    conclude p prepared = do
      numbers ←
          preflight amounts
            (wallet_db.get_spendable_transparent_outputs prepared.proposal.min_target_height)
            value_from_zatoshis prepared.proposal.steps prepared.from_addrs
      derivation ← ok_or prepared.key_derivation (
          with_message invalid_address_or_key (
            str_append "No payment source found for account "
              (texts.show_uuid prepared.account_id)))
      seed ← map_err key_error (keys.decrypt_seed derivation.seed_fingerprint)
      usk ←
          map_err (with_message invalid_address_or_key)
            (keys.from_seed seed derivation.account_index)
      standalone_keys ←
          collect_standalone_transparent_keys (wallet_db.sources_of_receivers prepared.account_id)
            keys.decrypt_standalone_transparent_key prepared.proposal.steps
      ok (record {
        numbers = numbers;
        context_method = "z_shieldcoinbase";
        context_params = (p.fromaddress, p.toaddress, p.limit);
        proposal = prepared.proposal;
        usk = usk;
        standalone_keys = standalone_keys;
      })

    -- `none` is a panic in the check of the privacy policy.
    unfoldable pub enforced :
        Parameters → Prepared Uuid A Z → Option (RpcResult (Started A Z JsonZec SecretKey Usk))
    unfolding conclude policy_error
    enforced p prepared =
        elim (enforce_privacy_policy (map privacy_step prepared.proposal.steps) prepared.policy) [
          | none ↦ none
          | some (err x) ↦ some (err (policy_error texts x))
          | some (ok _) ↦ some (conclude p prepared)
        ]

    unfoldable pub call :
        {HexBytes Payment Request : Type 0} ⦃destinations : Eq Destination⦄
        (z : Zip321 Destination Z HexBytes Memo Payment Request)
        → Parameters
        → Option (RpcResult (Started A Z JsonZec SecretKey Usk))
    unfolding prepare enforced
    call z p = elim (prepare z p) [
      | err error ↦ some (err error)
      | ok prepared ↦ enforced p prepared
    ]
