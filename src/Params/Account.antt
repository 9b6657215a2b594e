-- ===== src/Params/Account.antt =====
-- The `account` parameter (`parse_account_parameter` of zallet/src/components/json_rpc/utils.rs). The wallet's accounts
-- and the key store's legacy seeds are parameters.
pub mod Indices
mod Tests
use zallet.Prelude.{
  ℕ, String, str_append, Bool, List, [], ◌∷◌, length, Option, none, some, Result, ok, err, ok_or,
  map_err, ◌>>=◌, ◌>>◌, Eq, contains, insert, if◌then◌else◌, ltb, ◌==◌,
}
use zallet.Rpc.Error.{
  ErrorCode, internal_error, invalid_params, RpcError, RpcResult, invalid_parameter, wallet,
  database, with_static, with_message,
}

-- `serde_json::Value`: a number with its value as a u64, if it is one.
pub data JsonValue : Type 0 where
  number : Option ℕ → JsonValue
  string : String → JsonValue
  other_value : JsonValue

abbrev pub zcash_legacy_account : ℕ
zcash_legacy_account = 2147483647

-- How the key of an account is derived.
pub record Derivation (SeedFingerprint : Type 0) : Type 0 where
  pub seed_fp : SeedFingerprint
  pub account_index : ℕ

-- What the loop over the accounts has found.
pub record Found (AccountUuid SeedFingerprint : Type 0) : Type 0 where
  pub distinct_seeds : List SeedFingerprint
  pub account_id : Option AccountUuid

-- The fingerprints of the legacy seeds, and the accounts of the wallet, with errors as their texts.
pub record Accounts (AccountUuid SeedFingerprint : Type 0) : Type 0 where
  pub list_legacy_seed_fingerprints : Result String (List SeedFingerprint)
  pub get_account_ids : Result String (List AccountUuid)
  -- An account is here the derivation of its key, if it has one.
  pub get_account : AccountUuid → Result String (Option (Option (Derivation SeedFingerprint)))

-- `RpcErrorCode`'s messages, the display of a number, and the parser of a UUID.
pub record Formats (AccountUuid : Type 0) : Type 0 where
  pub message_of : ErrorCode → String
  pub display : ℕ → String
  pub parse_uuid : String → Option AccountUuid

abbrev pub error_of : {AccountUuid : Type 0} → Formats AccountUuid → ErrorCode → RpcError
error_of formats code = record { code = code; message = formats.message_of code }

module _ {AccountUuid SeedFingerprint : Type 0} ⦃e : Eq SeedFingerprint⦄ where
  -- The body of the loop for an account that is there.
  unfoldable pub consider :
      List SeedFingerprint
      → ℕ
      → AccountUuid
      → Option (Derivation SeedFingerprint)
      → Found AccountUuid SeedFingerprint
      → Found AccountUuid SeedFingerprint
  consider legacy_seeds index candidate none found = found
  consider legacy_seeds index candidate (some derivation) found =
      if contains legacy_seeds derivation.seed_fp then found else record {
        distinct_seeds = insert derivation.seed_fp found.distinct_seeds;
        account_id = if derivation.account_index == index then some candidate else found.account_id;
      }

module _ {AccountUuid SeedFingerprint : Type 0} ⦃e : Eq SeedFingerprint⦄
    (formats : Formats AccountUuid) where
  unfoldable pub find_account :
      Accounts AccountUuid SeedFingerprint
      → List SeedFingerprint
      → ℕ
      → List AccountUuid
      → Found AccountUuid SeedFingerprint
      → RpcResult (Found AccountUuid SeedFingerprint)
  unfolding consider
  find_account db legacy_seeds index [] found = ok found
  find_account db legacy_seeds index (candidate ∷ more) found = do
    looked_up ← map_err (with_message database) (db.get_account candidate)
    account ← ok_or looked_up (error_of formats internal_error)
    find_account db legacy_seeds index more (consider legacy_seeds index candidate account found)

  unfoldable pub account_at : Accounts AccountUuid SeedFingerprint → ℕ → RpcResult AccountUuid
  unfolding find_account
  account_at db index = do
    legacy_seeds ← map_err (with_message database) db.list_legacy_seed_fingerprints
    account_ids ← map_err (with_message database) db.get_account_ids
    found ←
        find_account db legacy_seeds index account_ids
          (record { distinct_seeds = []; account_id = none })
    if length found.distinct_seeds == 1
        then ok_or found.account_id (
            with_message wallet (
              str_append (str_append "Error: account " (formats.display index))
                " has not been generated by z_getnewaccount."))
        else err (
            with_static wallet
              "Account numbers are not supported in wallets with multiple seeds. Use the account UUID instead.")

  unfoldable pub parse_account_parameter :
      Accounts AccountUuid SeedFingerprint → JsonValue → RpcResult AccountUuid
  unfolding account_at
  parse_account_parameter db (number none) =
      err
        (with_static invalid_parameter "Invalid account number, must be 0 <= account <= (2^31)-2.")
  parse_account_parameter db (number (some n)) =
      if ltb n zcash_legacy_account
      then account_at db n
      else err (
          with_static invalid_parameter "Invalid account number, must be 0 <= account <= (2^31)-2.")
  parse_account_parameter db (string s) =
      ok_or (formats.parse_uuid s) (error_of formats invalid_params)
  parse_account_parameter db other_value = err (error_of formats invalid_params)
