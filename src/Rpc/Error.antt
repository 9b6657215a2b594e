-- ===== src/Rpc/Error.antt =====
-- Error codes of the JSON-RPC interface (zallet/src/components/json_rpc/server/error.rs).
pub mod Codes
use zallet.Prelude.{String, Result}
use zallet.Prelude.Int.{ℤ, negsuc}

pub data LegacyCode : Type 0 where
  misc forbidden_by_safe_mode type invalid_address_or_key out_of_memory : LegacyCode
  invalid_parameter database deserialization verify verify_rejected : LegacyCode
  verify_already_in_chain in_warmup client_not_connected client_in_initial_download : LegacyCode
  client_node_already_added client_node_not_added client_node_not_connected : LegacyCode
  client_invalid_ip_or_subnet wallet wallet_insufficient_funds : LegacyCode
  wallet_accounts_unsupported wallet_keypool_ran_out wallet_unlock_needed : LegacyCode
  wallet_passphrase_incorrect wallet_wrong_enc_state wallet_encryption_failed : LegacyCode
  wallet_already_unlocked wallet_backup_required : LegacyCode

-- The discriminants, `LegacyCode as i32`; `negsuc n` is -(n + 1).
unfoldable pub to_i32 : LegacyCode → ℤ
to_i32 misc = negsuc 0
to_i32 forbidden_by_safe_mode = negsuc 1
to_i32 type = negsuc 2
to_i32 invalid_address_or_key = negsuc 4
to_i32 out_of_memory = negsuc 6
to_i32 invalid_parameter = negsuc 7
to_i32 database = negsuc 19
to_i32 deserialization = negsuc 21
to_i32 verify = negsuc 24
to_i32 verify_rejected = negsuc 25
to_i32 verify_already_in_chain = negsuc 26
to_i32 in_warmup = negsuc 27
to_i32 client_not_connected = negsuc 8
to_i32 client_in_initial_download = negsuc 9
to_i32 client_node_already_added = negsuc 22
to_i32 client_node_not_added = negsuc 23
to_i32 client_node_not_connected = negsuc 28
to_i32 client_invalid_ip_or_subnet = negsuc 29
to_i32 wallet = negsuc 3
to_i32 wallet_insufficient_funds = negsuc 5
to_i32 wallet_accounts_unsupported = negsuc 10
to_i32 wallet_keypool_ran_out = negsuc 11
to_i32 wallet_unlock_needed = negsuc 12
to_i32 wallet_passphrase_incorrect = negsuc 13
to_i32 wallet_wrong_enc_state = negsuc 14
to_i32 wallet_encryption_failed = negsuc 15
to_i32 wallet_already_unlocked = negsuc 16
to_i32 wallet_backup_required = negsuc 17

-- The error codes of the RPC framework that the code names, and all others by number.
pub data ErrorCode : Type 0 where
  invalid_request method_not_found invalid_params internal_error : ErrorCode
  server_error : ℤ → ErrorCode

-- An error object, without the data that some carry.
pub record RpcError : Type 0 where
  pub code : ErrorCode
  pub message : String

abbrev pub RpcResult : Type 0 → Type 0
RpcResult = Result RpcError

unfoldable pub with_message : LegacyCode → String → RpcError
with_message c message = record { code = server_error (to_i32 c); message = message }

unfoldable pub with_static : LegacyCode → String → RpcError
with_static c message = record { code = server_error (to_i32 c); message = message }
