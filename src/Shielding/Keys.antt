-- ===== src/Shielding/Keys.antt =====
-- The keys of standalone transparent addresses that a proposal spends from
-- (`collect_standalone_transparent_keys` of zallet/src/components/json_rpc/utils.rs). The wallet's query and
-- the key store's method are parameters.
pub mod Lookup
use zallet.Prelude.{
  String, str_eq, Bool, ◌&&◌, List, [], ◌∷◌, ◌++◌, Option, none, some, Result, ok, err, map_err,
  ◌>>=◌, Eq, contains, if◌then◌else◌,
}
use zallet.Rpc.Error.{RpcError, RpcResult, wallet_unlock_needed, database, with_message}
use zallet.Shielding.{Utxo, ShieldingStep}

-- `TransparentAddressSource`.
pub data AddressSource : Type 0 where
  standalone_pubkey standalone_script derived : AddressSource

-- An error of the key store: whether its kind is `Generic`, and its text.
pub record KeyStoreError : Type 0 where
  pub is_generic : Bool
  pub text : String

unfoldable pub key_error : KeyStoreError → RpcError
key_error e =
    if e.is_generic && str_eq e.text "Wallet is locked"
    then with_message wallet_unlock_needed e.text
    else with_message database e.text

module _ {A : Type 0} where
  unfoldable pub standalone_addrs : List (A × AddressSource) → List A
  standalone_addrs [] = []
  standalone_addrs ((addr, standalone_pubkey) ∷ receivers) = addr ∷ standalone_addrs receivers
  standalone_addrs ((addr, standalone_script) ∷ receivers) = addr ∷ standalone_addrs receivers
  standalone_addrs ((addr, derived) ∷ receivers) = standalone_addrs receivers

module _ {A SecretKey : Type 0} ⦃e : Eq A⦄ where
  -- `keys.entry(address).or_default().push(secret_key)`.
  unfoldable pub push_key : A → SecretKey → List (A × List SecretKey) → List (A × List SecretKey)
  push_key address secret_key [] = (address, secret_key ∷ []) ∷ []
  push_key address secret_key ((a, ks) ∷ keys) =
      let rest = push_key address secret_key keys in
      if e.beq a address then (a, ks ++ (secret_key ∷ [])) ∷ keys else (a, ks) ∷ rest

  module _ (standalone : List A) (decrypt : A → Result KeyStoreError SecretKey) where
    -- The body of the inner loop.
    unfoldable pub collect_input :
        Option A → List (A × List SecretKey) → RpcResult (List (A × List SecretKey))
    unfolding push_key key_error
    collect_input none keys = ok keys
    collect_input (some address) keys =
        if contains standalone address
        then (do
          secret_key ← map_err key_error (decrypt address)
          ok (push_key address secret_key keys))
        else ok keys

    unfoldable pub collect_inputs :
        {Z : Type 0}
        → List (Utxo A Z)
        → List (A × List SecretKey)
        → RpcResult (List (A × List SecretKey))
    unfolding collect_input
    collect_inputs [] keys = ok keys
    collect_inputs (utxo ∷ utxos) keys =
        collect_input utxo.script_address keys >>= collect_inputs utxos

    unfoldable pub collect_steps :
        {Z : Type 0}
        → List (ShieldingStep A Z)
        → List (A × List SecretKey)
        → RpcResult (List (A × List SecretKey))
    unfolding collect_inputs
    collect_steps [] keys = ok keys
    collect_steps (step ∷ steps) keys =
        collect_inputs step.transparent_inputs keys >>= collect_steps steps

  unfoldable pub collect_standalone_transparent_keys :
      {Z : Type 0}
      → Result String (List (A × AddressSource))
      → (A → Result KeyStoreError SecretKey)
      → List (ShieldingStep A Z)
      → RpcResult (List (A × List SecretKey))
  unfolding standalone_addrs collect_steps
  collect_standalone_transparent_keys receivers decrypt steps = do
    receivers' ← map_err (with_message database) receivers
    collect_steps (standalone_addrs receivers') decrypt steps []
