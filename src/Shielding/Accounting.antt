-- ===== src/Shielding/Accounting.antt =====
-- The numbers that z_shieldcoinbase returns at once (`sum_selected_inputs`, `enumerate_eligible` and the
-- subtractions of `call`, zallet/src/components/json_rpc/methods/z_shieldcoinbase.rs). The type `Zatoshis` of
-- zcash_protocol and the wallet's query are parameters.
pub mod Coins
pub mod Remaining
pub mod Totals
use zallet.Prelude.{
  ℕ, ◌+◌, ◌-◌, min, String, List, [], ◌∷◌, Option, none, some, Result, ok, err, ok_or, map_err,
  ◌>>=◌, if◌then◌else◌, leb, length,
}
use zallet.Rpc.Error.{RpcError, RpcResult, wallet, database, with_message, with_static}
use zallet.Shielding.{Utxo, ShieldingStep}

abbrev pub u64_max : ℕ
u64_max = 18446744073709551615

unfoldable pub saturating_add : ℕ → ℕ → ℕ
saturating_add a b = min u64_max (a + b)

unfoldable pub checked_sub : ℕ → ℕ → Option ℕ
checked_sub a b = if leb b a then some (a - b) else none

-- What the code uses of `Zatoshis`.
pub record Amounts (Zatoshis : Type 0) : Type 0 where
  pub zero_value : Zatoshis
  pub add : Zatoshis → Zatoshis → Option Zatoshis
  pub sub : Zatoshis → Zatoshis → Option Zatoshis
  pub into_u64 : Zatoshis → ℕ

pub record Preflight (JsonZec : Type 0) : Type 0 where
  pub remaining_utxos : ℕ
  pub remaining_value : JsonZec
  pub shielding_utxos : ℕ
  pub shielding_value : JsonZec

module _ {A Z : Type 0} (amounts : Amounts Z) where
  -- The loop over the inputs of a step, from the count and the sum so far.
  unfoldable pub sum_inputs : List (Utxo A Z) → ℕ → Z → RpcResult (ℕ × Z)
  unfolding saturating_add
  sum_inputs [] count sum = ok (count, sum)
  sum_inputs (utxo ∷ utxos) count sum =
      ok_or (amounts.add sum utxo.value)
        (with_static wallet "Internal error: shielding value sum overflowed Zatoshis bounds.")
      >>= sum_inputs utxos (saturating_add count 1)

  unfoldable pub sum_steps : List (ShieldingStep A Z) → ℕ → Z → RpcResult (ℕ × Z)
  unfolding sum_inputs
  sum_steps [] count sum = ok (count, sum)
  sum_steps (step ∷ steps) count sum = do
    (count', sum') ← sum_inputs step.transparent_inputs count sum
    sum_steps steps count' sum'

  unfoldable pub sum_selected_inputs : List (ShieldingStep A Z) → RpcResult (ℕ × Z)
  unfolding sum_steps
  sum_selected_inputs steps = sum_steps steps 0 amounts.zero_value

  -- The inner loop of `enumerate_eligible`.
  unfoldable pub add_values : List (Utxo A Z) → Z → RpcResult Z
  add_values [] total = ok total
  add_values (utxo ∷ utxos) total =
      ok_or (amounts.add total utxo.value)
        (with_static wallet "Internal error: total transparent value overflowed Zatoshis bounds.")
      >>= add_values utxos

  -- `get_spendable_transparent_outputs` has the spendable coinbase outputs of an address at the target height,
  -- or the text of an error.
  module _ (get_spendable_transparent_outputs : A → Result String (List (Utxo A Z))) where
    unfoldable pub enumerate_from : List A → ℕ → Z → RpcResult (ℕ × Z)
    unfolding add_values saturating_add
    enumerate_from [] total_utxos total_value = ok (total_utxos, total_value)
    enumerate_from (addr ∷ addrs) total_utxos total_value = do
      utxos ← map_err (with_message database) (get_spendable_transparent_outputs addr)
      total_value' ← add_values utxos total_value
      enumerate_from addrs (saturating_add total_utxos (length utxos)) total_value'

    unfoldable pub enumerate_eligible : List A → RpcResult (ℕ × Z)
    unfolding enumerate_from
    enumerate_eligible from_addrs = enumerate_from from_addrs 0 amounts.zero_value

    -- The part of `call` from `sum_selected_inputs` to the `Preflight`.
    unfoldable pub preflight :
        {JsonZec : Type 0} (value_from_zatoshis : Z → JsonZec)
        → List (ShieldingStep A Z)
        → List A
        → RpcResult (Preflight JsonZec)
    unfolding sum_selected_inputs enumerate_eligible checked_sub
    preflight value_from_zatoshis steps from_addrs = do
      (shielding_utxos, shielding_value) ← sum_selected_inputs steps
      (total_utxos, total_value) ← enumerate_eligible from_addrs
      remaining_utxos ← ok_or (checked_sub total_utxos shielding_utxos) (
          with_static wallet
            "Internal accounting error: proposal selected more UTXOs than enumeration found (likely a chain race during shielding setup).")
      remaining_value ← ok_or (amounts.sub total_value shielding_value) (
          with_static wallet
            "Internal accounting error: proposal value exceeds enumerated total (likely a chain race during shielding setup).")
      ok (record {
        remaining_utxos = remaining_utxos;
        remaining_value = value_from_zatoshis remaining_value;
        shielding_utxos = shielding_utxos;
        shielding_value = value_from_zatoshis shielding_value;
      })
