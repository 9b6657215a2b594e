-- ===== src/Balances/Total.antt =====
-- The balance of the wallet (z_gettotalbalance, zallet/src/components/json_rpc/methods/z_get_total_balance.rs).
use zallet.Prelude.{
  ℕ, Bool, true, String, List, [], ◌∷◌, Option, none, some, Result, ok, err, ok_or, map_err, ◌>>=◌,
}
use zallet.Rpc.Error.{RpcResult, misc, database, wallet, with_message, with_static}
use zallet.Unspent.{ConfirmationsPolicy}
use zallet.Shielding.Accounting.{Amounts}
use zallet.Balances.{WalletAccount, confirmations_policy}

pub record TotalBalance : Type 0 where
  pub transparent : String
  pub private : String
  pub total : String

unfoldable pub check_watchonly : Option Bool → RpcResult Unit
check_watchonly (some true) = ok tt
check_watchonly _ =
    err (with_static misc "include_watchonly argument must be set to true (for now)")

module _ {Z : Type 0} (amounts : Amounts Z) where
  -- `Option<Zatoshis> + Zatoshis`.
  unfoldable pub plus : Option Z → Z → Option Z
  plus none value = none
  plus (some sum) value = amounts.add sum value

  -- The fold over the accounts.
  unfoldable pub sums :
      {U : Type 0} → List (WalletAccount U Z) → Option Z → Option Z → Option Z × Option Z
  unfolding plus
  sums [] transparent private = (transparent, private)
  sums (account ∷ accounts) transparent private =
      sums accounts (plus transparent account.unshielded_balance.total_value) (
        plus (plus private account.sapling_balance.total_value) account.orchard_balance.total_value)

  module _ (value_text : Z → String) where
    unfoldable pub total_balance : Option Z → Option Z → Option TotalBalance
    total_balance (some transparent) (some private) = elim (amounts.add transparent private) [
      | none ↦ none
      | some total ↦ some (record {
        transparent = value_text transparent;
        private = value_text private;
        total = value_text total;
      })
    ]
    total_balance _ _ = none

    unfoldable pub summed : {U : Type 0} → Option (List (WalletAccount U Z)) → Option TotalBalance
    unfolding total_balance sums
    summed (some accounts) =
        let (transparent, private) =
          sums accounts (some amounts.zero_value) (some amounts.zero_value) in
        total_balance transparent private
    summed none = total_balance (some amounts.zero_value) (some amounts.zero_value)

    unfoldable pub call :
        {U : Type 0}
        → (ConfirmationsPolicy → Result String (Option (List (WalletAccount U Z))))
        → Option ℕ
        → Option Bool
        → RpcResult TotalBalance
    unfolding check_watchonly summed confirmations_policy
    call get_wallet_summary minconf include_watchonly = do
      _ ← check_watchonly include_watchonly
      found ← map_err (with_message database) (get_wallet_summary (confirmations_policy minconf))
      ok_or (summed found) (with_static wallet "balance overflow")
