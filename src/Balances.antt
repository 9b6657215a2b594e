-- ===== src/Balances.antt =====
-- Balances per account (z_getbalances, zallet/src/components/json_rpc/methods/get_balances.rs). The summary of the
-- wallet is what zcash_client_backend returns: a balance is read as what its methods return, and the sums over all
-- pools of an account are read as one more balance.
pub mod Total
pub mod Sums
pub mod Shown
pub mod Reports
mod Tests
use zallet.Prelude.{
  ℕ, Bool, true, false, not, ◌&&◌, String, List, [], Option, none, some, Result, ok, err, ok_or,
  map_err, ◌>>=◌, if◌then◌else◌, ◌==◌,
}
use zallet.Rpc.Error.{RpcResult, database, in_warmup, with_message, with_static}
use zallet.Transactions.{collect_rows}
use zallet.Unspent.{ConfirmationsPolicy}
use zallet.Shielding.Accounting.{Amounts}

-- A balance of the wallet's summary.
pub record WalletBalance (Z : Type 0) : Type 0 where
  pub spendable_value : Z
  pub change_pending_confirmation : Z
  pub value_pending_spendability : Z
  pub uneconomic_value : Z
  pub total_value : Z

pub record WalletAccount (U Z : Type 0) : Type 0 where
  pub account_id : U
  pub unshielded_balance : WalletBalance Z
  pub sapling_balance : WalletBalance Z
  pub orchard_balance : WalletBalance Z
  pub all_pools : WalletBalance Z

-- The amounts in zatoshis; a `Value` is its number.
pub record Balance : Type 0 where
  pub spendable : ℕ
  pub locked : Option ℕ
  pub pending : Option ℕ
  pub dust : Option ℕ

pub record TransparentBalance : Type 0 where
  pub regular : Option Balance
  pub coinbase : Option Balance

pub record StandaloneTransparentAddressBalance : Type 0 where
  pub address : String
  pub balance : TransparentBalance

pub record AccountBalance : Type 0 where
  pub account_uuid : String
  pub transparent : Option TransparentBalance
  pub transparent_watchonly : List StandaloneTransparentAddressBalance
  pub sapling : Option Balance
  pub orchard : Option Balance
  pub total : Balance

pub record Balances : Type 0 where
  pub accounts : List AccountBalance
  pub legacy_transparent : Option TransparentBalance
  pub legacy_transparent_watchonly : Option TransparentBalance

-- `None`, a number above 0, and 0.
unfoldable pub confirmations_policy : Option ℕ → ConfirmationsPolicy
confirmations_policy none = record { confirmations = 1; allow_zero_conf_shielding = false }
confirmations_policy (some minconf) =
    if minconf == 0
    then record { confirmations = 1; allow_zero_conf_shielding = true }
    else record { confirmations = minconf; allow_zero_conf_shielding = false }

module _ {Z : Type 0} (amounts : Amounts Z) (is_zero : Z → Bool) where
  unfoldable pub opt_value : Z → Option ℕ
  opt_value value = if not (is_zero value) then some (amounts.into_u64 value) else none

  unfoldable pub balance : Z → Z → Z → Balance
  unfolding opt_value
  balance spendable pending dust = record {
    spendable = amounts.into_u64 spendable;
    locked = none;
    pending = opt_value pending;
    dust = opt_value dust;
  }

  unfoldable pub opt_balance : Z → Z → Z → Option Balance
  unfolding opt_value
  opt_balance spendable pending dust =
      if not (is_zero spendable && (is_zero pending && is_zero dust))
      then some (record {
        spendable = amounts.into_u64 spendable;
        locked = none;
        pending = opt_value pending;
        dust = opt_value dust;
      })
      else none

  unfoldable pub balance_from : WalletBalance Z → RpcResult Balance
  unfolding balance
  balance_from b = do
    pending ←
        ok_or (amounts.add b.change_pending_confirmation b.value_pending_spendability)
          (with_static database "Wallet database is corrupt: storing more than MAX_MONEY")
    ok (balance b.spendable_value pending b.uneconomic_value)

  unfoldable pub opt_balance_from : WalletBalance Z → RpcResult (Option Balance)
  unfolding opt_balance
  opt_balance_from b = do
    pending ←
        ok_or (amounts.add b.change_pending_confirmation b.value_pending_spendability)
          (with_static database "Wallet database is corrupt: storing more than MAX_MONEY")
    ok (opt_balance b.spendable_value pending b.uneconomic_value)

  unfoldable pub opt_transparent_balance : WalletBalance Z → RpcResult (Option TransparentBalance)
  unfolding opt_balance_from
  opt_transparent_balance regular =
      if is_zero regular.total_value && is_zero regular.uneconomic_value then ok none else (do
        found ← opt_balance_from regular
        ok (some (record { regular = found; coinbase = none })))

  module _ {U : Type 0} (uuid_text : U → String) where
    -- The closure over the accounts.
    unfoldable pub account_balance : WalletAccount U Z → RpcResult AccountBalance
    unfolding opt_transparent_balance opt_balance_from balance_from
    account_balance account = do
      transparent ← opt_transparent_balance account.unshielded_balance
      sapling ← opt_balance_from account.sapling_balance
      orchard ← opt_balance_from account.orchard_balance
      total ← balance_from account.all_pools
      ok (record {
        account_uuid = uuid_text account.account_id;
        transparent = transparent;
        transparent_watchonly = [];
        sapling = sapling;
        orchard = orchard;
        total = total;
      })

    -- `get_wallet_summary` has the balances of the accounts, if the wallet knows enough of the chain.
    unfoldable pub call :
        (ConfirmationsPolicy → Result String (Option (List (WalletAccount U Z))))
        → Option ℕ
        → RpcResult Balances
    unfolding account_balance confirmations_policy
    call get_wallet_summary minconf = do
      found ← map_err (with_message database) (get_wallet_summary (confirmations_policy minconf))
      summary ← ok_or found (with_static in_warmup "Wallet sync required")
      accounts ← collect_rows account_balance summary
      ok (record {
        accounts = accounts;
        legacy_transparent = none;
        legacy_transparent_watchonly = none;
      })
