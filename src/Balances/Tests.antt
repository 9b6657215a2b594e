-- ===== src/Balances/Tests.antt =====
-- The theorems on balances, applied: two accounts, one with a transparent coin, the other with a pending one.
use zallet.Prelude.{
  ◌≤◌, ◌<◌, Bool, true, ◌==◌, String, List, [], ◌∷◌, Option, none, some, Result, ok, err, ◌≡◌, ◌⊎◌,
  refl,
}
use zallet.Rpc.Error.{wallet, with_static}
use zallet.Shielding.Accounting.Coins.{Coins, no_coin, one, two, number_of, coins, coins-AreChecked}
use zallet.Unspent.{ConfirmationsPolicy}
use zallet.Balances.{WalletBalance, WalletAccount, Balances, confirmations_policy}
use zallet.Balances.Total.{TotalBalance}
use zallet.Balances.Sums.{Totals, call-Totals}
use zallet.Balances.Shown.{Decides, corrupt, AreInRange, ShowsAccounts}
use zallet.Balances.Reports.{call-Reports}

abbrev funds : Coins → Coins → Coins → WalletBalance Coins
funds spendable pending total = record {
  spendable_value = spendable;
  change_pending_confirmation = pending;
  value_pending_spendability = no_coin;
  uneconomic_value = no_coin;
  total_value = total;
}

abbrev two_accounts : List (WalletAccount String Coins)
two_accounts =
    record {
      account_id = "first";
      unshielded_balance = funds one no_coin one;
      sapling_balance = funds no_coin no_coin no_coin;
      orchard_balance = funds no_coin no_coin no_coin;
      all_pools = funds one no_coin one;
    }
    ∷ record {
      account_id = "second";
      unshielded_balance = funds no_coin no_coin no_coin;
      sapling_balance = funds no_coin no_coin no_coin;
      orchard_balance = funds no_coin one one;
      all_pools = funds no_coin one one;
    }
    ∷ []

abbrev summary : ConfirmationsPolicy → Result String (Option (List (WalletAccount String Coins)))
summary policy = ok (some two_accounts)

abbrev has_none : Coins → Bool
has_none c = number_of c == 0

abbrev coins_text : Coins → String
coins_text no_coin = "0"
coins_text one = "1"
coins_text two = "2"

call-Totals_example :
    ((2 ≤ 2)
      × ((r : TotalBalance) × (zallet.Balances.Total.call coins coins_text summary none (some true)
            ≡ ok r)
          × Totals coins coins_text 1 1 r))
    ⊎ ((2 < 2)
        × (zallet.Balances.Total.call coins coins_text summary none (some true)
            ≡ err (with_static wallet "balance overflow")))
call-Totals_example =
    call-Totals coins coins-AreChecked coins_text summary none (some two_accounts) refl

call-Reports_example :
    Decides
      (AreInRange coins 2 two_accounts)
      (λ r.
        ShowsAccounts coins (λ u. u) two_accounts r.accounts
        × (r.legacy_transparent ≡ none)
        × (r.legacy_transparent_watchonly ≡ none))
      corrupt
      (zallet.Balances.call coins has_none (λ u. u) summary none)
call-Reports_example =
    call-Reports coins coins-AreChecked has_none (λ z. refl) (λ u. u) summary none two_accounts refl
      (refl, (refl, tt))
