-- ===== src/Balances/Reports.antt =====
-- What z_getbalances reports of each account, and when it refuses.
use zallet.Prelude.{
  ℕ, ◌+◌, ◌≤◌, ◌<◌, Bool, Bool-cases, true, false, ◌==◌, String, List, [], ◌∷◌, Option, none, some,
  Option-cases, Result, ok, ok_or, ◌&&◌, ◌≡◌, refl, arith, inl, inr,
}
use zallet.Shielding.Accounting.{Amounts}
use zallet.Shielding.Accounting.Totals.{AreChecked}
use zallet.Transactions.{collect_rows}
use zallet.Unspent.{ConfirmationsPolicy}
use zallet.Balances.{
  WalletBalance, WalletAccount, confirmations_policy, opt_value, balance, opt_balance, balance_from,
  opt_balance_from, opt_transparent_balance, account_balance, call,
}
use zallet.Balances.Shown.{
  Decides, Decides-map, Decides-bind, corrupt, Shows, pending_value, ShowsBalance, ShowsPool,
  ShowsTransparent, ShowsAccounts, IsTotalled, AreTotalled, AreInRange,
}

module _ {Z : Type 0} (amounts : Amounts Z) {max_money : ℕ} (laws : AreChecked amounts max_money)
    (is_zero : Z → Bool) (zeros : (z : Z) → is_zero z ≡ (amounts.into_u64 z == 0)) where
  opt_value-Shows : (z : Z) → Shows (opt_value amounts is_zero z) (amounts.into_u64 z)
  unfolding opt_value
  opt_value-Shows z = elim (Bool-cases (is_zero z)) [
    | inl e ↦ rw e (ground (arith, zeros z))
    | inr e ↦ rw e (refl, ground (arith, zeros z))
  ]

  -- The sum of the pending values, by the code's checked addition.
  pending-Decides :
      (b : WalletBalance Z)
      → Decides
          (pending_value amounts b ≤ max_money)
          (λ z. amounts.into_u64 z ≡ pending_value amounts b)
          corrupt
          (ok_or (amounts.add b.change_pending_confirmation b.value_pending_spendability) corrupt)
  pending-Decides b =
      let c = b.change_pending_confirmation in
      let p = b.value_pending_spendability in
      elim (Option-cases (amounts.add c p)) [
        | inl e ↦ inr (λ fits. let (z, e') = laws.adds c p fits in cc (e, e'), rw e refl)
        | inr (z, e) ↦
            let v = laws.added c p z e in inl (omega (arith, v, laws.bounded z), (z, rw e refl, v))
      ]

  balance-ShowsBalance :
      (b : WalletBalance Z) (z : Z)
      → amounts.into_u64 z ≡ pending_value amounts b
      → ShowsBalance amounts b (balance amounts is_zero b.spendable_value z b.uneconomic_value)
  unfolding balance
  balance-ShowsBalance b z v = record {
    spendable_shown = refl;
    none_locked = refl;
    pending_shown = rw (← v) (opt_value-Shows z);
    dust_shown = opt_value-Shows b.uneconomic_value;
  }

  none_left :
      (a b c : Z)
      → (is_zero a && (is_zero b && is_zero c)) ≡ true
      → amounts.into_u64 a + (amounts.into_u64 b + amounts.into_u64 c) ≡ 0
  none_left a b c h = ground (arith, h, zeros a, zeros b, zeros c)

  some_left :
      (a b c : Z)
      → (is_zero a && (is_zero b && is_zero c)) ≡ false
      → 0 < amounts.into_u64 a + (amounts.into_u64 b + amounts.into_u64 c)
  some_left a b c h = ground (arith, h, zeros a, zeros b, zeros c)

  opt_balance-ShowsPool :
      (b : WalletBalance Z) (z : Z)
      → amounts.into_u64 z ≡ pending_value amounts b
      → ShowsPool amounts b (opt_balance amounts is_zero b.spendable_value z b.uneconomic_value)
  unfolding opt_balance balance
  opt_balance-ShowsPool b z v =
      let a = b.spendable_value in
      let d = b.uneconomic_value in
      elim (Bool-cases (is_zero a && (is_zero z && is_zero d))) [
        | inl e ↦ rw (e, opt_balance) (omega (arith, v, none_left a z d e))
        | inr e ↦
            rw (e, opt_balance) (balance-ShowsBalance b z v, omega (arith, v, some_left a z d e))
      ]

  balance_from-Decides :
      (b : WalletBalance Z)
      → Decides
          (pending_value amounts b ≤ max_money)
          (ShowsBalance amounts b)
          corrupt
          (balance_from amounts is_zero b)
  unfolding balance_from
  balance_from-Decides b = Decides-map _ _ (pending-Decides b) (balance-ShowsBalance b)

  opt_balance_from-Decides :
      (b : WalletBalance Z)
      → Decides
          (pending_value amounts b ≤ max_money)
          (ShowsPool amounts b)
          corrupt
          (opt_balance_from amounts is_zero b)
  unfolding opt_balance_from
  opt_balance_from-Decides b = Decides-map _ _ (pending-Decides b) (opt_balance-ShowsPool b)

  opt_transparent_balance-Decides :
      (b : WalletBalance Z)
      → IsTotalled amounts b
      → Decides
          (pending_value amounts b ≤ max_money)
          (ShowsTransparent amounts b)
          corrupt
          (opt_transparent_balance amounts is_zero b)
  unfolding opt_transparent_balance
  opt_transparent_balance-Decides b total =
      let t = b.total_value in
      let d = b.uneconomic_value in
      elim (Bool-cases (is_zero t && is_zero d)) [
        | inl e ↦
            let nothing : amounts.into_u64 t + amounts.into_u64 d ≡ 0 =
              ground (arith, e, zeros t, zeros d) in
            rw e (inl (omega (arith, nothing, total), (none, refl, omega (arith, nothing, total))))
        | inr e ↦
            let left : 0 < amounts.into_u64 t + amounts.into_u64 d =
              ground (arith, e, zeros t, zeros d) in
            rw e (
              Decides-map _ _ (opt_balance_from-Decides b)
                (λ found shown. (shown, omega (arith, left, total), refl)))
      ]

  module _ {U : Type 0} (uuid_text : U → String) where
    collect_rows-Decides :
        (accounts : List (WalletAccount U Z))
        → AreTotalled amounts accounts
        → Decides
            (AreInRange amounts max_money accounts)
            (ShowsAccounts amounts uuid_text accounts)
            corrupt
            (collect_rows (account_balance amounts is_zero uuid_text) accounts)
    unfolding collect_rows account_balance
    collect_rows-Decides [] totals = inl (tt, ([], refl, tt))
    collect_rows-Decides (account ∷ accounts) (total, totals) =
        Decides-bind _ _
          (Decides-bind _ _ (opt_transparent_balance-Decides account.unshielded_balance total)
            (λ transparent t.
              Decides-bind _ _ (opt_balance_from-Decides account.sapling_balance) (λ sapling s.
                Decides-bind _ _ (opt_balance_from-Decides account.orchard_balance) (λ orchard o.
                  Decides-map _ _ (balance_from-Decides account.all_pools) (λ total a. record {
                    uuid_shown = refl;
                    transparent_shown = t;
                    watchonly_shown = refl;
                    sapling_shown = s;
                    orchard_shown = o;
                    total_shown = a;
                  })))))
          (λ r shown.
            Decides-map _ _ (collect_rows-Decides accounts totals) (λ rs all. (shown, all)))

    -- If the wallet has a summary, in which the total of each transparent balance is all of it but what is too
    -- small to spend: z_getbalances reports on the accounts exactly if the pending values of each are in range, in
    -- each pool and in all, and else it says that the database is corrupt. It reports each account, in their
    -- order, with the spendable, pending and uneconomic amounts of each pool and of all; a pool is left out
    -- exactly if it has no funds, and a pending or uneconomic amount exactly if it is 0. The whole unshielded
    -- balance of an account stands as its regular transparent funds: none are ever reported as coinbase funds, as
    -- those of watch-only addresses, or as legacy funds, whatever the wallet has.
    pub call-Reports :
        (get_wallet_summary : ConfirmationsPolicy
          → Result String (Option (List (WalletAccount U Z))))
        (minconf : Option ℕ) (accounts : List (WalletAccount U Z))
        → get_wallet_summary (confirmations_policy minconf) ≡ ok (some accounts)
        → AreTotalled amounts accounts
        → Decides
            (AreInRange amounts max_money accounts)
            (λ r.
              ShowsAccounts amounts uuid_text accounts r.accounts
              × (r.legacy_transparent ≡ none)
              × (r.legacy_transparent_watchonly ≡ none))
            corrupt
            (call amounts is_zero uuid_text get_wallet_summary minconf)
    unfolding call
    call-Reports get_wallet_summary minconf accounts answer totals =
        rw answer
          (Decides-map _ _ (collect_rows-Decides accounts totals) (λ rs shown. (shown, refl, refl)))
