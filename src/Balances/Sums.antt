-- ===== src/Balances/Sums.antt =====
-- What z_gettotalbalance adds up.
use zallet.Prelude.{
  ℕ, ◌+◌, ◌≤◌, ◌<◌, Bool-cases, leb, true, String, List, [], ◌∷◌, Option, none, some, Result, ok,
  err, Option-cases, ◌≡◌, ◌⊎◌, refl, arith, inl, inr,
}
use zallet.Rpc.Error.{wallet, with_static}
use zallet.Shielding.Accounting.{Amounts}
use zallet.Shielding.Accounting.Totals.{AreChecked}
use zallet.Unspent.{ConfirmationsPolicy}
use zallet.Balances.{WalletAccount, confirmations_policy}
use zallet.Balances.Total.{TotalBalance, check_watchonly, plus, sums, total_balance, summed, call}

abbrev pub accounts_of :
    {U Z : Type 0} → Option (List (WalletAccount U Z)) → List (WalletAccount U Z)
accounts_of none = []
accounts_of (some accounts) = accounts

module _ {Z : Type 0} (amounts : Amounts Z) where
  -- The transparent and the shielded value of all accounts, as plain sums.
  abbrev pub unshielded_value : {U : Type 0} → List (WalletAccount U Z) → ℕ
  unshielded_value [] = 0
  unshielded_value (account ∷ accounts) =
      amounts.into_u64 account.unshielded_balance.total_value + unshielded_value accounts

  abbrev pub shielded_value : {U : Type 0} → List (WalletAccount U Z) → ℕ
  shielded_value [] = 0
  shielded_value (account ∷ accounts) =
      (amounts.into_u64 account.sapling_balance.total_value
        + amounts.into_u64 account.orchard_balance.total_value)
      + shielded_value accounts

  abbrev pub all_value : {U : Type 0} → Option (List (WalletAccount U Z)) → ℕ
  all_value found = unshielded_value (accounts_of found) + shielded_value (accounts_of found)

  -- The three texts stand for amounts, the last for the sum of the others.
  pub record Totals (value_text : Z → String) (transparent_value private_value : ℕ)
      (r : TotalBalance) : Type 0 where
    pub transparent_amount : Z
    pub private_amount : Z
    pub total_amount : Z
    pub transparent_shown : value_text transparent_amount ≡ r.transparent
    pub private_shown : value_text private_amount ≡ r.private
    pub total_shown : value_text total_amount ≡ r.total
    pub transparent_sum : amounts.into_u64 transparent_amount ≡ transparent_value
    pub private_sum : amounts.into_u64 private_amount ≡ private_value
    pub total_sum : amounts.into_u64 total_amount ≡ transparent_value + private_value

module _ {Z : Type 0} (amounts : Amounts Z) {max_money : ℕ}
    (laws : AreChecked amounts max_money) where
  -- A checked sum is the plain one, and is missing only where that is out of range.
  abbrev HasSum : Option Z → ℕ → Type 0
  HasSum none n = max_money < n
  HasSum (some sum) n = amounts.into_u64 sum ≡ n

  add-none :
      (a b : Z) → amounts.add a b ≡ none → max_money < amounts.into_u64 a + amounts.into_u64 b
  add-none a b e = elim (Bool-cases (leb (amounts.into_u64 a + amounts.into_u64 b) max_money)) [
    | inl fits ↦ let (c, e') = laws.adds a b (ground arith) in cc (e, e')
    | inr out ↦ ground arith
  ]

  plus-HasSum :
      (sum : Option Z) (value : Z) (n : ℕ)
      → HasSum sum n
      → HasSum (plus amounts sum value) (n + amounts.into_u64 value)
  unfolding plus
  plus-HasSum none value n h = omega (arith, h)
  plus-HasSum (some sum) value n h = elim (Option-cases (amounts.add sum value)) [
    | inl e ↦ rw e (omega (arith, add-none sum value e, h))
    | inr (c, e) ↦ rw e (omega (arith, laws.added sum value c e, h))
  ]

  sums-HasSum :
      {U : Type 0} (accounts : List (WalletAccount U Z)) (transparent private : Option Z) (n m : ℕ)
      → HasSum transparent n
      → HasSum private m
      → HasSum (sums amounts accounts transparent private).0 (n + unshielded_value amounts accounts)
        × HasSum (sums amounts accounts transparent private).1 (m + shielded_value amounts accounts)
  unfolding sums
  sums-HasSum [] transparent private n m h k = (at_end transparent n h, at_end private m k)
    where
      at_end : (sum : Option Z) (a : ℕ) → HasSum sum a → HasSum sum (a + 0)
      at_end none a h = omega (arith, h)
      at_end (some sum) a h = omega (arith, h)
  sums-HasSum (account ∷ accounts) transparent private n m h k =
      let a = amounts.into_u64 account.unshielded_balance.total_value in
      let b = amounts.into_u64 account.sapling_balance.total_value in
      let c = amounts.into_u64 account.orchard_balance.total_value in
      let first : n + (a + unshielded_value amounts accounts)
          ≡ (n + a) + unshielded_value amounts accounts =
        omega arith in
      let second : m + ((b + c) + shielded_value amounts accounts)
          ≡ ((m + b) + c) + shielded_value amounts accounts =
        omega arith in
      rw (first, second)
        (sums-HasSum accounts _ _ (n + a) ((m + b) + c)
          (plus-HasSum transparent account.unshielded_balance.total_value n h)
          (plus-HasSum (plus amounts private account.sapling_balance.total_value)
            account.orchard_balance.total_value (m + b)
            (plus-HasSum private account.sapling_balance.total_value m k)))

  total_balance-Totals :
      (value_text : Z → String) (transparent private : Option Z) (n m : ℕ)
      → HasSum transparent n
      → HasSum private m
      → ((n + m ≤ max_money)
          × ((r : TotalBalance) × (total_balance amounts value_text transparent private ≡ some r)
              × Totals amounts value_text n m r))
        ⊎ ((max_money < n + m) × (total_balance amounts value_text transparent private ≡ none))
  unfolding total_balance
  total_balance-Totals value_text none private n m h k = inr (omega (arith, h), refl)
  total_balance-Totals value_text (some t) none n m h k = inr (omega (arith, k), refl)
  total_balance-Totals value_text (some t) (some p) n m h k =
      elim (Option-cases (amounts.add t p)) [
        | inl e ↦ inr (omega (arith, add-none t p e, h, k), rw (e, total_balance) refl)
        | inr (c, e) ↦
            let v = laws.added t p c e in
            inl (
              omega (arith, v, h, k, laws.bounded c),
              (
                _,
                rw (e, total_balance) refl,
                record {
                  transparent_amount = t;
                  private_amount = p;
                  total_amount = c;
                  transparent_shown = refl;
                  private_shown = refl;
                  total_shown = refl;
                  transparent_sum = h;
                  private_sum = k;
                  total_sum = omega (arith, v, h, k);
                },
              ),
            )
      ]

  summed-Totals :
      {U : Type 0} (value_text : Z → String) (found : Option (List (WalletAccount U Z)))
      → ((all_value amounts found ≤ max_money)
          × ((r : TotalBalance) × (summed amounts value_text found ≡ some r)
              × Totals amounts value_text
                  (unshielded_value amounts (accounts_of found))
                  (shielded_value amounts (accounts_of found))
                  r))
        ⊎ ((max_money < all_value amounts found) × (summed amounts value_text found ≡ none))
  unfolding summed
  summed-Totals value_text none =
      total_balance-Totals value_text (some amounts.zero_value) (some amounts.zero_value) 0 0
        laws.zero_lem laws.zero_lem
  summed-Totals value_text (some accounts) =
      let (t, p) =
        sums-HasSum accounts (some amounts.zero_value) (some amounts.zero_value) 0 0 laws.zero_lem
          laws.zero_lem in
      total_balance-Totals value_text _ _ (unshielded_value amounts accounts)
        (shielded_value amounts accounts) (from_zero _ _ t) (from_zero _ _ p)
    where
      from_zero : (sum : Option Z) (n : ℕ) → HasSum sum (0 + n) → HasSum sum n
      from_zero none n h = omega (arith, h)
      from_zero (some sum) n h = omega (arith, h)

  -- If the wallet answers, and include_watchonly is true: z_gettotalbalance returns the transparent and the
  -- shielded value of all accounts and their sum, each 0 if there is no summary, exactly if that sum is in range, as
  -- text; and else it reports the overflow.
  pub call-Totals :
      {U : Type 0} (value_text : Z → String)
      (get_wallet_summary : ConfirmationsPolicy → Result String (Option (List (WalletAccount U Z))))
      (minconf : Option ℕ) (found : Option (List (WalletAccount U Z)))
      → get_wallet_summary (confirmations_policy minconf) ≡ ok found
      → ((all_value amounts found ≤ max_money)
          × ((r : TotalBalance) × (call amounts value_text get_wallet_summary minconf (some true)
                ≡ ok r)
              × Totals amounts value_text
                  (unshielded_value amounts (accounts_of found))
                  (shielded_value amounts (accounts_of found))
                  r))
        ⊎ ((max_money < all_value amounts found)
            × (call amounts value_text get_wallet_summary minconf (some true)
                ≡ err (with_static wallet "balance overflow")))
  unfolding call check_watchonly summed
  call-Totals value_text get_wallet_summary minconf found answer =
      elim (summed-Totals value_text found) [
        | inl (fits, (r, e, shown)) ↦ inl (fits, (r, rw (answer, e) refl, shown))
        | inr (out, e) ↦ inr (out, rw (answer, e) refl)
      ]
