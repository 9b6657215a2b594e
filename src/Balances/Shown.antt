-- ===== src/Balances/Shown.antt =====
-- What z_getbalances is to report of each account.
use zallet.Prelude.{
  ℕ, ◌+◌, ◌≤◌, ◌<◌, String, List, [], ◌∷◌, Option, none, some, ok, err, ◌>>=◌, ◌≡◌, ◌⊎◌, refl, inl,
  inr,
}
use zallet.Rpc.Error.{RpcError, RpcResult, database, with_static}
use zallet.Shielding.Accounting.{Amounts}
use zallet.Balances.{WalletBalance, WalletAccount, Balance, TransparentBalance, AccountBalance}

-- A result that is good if a condition holds, and the error `refusal` if it does not.
abbrev pub Decides : {A : Type 0} → Type 0 → (A → Type 0) → RpcError → RpcResult A → Type 0
Decides {A} Fits Good refusal r =
    (Fits × ((a : A) × (r ≡ ok a) × Good a)) ⊎ ((¬ Fits) × (r ≡ err refusal))

pub Decides-map :
    {A B : Type 0} {Fits : Type 0} {Good : A → Type 0} {Good' : B → Type 0} {refusal : RpcError}
    (r : RpcResult A) (f : A → B)
    → Decides Fits Good refusal r
    → ((a : A) → Good a → Good' (f a))
    → Decides Fits Good' refusal (r >>= λ a. ok (f a))
Decides-map r f (inl (fits, (a, e, good))) next = inl (fits, (f a, rw e refl, next a good))
Decides-map r f (inr (out, e)) next = inr (out, rw e refl)

pub Decides-bind :
    {A B : Type 0} {Fits Fits' : Type 0} {Good : A → Type 0} {Good' : B → Type 0}
    {refusal : RpcError} (r : RpcResult A) (k : A → RpcResult B)
    → Decides Fits Good refusal r
    → ((a : A) → Good a → Decides Fits' Good' refusal (k a))
    → Decides (Fits × Fits') Good' refusal (r >>= k)
Decides-bind r k (inr (out, e)) next = inr (λ (fits, _). out fits, rw e refl)
Decides-bind r k (inl (fits, (a, e, good))) next = elim (next a good) [
  | inl (fits', (b, e', good')) ↦ inl ((fits, fits'), (b, rw e e', good'))
  | inr (out, e') ↦ inr (λ (_, fits'). out fits', rw e e')
]

abbrev pub corrupt : RpcError
corrupt = with_static database "Wallet database is corrupt: storing more than MAX_MONEY"

-- A number that is left out exactly if it is 0.
abbrev pub Shows : Option ℕ → ℕ → Type 0
Shows none n = n ≡ 0
Shows (some v) n = (v ≡ n) × (0 < n)

module _ {Z : Type 0} (amounts : Amounts Z) where
  abbrev pub pending_value : WalletBalance Z → ℕ
  pending_value b =
      amounts.into_u64 b.change_pending_confirmation + amounts.into_u64 b.value_pending_spendability

  abbrev pub whole_value : WalletBalance Z → ℕ
  whole_value b =
      amounts.into_u64 b.spendable_value + (pending_value b + amounts.into_u64 b.uneconomic_value)

  pub record ShowsBalance (b : WalletBalance Z) (r : Balance) : Type 0 where
    pub spendable_shown : r.spendable ≡ amounts.into_u64 b.spendable_value
    pub none_locked : r.locked ≡ none
    pub pending_shown : Shows r.pending (pending_value b)
    pub dust_shown : Shows r.dust (amounts.into_u64 b.uneconomic_value)

  -- A balance that is left out exactly if there are no funds.
  abbrev pub ShowsPool : WalletBalance Z → Option Balance → Type 0
  ShowsPool b none = whole_value b ≡ 0
  ShowsPool b (some r) = ShowsBalance b r × (0 < whole_value b)

  abbrev pub ShowsTransparent : WalletBalance Z → Option TransparentBalance → Type 0
  ShowsTransparent b none = whole_value b ≡ 0
  ShowsTransparent b (some t) = ShowsPool b t.regular × (0 < whole_value b) × (t.coinbase ≡ none)

  module _ {U : Type 0} (uuid_text : U → String) where
    pub record ShowsAccount (account : WalletAccount U Z) (r : AccountBalance) : Type 0 where
      pub uuid_shown : r.account_uuid ≡ uuid_text account.account_id
      pub transparent_shown : ShowsTransparent account.unshielded_balance r.transparent
      pub watchonly_shown : r.transparent_watchonly ≡ []
      pub sapling_shown : ShowsPool account.sapling_balance r.sapling
      pub orchard_shown : ShowsPool account.orchard_balance r.orchard
      pub total_shown : ShowsBalance account.all_pools r.total

    abbrev pub ShowsAccounts : List (WalletAccount U Z) → List AccountBalance → Type 0
    ShowsAccounts [] [] = Unit
    ShowsAccounts [] (_ ∷ _) = ⊥
    ShowsAccounts (_ ∷ _) [] = ⊥
    ShowsAccounts (account ∷ accounts) (r ∷ rs) = ShowsAccount account r × ShowsAccounts accounts rs

  -- What a balance's total stands for: all of it but what is too small to spend.
  abbrev pub IsTotalled : WalletBalance Z → Type 0
  IsTotalled b =
      amounts.into_u64 b.total_value ≡ amounts.into_u64 b.spendable_value + pending_value b

  abbrev pub AreTotalled : {U : Type 0} → List (WalletAccount U Z) → Type 0
  AreTotalled [] = Unit
  AreTotalled (account ∷ accounts) = IsTotalled account.unshielded_balance × AreTotalled accounts

  -- The pending values of the account, in each pool and in all.
  abbrev pub AreInRange : {U : Type 0} → ℕ → List (WalletAccount U Z) → Type 0
  AreInRange max_money [] = Unit
  AreInRange max_money (account ∷ accounts) =
      ((pending_value account.unshielded_balance ≤ max_money)
        × ((pending_value account.sapling_balance ≤ max_money)
            × ((pending_value account.orchard_balance ≤ max_money)
                × (pending_value account.all_pools ≤ max_money))))
      × AreInRange max_money accounts
