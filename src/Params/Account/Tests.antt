-- ===== src/Params/Account/Tests.antt =====
-- An account number in a wallet with two accounts of one seed.
use zallet.Prelude.{
  ℕ, ◌<◌, Bytes, bytes_eq, [], ◌∷◌, Option, none, some, ok, ◌==◌, if◌then◌else◌, ◌≡◌, ◌↔◌, refl,
}
use zallet.Params.Account.{
  number, zcash_legacy_account, Derivation, Accounts, Formats, parse_account_parameter,
}
use zallet.Params.Account.Indices.{seeds_of, last_with, IsSingle, parse_account_parameter_iff}

abbrev derived : ℕ → Option (Derivation Bytes)
derived a = some (record { seed_fp = 5 ∷ []; account_index = if a == 7 then 0 else 1 })

abbrev wallet_accounts : Accounts ℕ Bytes
wallet_accounts = record {
  list_legacy_seed_fingerprints = ok [];
  get_account_ids = ok (7 ∷ 8 ∷ []);
  get_account = λ a. ok (some (derived a));
}

abbrev formats : Formats ℕ
formats = record { message_of = λ c. "error"; display = λ n. "n"; parse_uuid = λ s. none }

parse_account_parameter_iff_example :
    (parse_account_parameter formats wallet_accounts (number (some 1)) ≡ ok 8) ↔ (
      (1 < zcash_legacy_account)
      × IsSingle (seeds_of [] derived (7 ∷ 8 ∷ []))
      × (last_with [] derived 1 (7 ∷ 8 ∷ []) ≡ some 8))
parse_account_parameter_iff_example =
    parse_account_parameter_iff [] derived 1 wallet_accounts formats (7 ∷ 8 ∷ []) 8 refl refl
      (λ a. refl)
