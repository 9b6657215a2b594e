-- ===== src/Unspent/Call.antt =====
-- The handler of z_listunspent (zallet/src/components/json_rpc/methods/list_unspent.rs).
use zallet.Prelude.{
  ℕ, suc, Bool, true, false, not, String, List, [], ◌∷◌, ◌++◌, Option, none, some, ok, ok_or,
  map_err, ◌>>=◌, Eq, contains, if◌then◌else◌, ◌==◌,
}
use zallet.Prelude.Int.{ℤ}
use zallet.Rpc.Error.{RpcResult, database, invalid_parameter, internal_error, with_static}
use zallet.Params.{parse_as_of_height, parse_minconf}
use zallet.Privacy.Proposal.{sapling, orchard}
use zallet.Transactions.{collect_rows}
use zallet.Unspent.{
  UnspentOutput, WalletUtxo, ConfirmationsPolicy, WalletReads, Encodings, utxo_outputs,
  note_outputs,
}

unfoldable pub policy_for : ℕ → ConfirmationsPolicy
policy_for minconf =
    if minconf == 0
    then record { confirmations = 1; allow_zero_conf_shielding = true }
    else record { confirmations = minconf; allow_zero_conf_shielding = false }

module _ {U A S O Address Z JsonZec : Type 0} (enc : Encodings U A S O Address Z JsonZec) where
  unfoldable pub decode_addresses : Option (List String) → RpcResult (List Address)
  decode_addresses none = ok []
  decode_addresses (some addresses) =
      collect_rows
        (λ addr.
          ok_or (enc.decode addr) (with_static invalid_parameter "Not a valid Zcash address"))
        addresses

  -- `addresses.iter().all(...)` for a Sapling note, and for an Orchard note.
  unfoldable pub is_sapling_selected : ⦃saplings : Eq S⦄ → List Address → S → Bool
  is_sapling_selected ⦃saplings⦄ [] recipient = true
  is_sapling_selected ⦃saplings⦄ (addr ∷ addresses) recipient =
      let rest = is_sapling_selected addresses recipient in
      if elim (enc.to_sapling_address addr) [ none ↦ false | some s ↦ saplings.beq s recipient ]
      then rest
      else false

  unfoldable pub is_orchard_selected : ⦃orchards : Eq O⦄ → List Address → O → Bool
  is_orchard_selected ⦃orchards⦄ [] recipient = true
  is_orchard_selected ⦃orchards⦄ (addr ∷ addresses) recipient =
      let rest = is_orchard_selected addresses recipient in
      if contains (enc.orchard_receivers addr) recipient then rest else false

module _ {U A S O Z : Type 0} (wallet : WalletReads U A S O Z) where
  -- The `try_fold` over the receivers.
  unfoldable pub utxos_of : ℕ → ConfirmationsPolicy → List A → RpcResult (List (WalletUtxo A Z))
  utxos_of target_height policy [] = ok []
  utxos_of target_height policy (addr ∷ addrs) = do
    outputs ←
        map_err (λ text. with_static database "WalletDb::get_spendable_transparent_outputs failed")
          (wallet.get_spendable_transparent_outputs addr target_height policy)
    more ← utxos_of target_height policy addrs
    ok (outputs ++ more)

  unfoldable pub height_for : Option ℕ → RpcResult (Option ℕ)
  height_for (some h) = ok (some h)
  height_for none =
      map_err (λ text. with_static database "WalletDb::chain_height failed") wallet.chain_height

module _ {U A S O Address Z JsonZec : Type 0} ⦃saplings : Eq S⦄ ⦃orchards : Eq O⦄
    (wallet : WalletReads U A S O Z) (enc : Encodings U A S O Address Z JsonZec) where
  -- The body of the loop over the accounts.
  unfoldable pub account_outputs :
      ℕ → Option ℕ → List Address → ℕ → U → RpcResult (List (UnspentOutput JsonZec))
  unfolding utxos_of policy_for is_sapling_selected is_orchard_selected
  account_outputs minconf maxconf addresses target_height account_id = do
    found ←
        map_err (λ text. with_static database "WalletDb::get_account failed")
          (wallet.get_account account_id)
    is_spending ←
        ok_or found (record { code = internal_error; message = enc.internal_error_message })
    receivers ←
        map_err (λ text. with_static database "WalletDb::get_transparent_receivers failed")
          (wallet.get_transparent_receivers account_id)
    utxos ← utxos_of wallet target_height (policy_for minconf) receivers
    transparent_outputs ← utxo_outputs wallet enc account_id (not is_spending) target_height utxos
    (sapling_notes, orchard_notes) ←
        map_err (λ text. with_static database "WalletDb::select_unspent_notes failed")
          (wallet.select_unspent_notes account_id target_height)
    sapling_outputs ←
        note_outputs wallet enc sapling enc.encode_sapling account_id (not is_spending)
          (is_sapling_selected enc addresses) minconf maxconf target_height sapling_notes
    orchard_outputs ←
        note_outputs wallet enc orchard enc.encode_orchard account_id (not is_spending)
          (is_orchard_selected enc addresses) minconf maxconf target_height orchard_notes
    ok (transparent_outputs ++ (sapling_outputs ++ orchard_outputs))

  unfoldable pub accounts_outputs :
      ℕ → Option ℕ → List Address → ℕ → List U → RpcResult (List (UnspentOutput JsonZec))
  unfolding account_outputs
  accounts_outputs minconf maxconf addresses target_height [] = ok []
  accounts_outputs minconf maxconf addresses target_height (account_id ∷ account_ids) = do
    outputs ← account_outputs minconf maxconf addresses target_height account_id
    more ← accounts_outputs minconf maxconf addresses target_height account_ids
    ok (outputs ++ more)

  -- The parameter `include_watchonly` is not read.
  unfoldable pub call :
      Option ℕ
      → Option ℕ
      → Option (List String)
      → Option ℤ
      → RpcResult (List (UnspentOutput JsonZec))
  unfolding decode_addresses height_for accounts_outputs
  call minconf maxconf addresses as_of_height = do
    as_of_height' ← parse_as_of_height as_of_height
    minconf' ← parse_minconf minconf 1 as_of_height'
    addresses' ← decode_addresses enc addresses
    height ← height_for wallet as_of_height'
    elim height [
      | none ↦ ok []
      | some h ↦
          map_err (λ text. with_static database "WalletDb::get_account_ids failed")
            wallet.get_account_ids
          >>= accounts_outputs minconf' maxconf addresses' (suc h)
    ]
