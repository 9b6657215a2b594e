-- ===== src/Unspent/Conflicts.antt =====
-- What z_listunspent lists if two addresses are given.
use zallet.Prelude.{
  ℕ, suc, Bool, true, false, not, String, List, [], ◌∷◌, ◌++◌, Option, some, ok, ok_or, map_err, Eq,
  contains, bind-ok, ok_injective, ◌≡◌, ◌≢◌, inl, inr, refl, arith, ap, sym, ◌∙◌, Option-cases,
}
use zallet.Prelude.Int.{ℤ}
use zallet.Params.{parse_as_of_height, parse_minconf}
use zallet.Privacy.Proposal.{PoolType, sapling, orchard}
use zallet.Transactions.{collect_rows, pool_text}
use zallet.Unspent.{
  UnspentOutput, WalletUtxo, ReceivedNote, WalletReads, Encodings, utxo_output, utxo_outputs,
  note_outputs,
}
use zallet.Unspent.Call.{
  policy_for, is_sapling_selected, is_orchard_selected, utxos_of, account_outputs, accounts_outputs,
  height_for, decode_addresses, call,
}

-- No shielded output.
abbrev pub AreTransparent : {JsonZec : Type 0} → List (UnspentOutput JsonZec) → Type 0
AreTransparent [] = Unit {0}
AreTransparent (output ∷ outputs) = (output.pool ≡ "transparent") × AreTransparent outputs

AreTransparent-append :
    {JsonZec : Type 0} (xs ys : List (UnspentOutput JsonZec))
    → AreTransparent xs
    → AreTransparent ys
    → AreTransparent (xs ++ ys)
AreTransparent-append [] ys h k = k
AreTransparent-append (x ∷ xs) ys (h, hs) k = (h, AreTransparent-append xs ys hs k)

module _ {U A S O Address Z JsonZec : Type 0} (enc : Encodings U A S O Address Z JsonZec)
    (a b : Address) (more : List Address) where
  sapling_conflict :
      ⦃saplings : Eq S⦄ (s : S)
      → (enc.to_sapling_address a ≡ some s → enc.to_sapling_address b ≢ some s)
      → is_sapling_selected enc (a ∷ b ∷ more) s ≡ false
  unfolding is_sapling_selected
  sapling_conflict ⦃saplings⦄ s apart = grind (arith, saplings.beq_iff)

  orchard_conflict :
      ⦃orchards : Eq O⦄ (o : O)
      → (contains (enc.orchard_receivers a) o ≡ true → contains (enc.orchard_receivers b) o ≡ false)
      → is_orchard_selected enc (a ∷ b ∷ more) o ≡ false
  unfolding is_orchard_selected
  orchard_conflict ⦃orchards⦄ o apart = ground arith

decode_two :
    {U A S O Address Z JsonZec : Type 0} (enc : Encodings U A S O Address Z JsonZec) (a b : Address)
    (first second : String) (others : List String) (addresses : List Address)
    → enc.decode first ≡ some a
    → enc.decode second ≡ some b
    → decode_addresses enc (some (first ∷ second ∷ others)) ≡ ok addresses
    → (more : List Address) × (addresses ≡ a ∷ b ∷ more)
unfolding decode_addresses collect_rows
decode_two enc a b first second others addresses is_a is_b h =
    let (rest, e, h1) = bind-ok _ (λ x. ok (a ∷ x)) _ (rw is_a at h) in
    let (more, f, h2) = bind-ok _ (λ x. ok (b ∷ x)) _ (rw is_b at e) in
    (more, sym (ok_injective _ addresses h1) ∙ ap (λ l. a ∷ l) (sym (ok_injective _ rest h2)))

module _ {U A S O Address Z JsonZec : Type 0} (wallet : WalletReads U A S O Z)
    (enc : Encodings U A S O Address Z JsonZec) where
  utxo_outputs-AreTransparent :
      (account_id : U) (is_watch_only : Bool) (target : ℕ) (utxos : List (WalletUtxo A Z))
      (outputs : List (UnspentOutput JsonZec))
      → utxo_outputs wallet enc account_id is_watch_only target utxos ≡ ok outputs
      → AreTransparent outputs
  unfolding utxo_outputs utxo_output pool_text
  utxo_outputs-AreTransparent account_id is_watch_only target [] outputs h =
      rw (← ok_injective _ outputs h) tt
  utxo_outputs-AreTransparent account_id is_watch_only target (utxo ∷ utxos) outputs h =
      let (output, e, h1) =
        bind-ok (utxo_output wallet enc account_id is_watch_only target utxo) _ _ h in
      let (rest, f, h2) =
        bind-ok (utxo_outputs wallet enc account_id is_watch_only target utxos) _ _ h1 in
      let (_, _, h3) =
        bind-ok
          (map_err _ (wallet.get_transparent_address_metadata account_id utxo.recipient_address)) _
          _ e in
      rw (← ok_injective _ outputs h2) (
        rw (← ok_injective _ output h3) refl,
        utxo_outputs-AreTransparent account_id is_watch_only target utxos rest f,
      )

  nothing_selected :
      {R : Type 0} (pool : PoolType) (encode : R → String) (account_id : U) (is_watch_only : Bool)
      (is_selected : R → Bool) (minconf : ℕ) (maxconf : Option ℕ) (target : ℕ)
      (notes : List (ReceivedNote R Z))
      → ((r : R) → is_selected r ≡ false)
      → note_outputs wallet enc pool encode account_id is_watch_only is_selected minconf maxconf
          target notes
        ≡ ok []
  unfolding note_outputs
  nothing_selected pool encode account_id is_watch_only is_selected minconf maxconf target []
        none_of =
      refl
  nothing_selected pool encode account_id is_watch_only is_selected minconf maxconf target
        (note ∷ notes) none_of =
      rw (none_of note.recipient) (
        nothing_selected pool encode account_id is_watch_only is_selected minconf maxconf target
          notes none_of)

  module _ ⦃saplings : Eq S⦄ ⦃orchards : Eq O⦄ (a b : Address)
      (no_sapling : (s : S) → enc.to_sapling_address a ≡ some s → enc.to_sapling_address b ≢ some s)
      (no_orchard : (o : O)
        → contains (enc.orchard_receivers a) o ≡ true
        → contains (enc.orchard_receivers b) o ≡ false) where
    account_outputs-AreTransparent :
        (minconf : ℕ) (maxconf : Option ℕ) (more : List Address) (target : ℕ) (account_id : U)
        (outputs : List (UnspentOutput JsonZec))
        → account_outputs wallet enc minconf maxconf (a ∷ b ∷ more) target account_id ≡ ok outputs
        → AreTransparent outputs
    unfolding account_outputs
    account_outputs-AreTransparent minconf maxconf more target account_id outputs h =
        let (found, _, h1) = bind-ok (map_err _ (wallet.get_account account_id)) _ _ h in
        let (is_spending, _, h2) = bind-ok (ok_or found _) _ _ h1 in
        let (receivers, _, h3) =
          bind-ok (map_err _ (wallet.get_transparent_receivers account_id)) _ _ h2 in
        let (utxos, _, h4) =
          bind-ok (utxos_of wallet target (policy_for minconf) receivers) _ _ h3 in
        let (listed, e, h5) =
          bind-ok (utxo_outputs wallet enc account_id (not is_spending) target utxos) _ _ h4 in
        let ((saps, orcs), _, h6) =
          bind-ok (map_err _ (wallet.select_unspent_notes account_id target)) _ _ h5 in
        let no_saplings =
          nothing_selected sapling enc.encode_sapling account_id (not is_spending)
            (is_sapling_selected enc (a ∷ b ∷ more)) minconf maxconf target saps
            (λ s. sapling_conflict enc a b more s (no_sapling s)) in
        let no_orchards =
          nothing_selected orchard enc.encode_orchard account_id (not is_spending)
            (is_orchard_selected enc (a ∷ b ∷ more)) minconf maxconf target orcs
            (λ o. orchard_conflict enc a b more o (no_orchard o)) in
        rw (← ok_injective (listed ++ []) outputs (rw (no_saplings, no_orchards) at h6)) (
          AreTransparent-append listed []
            (utxo_outputs-AreTransparent account_id (not is_spending) target utxos listed e) tt)

    accounts_outputs-AreTransparent :
        (minconf : ℕ) (maxconf : Option ℕ) (more : List Address) (target : ℕ) (account_ids : List U)
        (outputs : List (UnspentOutput JsonZec))
        → accounts_outputs wallet enc minconf maxconf (a ∷ b ∷ more) target account_ids ≡ ok outputs
        → AreTransparent outputs
    unfolding accounts_outputs
    accounts_outputs-AreTransparent minconf maxconf more target [] outputs h =
        rw (← ok_injective _ outputs h) tt
    accounts_outputs-AreTransparent minconf maxconf more target (account_id ∷ account_ids) outputs
          h =
        let (first, e, h1) =
          bind-ok (account_outputs wallet enc minconf maxconf (a ∷ b ∷ more) target account_id) _ _
            h in
        let (rest, f, h2) =
          bind-ok (accounts_outputs wallet enc minconf maxconf (a ∷ b ∷ more) target account_ids) _
            _ h1 in
        rw (← ok_injective _ outputs h2) (
          AreTransparent-append first rest
            (account_outputs-AreTransparent minconf maxconf more target account_id first e)
            (accounts_outputs-AreTransparent minconf maxconf more target account_ids rest f))

    -- Two addresses with no Sapling address and no Orchard receiver in common, given first: the outputs that
    -- are listed are all transparent, whatever notes the wallet has at these addresses.
    pub call-AreTransparent :
        (minconf maxconf : Option ℕ) (first second : String) (others : List String)
        (as_of_height : Option ℤ) (outputs : List (UnspentOutput JsonZec))
        → enc.decode first ≡ some a
        → enc.decode second ≡ some b
        → call wallet enc minconf maxconf (some (first ∷ second ∷ others)) as_of_height ≡ ok outputs
        → AreTransparent outputs
    unfolding call
    call-AreTransparent minconf maxconf first second others as_of_height outputs is_a is_b h =
        let (as_of, _, h1) = bind-ok (parse_as_of_height as_of_height) _ _ h in
        let (conf, _, h2) = bind-ok (parse_minconf minconf 1 as_of) _ _ h1 in
        let (addresses, decoded, h3) =
          bind-ok (decode_addresses enc (some (first ∷ second ∷ others))) _ _ h2 in
        let (height, _, h4) = bind-ok (height_for wallet as_of) _ _ h3 in
        let (more, same) = decode_two enc a b first second others addresses is_a is_b decoded in
        elim (Option-cases height) [
          | inl unknown ↦ rw (← ok_injective [] outputs (rw unknown at h4)) tt
          | inr (tip, known) ↦
              let (account_ids, _, h5) =
                bind-ok (map_err _ wallet.get_account_ids) _ _ (rw known at h4) in
              accounts_outputs-AreTransparent conf maxconf more (suc tip) account_ids outputs (
                ap (λ l. accounts_outputs wallet enc conf maxconf l (suc tip) account_ids)
                  (sym same)
                ∙ h5)
        ]
