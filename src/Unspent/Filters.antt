-- ===== src/Unspent/Filters.antt =====
-- Which notes z_listunspent lists, and what becomes of them if two addresses are given.
use zallet.Prelude.{
  ℕ, ◌-◌, ◌≤◌, Bool, true, false, String, List, [], ◌∷◌, Option, none, some, ok, map_err,
  if◌then◌else◌, bind-ok, ok_injective, map_err-ok, ◌≡◌, ◌↔◌, inl, inr, refl, arith, Bool-cases,
}
use zallet.Privacy.Proposal.{PoolType}
use zallet.Transactions.{pool_text}
use zallet.Unspent.{
  UnspentOutput, ReceivedNote, WalletReads, Encodings, confirmations_at, is_skipped, memo_of,
  note_output, note_outputs,
}

-- A note is deep enough for `minconf` and not too deep for `maxconf`; one that is not mined has no
-- confirmations, and is deep enough for every `minconf`.
abbrev pub IsInDepth : ℕ → Option ℕ → ℕ → Option ℕ → Type 0
IsInDepth minconf none target none = Unit {0}
IsInDepth minconf (some c) target none = Unit {0}
IsInDepth minconf none target (some h) = h ≤ target - minconf
IsInDepth minconf (some c) target (some h) = (h ≤ target - minconf) × (target - h ≤ c)

is_skipped_iff :
    (minconf : ℕ) (maxconf : Option ℕ) (target : ℕ) (height : Option ℕ)
    → (is_skipped minconf maxconf target height ≡ false) ↔ IsInDepth minconf maxconf target height
unfolding is_skipped
is_skipped_iff minconf none target none = (λ h. tt, λ h. refl)
is_skipped_iff minconf (some c) target none = (λ h. tt, λ h. ground arith)
is_skipped_iff minconf none target (some h) = ground arith
is_skipped_iff minconf (some c) target (some h) = ground arith

module _ {U A S O Address Z JsonZec R : Type 0} (wallet : WalletReads U A S O Z)
    (enc : Encodings U A S O Address Z JsonZec) (pool : PoolType) (encode : R → String)
    (account_id : U) (is_watch_only : Bool) (is_selected : R → Bool) (minconf : ℕ)
    (maxconf : Option ℕ) (target : ℕ) where
  -- An output that shows a note of this height: its pool, account, index, value and confirmations, and
  -- its address unless it is internal.
  pub record IsOf (note : ReceivedNote R Z) (height : Option ℕ) (output : UnspentOutput JsonZec)
      : Type 0 where
    pub of_pool : output.pool ≡ pool_text pool
    pub of_account : output.account_uuid ≡ enc.uuid_text account_id
    pub of_txid : output.txid ≡ enc.txid_text note.txid
    pub of_index : output.outindex ≡ note.output_index
    pub of_value : output.value_zat ≡ enc.into_u64 note.value
    pub of_depth : output.confirmations ≡ confirmations_at target height
    pub of_scope : output.wallet_internal ≡ note.is_internal
    pub of_address :
        output.address ≡ (if note.is_internal then none else some (encode note.recipient))

  -- The notes that are selected and in depth are listed, in their order, and no others.
  pub data Lists : List (ReceivedNote R Z) → List (UnspentOutput JsonZec) → Type 0 where
    done : Lists [] []
    lists :
        {note : ReceivedNote R Z} {notes : List (ReceivedNote R Z)} {output : UnspentOutput JsonZec}
        {outputs : List (UnspentOutput JsonZec)} (height : Option ℕ)
        → is_selected note.recipient ≡ true
        → wallet.get_tx_height note.txid ≡ ok height
        → IsInDepth minconf maxconf target height
        → IsOf note height output
        → Lists notes outputs
        → Lists (note ∷ notes) (output ∷ outputs)
    out_of_depth :
        {note : ReceivedNote R Z} {notes : List (ReceivedNote R Z)}
        {outputs : List (UnspentOutput JsonZec)} (height : Option ℕ)
        → wallet.get_tx_height note.txid ≡ ok height
        → ¬ IsInDepth minconf maxconf target height
        → Lists notes outputs
        → Lists (note ∷ notes) outputs
    not_selected :
        {note : ReceivedNote R Z} {notes : List (ReceivedNote R Z)}
        {outputs : List (UnspentOutput JsonZec)}
        → is_selected note.recipient ≡ false
        → Lists notes outputs
        → Lists (note ∷ notes) outputs

  note_output-IsOf :
      (note : ReceivedNote R Z) (height : Option ℕ) (output : UnspentOutput JsonZec)
      → note_output wallet enc pool encode account_id is_watch_only note
          (confirmations_at target height)
        ≡ ok output
      → IsOf note height output
  unfolding note_output
  note_output-IsOf note height output h =
      let (m, _, h1) = bind-ok (memo_of wallet enc note.txid pool note.output_index) _ _ h in
      rw (← ok_injective _ output h1) (record {
        of_pool = refl;
        of_account = refl;
        of_txid = refl;
        of_index = refl;
        of_value = refl;
        of_depth = refl;
        of_scope = refl;
        of_address = refl;
      })

  -- If the notes of an account are listed, then those listed are the ones that are selected and in depth,
  -- in their order, each with its own pool, index, value, confirmations and address.
  pub note_outputs-Lists :
      (notes : List (ReceivedNote R Z)) (outputs : List (UnspentOutput JsonZec))
      → note_outputs wallet enc pool encode account_id is_watch_only is_selected minconf maxconf
          target notes
        ≡ ok outputs
      → Lists notes outputs
  unfolding note_outputs
  note_outputs-Lists [] outputs h = rw (← ok_injective _ outputs h) done
  note_outputs-Lists (note ∷ notes) outputs h = elim (Bool-cases (is_selected note.recipient)) [
    | inr left ↦ not_selected left (note_outputs-Lists notes outputs (rw left at h))
    | inl taken ↦
        let (height, e, h1) =
          bind-ok (map_err _ (wallet.get_tx_height note.txid)) _ _ (rw taken at h) in
        let known = map_err-ok _ (wallet.get_tx_height note.txid) height e in
        elim (Bool-cases (is_skipped minconf maxconf target height)) [
          | inl skipped ↦
              out_of_depth height known
                (λ d. cc ((is_skipped_iff minconf maxconf target height).1 d, skipped))
                (note_outputs-Lists notes outputs (rw skipped at h1))
          | inr kept ↦
              let (output, f, h2) =
                bind-ok
                  (note_output wallet enc pool encode account_id is_watch_only note
                    (confirmations_at target height))
                  _ _ (rw kept at h1) in
              let (rest, g, h3) =
                bind-ok
                  (note_outputs wallet enc pool encode account_id is_watch_only is_selected minconf
                    maxconf target notes)
                  _ _ h2 in
              rw (← ok_injective _ outputs h3) (
                lists height taken known ((is_skipped_iff minconf maxconf target height).0 kept)
                  (note_output-IsOf note height output f) (note_outputs-Lists notes rest g))
        ]
  ]
