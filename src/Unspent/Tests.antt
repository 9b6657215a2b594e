-- ===== src/Unspent/Tests.antt =====
-- The theorems on unspent outputs, applied: one account with one Sapling note, which is listed for its own address,
-- and not if another address is given too.
use zallet.Prelude.{
  ℕ, true, false, String, [], ◌∷◌, Option, none, some, ok, contains, eq_iff, ◌≢◌, ◌≡◌, refl, arith,
}
use zallet.AsyncOp.Registry.{string_eq}
use zallet.Params.{parse_as_of_height, parse_minconf}
use zallet.Privacy.Proposal.{sapling}
use zallet.Transactions.{pool_text, collect_rows}
use zallet.Unspent.{
  UnspentOutput, WalletUtxo, ReceivedNote, WalletReads, Encodings, note_outputs, utxo_outputs,
}
use zallet.Unspent.Call.{call, is_sapling_selected}
use zallet.Unspent.Filters.{Lists, note_outputs-Lists}
use zallet.Unspent.Conflicts.{AreTransparent, call-AreTransparent}

abbrev note : ReceivedNote String ℕ
note = record { txid = 1 ∷ []; output_index = 0; recipient = "zs1"; value = 5; is_internal = false }

-- An output at a transparent address.
abbrev utxo : WalletUtxo String ℕ
utxo = record {
  txid = 2 ∷ [];
  index = 1;
  mined_height = some 9;
  recipient_address = "t1";
  script_address = some "t1";
  value = 6;
}

abbrev wallet : WalletReads String String String String ℕ
wallet = record {
  chain_height = ok (some 10);
  get_account_ids = ok ("account" ∷ []);
  get_account = λ u. ok (some true);
  get_transparent_receivers = λ u. ok ("t1" ∷ []);
  get_spendable_transparent_outputs = λ a target policy. ok (utxo ∷ []);
  get_transparent_address_metadata = λ u a. ok none;
  select_unspent_notes = λ u target. ok (note ∷ [], []);
  get_memo = λ txid pool index. ok none;
  get_tx_height = λ txid. ok (some 7);
}

abbrev encodings : Encodings String String String String String ℕ ℕ
encodings = record {
  decode = λ s. some s;
  to_sapling_address = λ s. some s;
  orchard_receivers = λ s. [];
  encode_transparent = λ s. s;
  encode_sapling = λ s. s;
  encode_orchard = λ s. s;
  uuid_text = λ s. s;
  txid_text = λ b. "tx";
  memo_hex = λ m. "";
  value_from_zatoshis = λ n. n;
  into_u64 = λ n. n;
  internal_error_message = "Internal error";
}

abbrev listed_note : UnspentOutput ℕ
listed_note = record {
  txid = "tx";
  pool = "sapling";
  outindex = 0;
  confirmations = 4;
  is_watch_only = false;
  address = some "zs1";
  account_uuid = "account";
  wallet_internal = false;
  value = 5;
  value_zat = 5;
  memo = some "TODO: Always enhance every note";
  memo_str = none;
}

abbrev listed_utxo : UnspentOutput ℕ
listed_utxo = record {
  txid = "tx";
  pool = "transparent";
  outindex = 1;
  confirmations = 2;
  is_watch_only = false;
  address = some "t1";
  account_uuid = "account";
  wallet_internal = false;
  value = 6;
  value_zat = 6;
  memo = none;
  memo_str = none;
}

listed :
    call wallet encodings (some 2) none (some ("zs1" ∷ [])) none
    ≡ ok (listed_utxo ∷ listed_note ∷ [])
unfolding call parse_as_of_height parse_minconf collect_rows utxo_outputs note_outputs pool_text
listed = refl

one_note :
    note_outputs wallet encodings sapling
      (λ s. s)
      "account"
      false
      (is_sapling_selected encodings ("zs1" ∷ []))
      2
      none
      11
      (note ∷ [])
    ≡ ok (listed_note ∷ [])
unfolding note_outputs is_sapling_selected pool_text
one_note = refl

note_outputs-Lists_example :
    Lists wallet encodings sapling
      (λ s. s)
      "account"
      false
      (is_sapling_selected encodings ("zs1" ∷ []))
      2
      none
      11
      (note ∷ [])
      (listed_note ∷ [])
note_outputs-Lists_example =
    note_outputs-Lists wallet encodings sapling (λ s. s) "account" false
      (is_sapling_selected encodings ("zs1" ∷ [])) 2 none 11 (note ∷ []) (listed_note ∷ []) one_note

-- With two addresses the note is not listed.
left_out :
    call wallet encodings (some 2) none (some ("zs1" ∷ "zs2" ∷ [])) none ≡ ok (listed_utxo ∷ [])
unfolding call parse_as_of_height parse_minconf collect_rows utxo_outputs note_outputs pool_text
left_out = refl

different :
    (s : String)
    → ◌≡◌ {A = Option String} (some "zs1") (some s)
    → ◌≢◌ {A = Option String} (some "zs2") (some s)
different s h k = ground (arith, eq_iff "zs1" "zs2")

call-AreTransparent_example : AreTransparent (listed_utxo ∷ [])
call-AreTransparent_example =
    call-AreTransparent wallet encodings "zs1" "zs2" different (λ o h. unfold contains in refl)
      (some 2) none "zs1" "zs2" [] none (listed_utxo ∷ []) refl refl left_out
