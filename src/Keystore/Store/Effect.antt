-- ===== src/Keystore/Store/Effect.antt =====
-- What the calls do to the mnemonics and the recipients of the key store (zallet/src/components/keystore.rs).

use zallet.Prelude.{
  bytes_eq, Bytes, String, true, false, List, [], ◌∷◌, some, ok, Result-cases, Option-cases,
  Bool-cases, ◌≡◌, refl, arith, inl, inr,
}
use zallet.Keystore.Store.{
  binary, Crypto, Rows, Tables, insert_row, is_empty, encryptor, maybe_encryptor,
  initialize_recipients, encrypt_and_store_mnemonic, encrypt_and_store_legacy_seed, encrypt_string,
  store_encrypted_standalone_transparent_keys, encrypt_secret,
}
use zallet.Keystore.Store.Calls.{
  Call, initializes, stores_mnemonic, stores_legacy_seed, stores_sapling_key,
  stores_transparent_keys, run,
}
use zallet.Keystore.Store.Sapling.{SaplingKeys, encrypt_and_store_standalone_sapling_key}
use zallet.Keystore.Store.Rows.{EachRow}

module _ {Identity Recipient Mnemonic Entropy E Key Dfvk Address : Type 0}
    (crypto : Crypto Identity Recipient Mnemonic Entropy E)
    (keys : SaplingKeys Key Dfvk Address) where
  -- The row is the phrase of a mnemonic, encrypted to these recipients, and the fingerprint of its seed.
  pub record IsSeedRow (strings : List String) (seed_fp encrypted_mnemonic : Bytes) : Type 0 where
    pub recipients : List Recipient
    pub entropy : Entropy
    pub mnemonic : Mnemonic
    pub parsed : crypto.read_recipients strings ≡ ok recipients
    pub encrypted :
        crypto.encrypt entropy recipients binary (crypto.as_bytes (crypto.into_phrase mnemonic))
        ≡ ok encrypted_mnemonic
    pub fingerprint : crypto.from_seed (crypto.to_seed mnemonic) ≡ some seed_fp

  -- Each row holds a seed, and without recipients there are no rows.
  abbrev pub AllSeeds : List String → Rows → Type 0
  AllSeeds strings rows = EachRow (IsSeedRow strings) rows × (is_empty strings ≡ true → rows ≡ [])

  -- What a call does to the mnemonics and the recipients: nothing; it sets the first recipients; or it stores a
  -- mnemonic.
  pub data Effect (before after : Tables) : Type 0 where
    keeps :
        after.mnemonics ≡ before.mnemonics
        → after.age_recipients ≡ before.age_recipients
        → Effect before after
    initializes_recipients :
        is_empty before.age_recipients ≡ true
        → after.mnemonics ≡ before.mnemonics
        → Effect before after
    inserts :
        (seed_fp c : Bytes)
        → IsSeedRow before.age_recipients seed_fp c
        → is_empty before.age_recipients ≡ false
        → after.mnemonics ≡ insert_row seed_fp c before.mnemonics
        → after.age_recipients ≡ before.age_recipients
        → Effect before after

  pub store_mnemonic-Effect :
      (entropy : Entropy) (mnemonic : Mnemonic) (tables : Tables)
      → Effect tables (run crypto keys (stores_mnemonic entropy mnemonic) tables)
  unfolding run encrypt_and_store_mnemonic encryptor maybe_encryptor encrypt_string
  store_mnemonic-Effect entropy mnemonic tables =
      elim (Result-cases (crypto.read_recipients tables.age_recipients)) [
        | inr (e, p) ↦ keeps (rw p refl) (rw p refl)
        | inl (recipients, p) ↦ elim (Bool-cases (is_empty tables.age_recipients)) [
          | inl b ↦ keeps (rw (p, b) refl) (rw (p, b) refl)
          | inr b ↦ elim (Option-cases (crypto.from_seed (crypto.to_seed mnemonic))) [
            | inl q ↦ keeps (rw (p, b, q) refl) (rw (p, b, q) refl)
            | inr (seed_fp, q) ↦
                elim (Result-cases (
                  crypto.encrypt entropy recipients binary
                    (crypto.as_bytes (crypto.into_phrase mnemonic)))) [
                      | inr (e, r) ↦ keeps (rw (p, b, q, r) refl) (rw (p, b, q, r) refl)
                      | inl (c, r) ↦
                          let row : IsSeedRow tables.age_recipients seed_fp c = record {
                            recipients = recipients;
                            entropy = entropy;
                            mnemonic = mnemonic;
                            parsed = p;
                            encrypted = r;
                            fingerprint = q;
                          } in
                          inserts seed_fp c row b (rw (p, b, q, r) refl) (rw (p, b, q, r) refl)
                    ]
          ]
        ]
      ]

  transparent_keys_lem :
      (new : List (Bytes × Bytes)) (tables : Tables)
      → ((store_encrypted_standalone_transparent_keys new tables).mnemonics ≡ tables.mnemonics)
        × ((store_encrypted_standalone_transparent_keys new tables).age_recipients
            ≡ tables.age_recipients)
  unfolding store_encrypted_standalone_transparent_keys
  transparent_keys_lem [] tables = (refl, refl)
  transparent_keys_lem ((k, v) ∷ new) tables =
      transparent_keys_lem new
        (record tables { transparent_keys = insert_row k v tables.transparent_keys })

  pub run-Effect :
      (call : Call Mnemonic Entropy Key) (tables : Tables)
      → Effect tables (run crypto keys call tables)
  unfolding run initialize_recipients maybe_encryptor encrypt_and_store_legacy_seed encryptor
      encrypt_secret encrypt_and_store_standalone_sapling_key
  run-Effect (initializes strings) tables =
      elim (Result-cases (crypto.read_recipients tables.age_recipients)) [
        | inr (e, p) ↦ keeps (rw p refl) (rw p refl)
        | inl (recipients, p) ↦ elim (Bool-cases (is_empty tables.age_recipients)) [
          | inl b ↦ initializes_recipients b (rw (p, b) refl)
          | inr b ↦ keeps (rw (p, b) refl) (rw (p, b) refl)
        ]
      ]
  run-Effect (stores_mnemonic entropy mnemonic) tables =
      store_mnemonic-Effect entropy mnemonic tables
  run-Effect (stores_legacy_seed entropy seed) tables = keeps (ground arith) (ground arith)
  run-Effect (stores_sapling_key entropy key) tables = keeps (ground arith) (ground arith)
  run-Effect (stores_transparent_keys new) tables =
      keeps (transparent_keys_lem new tables).0 (transparent_keys_lem new tables).1
