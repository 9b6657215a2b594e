-- ===== src/Keystore/Store/Seeds.antt =====
-- The seeds that the key store's tables hold (zallet/src/components/keystore.rs).

use zallet.Prelude.{
  bytes_eq, Bytes, String, true, false, List, [], ◌∷◌, some, Result, ok, ok_or, bind-ok, contains,
  ◌≡◌, refl, ◌∙◌, sym,
}
use zallet.Keystore.Store.{
  binary, panics, Crypto, StoreError, Tables, empty, insert_row, query_row, is_empty, encryptor,
  list_seed_fingerprints, encrypt_and_store_mnemonic, decrypt_mnemonic, decrypt_seed,
  decrypt_string, encrypt_string,
}
use zallet.Keystore.Store.Calls.{Call, stores_mnemonic, run, run_all}
use zallet.Keystore.Store.Sapling.{SaplingKeys}
use zallet.Keystore.Store.Rows.{
  keys_of, EachRow-insert_row, EachRow-query_row, query_row-insert_row, contains-insert_row,
}
use zallet.Keystore.Store.Effect.{
  AllSeeds, Effect, keeps, initializes_recipients, inserts, IsSeedRow, run-Effect,
}

module _ {Identity Recipient Mnemonic Entropy E Key Dfvk Address : Type 0}
    (crypto : Crypto Identity Recipient Mnemonic Entropy E)
    (keys : SaplingKeys Key Dfvk Address) where
  Effect-AllSeeds :
      {before after : Tables}
      → Effect crypto keys before after
      → AllSeeds crypto keys before.age_recipients before.mnemonics
      → AllSeeds crypto keys after.age_recipients after.mnemonics
  Effect-AllSeeds (keeps m r) i = rw (m, r) i
  Effect-AllSeeds {before} {after} (initializes_recipients b m) i = rw (m ∙ i.1 b) (tt, λ e. refl)
  Effect-AllSeeds {before} {after} (inserts seed_fp c row b m r) i =
      rw (m, r)
        (
          EachRow-insert_row (IsSeedRow crypto keys before.age_recipients) seed_fp c
              before.mnemonics row i.0,
          λ e. cc (e, b),
        )

  run_all-AllSeeds :
      (calls : List (Call Mnemonic Entropy Key)) (tables : Tables)
      → AllSeeds crypto keys tables.age_recipients tables.mnemonics
      → AllSeeds crypto keys
          (run_all crypto keys calls tables).age_recipients
          (run_all crypto keys calls tables).mnemonics
  unfolding run_all
  run_all-AllSeeds [] tables i = i
  run_all-AllSeeds (call ∷ calls) tables i =
      run_all-AllSeeds calls (run crypto keys call tables)
        (Effect-AllSeeds (run-Effect crypto keys call tables) i)

  Effect-query_row :
      {before after : Tables} (k v : Bytes)
      → Effect crypto keys before after
      → query_row k before.mnemonics ≡ some v
      → query_row k after.mnemonics ≡ some v
  Effect-query_row k v (keeps m r) h = rw m h
  Effect-query_row k v (initializes_recipients b m) h = rw m h
  Effect-query_row {before} k v (inserts seed_fp c row b m r) h =
      rw m (query_row-insert_row seed_fp c k v before.mnemonics h)

  run_all-query_row :
      (calls : List (Call Mnemonic Entropy Key)) (tables : Tables) (k v : Bytes)
      → query_row k tables.mnemonics ≡ some v
      → query_row k (run_all crypto keys calls tables).mnemonics ≡ some v
  unfolding run_all
  run_all-query_row [] tables k v h = h
  run_all-query_row (call ∷ calls) tables k v h =
      run_all-query_row calls (run crypto keys call tables) k v
        (Effect-query_row k v (run-Effect crypto keys call tables) h)

  -- Identities that decrypt what is encrypted to these recipients.
  abbrev pub Matches : List Identity → List String → Type 0
  Matches identities strings =
      (recipients : List Recipient) (entropy : Entropy) (plaintext ciphertext : Bytes)
      → crypto.read_recipients strings ≡ ok recipients
      → crypto.encrypt entropy recipients binary plaintext ≡ ok ciphertext
      → crypto.decrypt identities ciphertext ≡ ok plaintext

  seed_of_row :
      (identities : List Identity) (tables : Tables) (seed_fp c : Bytes)
      → is_empty identities ≡ false
      → Matches identities tables.age_recipients
      → ((m : Mnemonic)
          → crypto.from_utf8 (crypto.as_bytes (crypto.into_phrase m)) ≡ ok (crypto.into_phrase m))
      → ((m : Mnemonic) → crypto.from_phrase (crypto.into_phrase m) ≡ ok m)
      → (row : IsSeedRow crypto keys tables.age_recipients seed_fp c)
      → query_row seed_fp tables.mnemonics ≡ some c
      → decrypt_seed crypto identities seed_fp tables ≡ ok (crypto.to_seed row.mnemonic)
  unfolding decrypt_seed decrypt_mnemonic decrypt_string
  seed_of_row identities tables seed_fp c n matches utf8 phrases row q =
      rw
        (
          n,
          q,
          matches row.recipients row.entropy (crypto.as_bytes (crypto.into_phrase row.mnemonic)) c
              row.parsed row.encrypted,
          utf8 row.mnemonic,
          phrases row.mnemonic,
        )
        refl

  same_seed :
      (identities : List Identity) (before after : Tables) (seed_fp c : Bytes)
      → query_row seed_fp before.mnemonics ≡ some c
      → query_row seed_fp after.mnemonics ≡ some c
      → decrypt_seed crypto identities seed_fp after ≡ decrypt_seed crypto identities seed_fp before
  unfolding decrypt_seed decrypt_mnemonic
  same_seed identities before after seed_fp c p q = rw (p, q) refl

  -- A fingerprint in the table has a seed, which no later calls change.
  listed-decrypt_seed :
      (identities : List Identity) (tables : Tables) (seed_fp : Bytes)
      → is_empty identities ≡ false
      → Matches identities tables.age_recipients
      → ((m : Mnemonic)
          → crypto.from_utf8 (crypto.as_bytes (crypto.into_phrase m)) ≡ ok (crypto.into_phrase m))
      → ((m : Mnemonic) → crypto.from_phrase (crypto.into_phrase m) ≡ ok m)
      → AllSeeds crypto keys tables.age_recipients tables.mnemonics
      → contains (list_seed_fingerprints tables) seed_fp ≡ true
      → (seed : Bytes) × (crypto.from_seed seed ≡ some seed_fp)
        × ((more : List (Call Mnemonic Entropy Key))
            → decrypt_seed crypto identities seed_fp (run_all crypto keys more tables) ≡ ok seed)
  unfolding list_seed_fingerprints
  listed-decrypt_seed identities tables seed_fp n matches utf8 phrases sound listed =
      let (c, found, row) =
        EachRow-query_row (IsSeedRow crypto keys tables.age_recipients) seed_fp tables.mnemonics
          sound.0 listed in
      (
        crypto.to_seed row.mnemonic,
        row.fingerprint,
        λ more.
            same_seed identities tables (run_all crypto keys more tables) seed_fp c found
              (run_all-query_row more tables seed_fp c found)
            ∙ seed_of_row identities tables seed_fp c n matches utf8 phrases row found,
      )

  stored_lem :
      (entropy : Entropy) (mnemonic : Mnemonic) (tables after : Tables) (seed_fp : Bytes)
      → encrypt_and_store_mnemonic crypto entropy mnemonic tables ≡ ok (seed_fp, after)
      → (run crypto keys (stores_mnemonic entropy mnemonic) tables ≡ after)
        × (contains (list_seed_fingerprints after) seed_fp ≡ true)
  unfolding run encrypt_and_store_mnemonic list_seed_fingerprints
  stored_lem entropy mnemonic tables after seed_fp h =
      let (recipients, p, h1) = bind-ok (encryptor crypto tables) _ _ h in
      let (fp, q, h2) =
        bind-ok (ok_or (crypto.from_seed (crypto.to_seed mnemonic)) panics) _ _ h1 in
      let (c, r, h3) =
        bind-ok (encrypt_string crypto entropy recipients (crypto.into_phrase mnemonic) binary) _ _
          h2 in
      (rw h refl, closing fp c h3)
    where
      closing :
          (fp c : Bytes)
          → ◌≡◌ {A = Result (StoreError E) (Bytes × Tables)}
              (ok (fp, record tables { mnemonics = insert_row fp c tables.mnemonics }))
              (ok (seed_fp, after))
          → contains (keys_of after.mnemonics) seed_fp ≡ true
      closing fp c e =
          let same_fp : fp ≡ seed_fp = cc e in
          let rows : insert_row fp c tables.mnemonics ≡ after.mnemonics = cc e in
          rw (sym rows, sym same_fp) (contains-insert_row fp c tables.mnemonics)

  -- From any tables that a sequence of calls leaves: if `encrypt_and_store_mnemonic` returns a fingerprint, then it
  -- is listed, and there is a seed of that fingerprint which `decrypt_seed` returns for it behind any further
  -- calls, given at least one identity, and identities that match the recipients. The
  -- conversions of phrases to bytes and of mnemonics to phrases are taken to be invertible.
  pub encrypt_and_store_mnemonic-decrypt_seed :
      (identities : List Identity) (calls : List (Call Mnemonic Entropy Key)) (entropy : Entropy)
      (mnemonic : Mnemonic) (seed_fp : Bytes) (after : Tables)
      → is_empty identities ≡ false
      → Matches identities after.age_recipients
      → ((m : Mnemonic)
          → crypto.from_utf8 (crypto.as_bytes (crypto.into_phrase m)) ≡ ok (crypto.into_phrase m))
      → ((m : Mnemonic) → crypto.from_phrase (crypto.into_phrase m) ≡ ok m)
      → encrypt_and_store_mnemonic crypto entropy mnemonic (run_all crypto keys calls empty)
        ≡ ok (seed_fp, after)
      → (contains (list_seed_fingerprints after) seed_fp ≡ true)
        × ((seed : Bytes) × (crypto.from_seed seed ≡ some seed_fp)
            × ((more : List (Call Mnemonic Entropy Key))
                → decrypt_seed crypto identities seed_fp (run_all crypto keys more after)
                  ≡ ok seed))
  encrypt_and_store_mnemonic-decrypt_seed identities calls entropy mnemonic seed_fp after n matches
        utf8 phrases h =
      let tables = run_all crypto keys calls empty in
      let (ran, listed) = stored_lem entropy mnemonic tables after seed_fp h in
      let sound =
        Effect-AllSeeds (run-Effect crypto keys (stores_mnemonic entropy mnemonic) tables)
          (run_all-AllSeeds calls empty (tt, λ e. refl)) in
      (
        listed,
        listed-decrypt_seed identities after seed_fp n matches utf8 phrases (rw ran at sound)
            listed,
      )
