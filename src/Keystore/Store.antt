-- ===== src/Keystore/Store.antt =====
-- The tables of the key store (zallet/src/components/keystore.rs), with the methods that write and read them. The
-- encryption (age), the mnemonic phrases (bip0039) and the fingerprints (zip32) are parameters, with the randomness
-- of an encryption as an argument. A method runs in one piece; the database does not fail.
pub mod Calls
pub mod Effect
pub mod Rows
pub mod Sapling
pub mod Seeds
use zallet.Prelude.{
  Bytes, same, ℕ, String, Bool, true, false, List, [], ◌∷◌, map, Option, none, some, Result, ok,
  err, ok_or, map_err, ◌>>=◌, ◌>>◌, if◌then◌else◌, Eq, ◌==◌, ==_iff, ◌≡◌, ◌↔◌, refl, arith, ap,
}

pub data Format : Type 0 where
  binary ascii_armor : Format

-- What the methods use of age, bip0039 and zip32.
pub record Crypto (Identity Recipient Mnemonic Entropy E : Type 0) : Type 0 where
  pub read_recipients : List String → Result E (List Recipient)
  pub encrypt : Entropy → List Recipient → Format → Bytes → Result E Bytes
  pub decrypt : List Identity → Bytes → Result E Bytes
  pub as_bytes : String → Bytes
  pub from_utf8 : Bytes → Result E String
  pub into_phrase : Mnemonic → String
  pub from_phrase : String → Result E Mnemonic
  pub to_seed : Mnemonic → Bytes
  pub from_seed : Bytes → Option Bytes

-- `panics` is a failed `expect`.
pub data StoreError (E : Type 0) : Type 0 where
  wallet_locked already_initialized missing_recipients failed_seed_fingerprinting : StoreError E
  query_returned_no_rows invalid_extended_spending_key panics : StoreError E
  generic : E → StoreError E

-- The rows of a table that has a unique column.
abbrev pub Rows : Type 0
Rows = List (Bytes × Bytes)

pub record Tables : Type 0 where
  pub age_recipients : List String
  pub mnemonics : Rows
  pub legacy_seeds : Rows
  pub sapling_keys : Rows
  pub transparent_keys : Rows

abbrev pub empty : Tables
empty = record {
  age_recipients = [];
  mnemonics = [];
  legacy_seeds = [];
  sapling_keys = [];
  transparent_keys = [];
}

-- `INSERT ... ON CONFLICT DO NOTHING`.
unfoldable pub insert_row : Bytes → Bytes → Rows → Rows
insert_row key value [] = (key, value) ∷ []
insert_row key value ((k, v) ∷ rows) =
    let rest = insert_row key value rows in if same k key then (k, v) ∷ rows else (k, v) ∷ rest

-- `query_row`, `WHERE` the unique column is the key.
unfoldable pub query_row : Bytes → Rows → Option Bytes
query_row key [] = none
query_row key ((k, v) ∷ rows) = let rest = query_row key rows in if same k key then some v else rest

abbrev pub is_empty {ℓ} : {A : Type ℓ} → List A → Bool
is_empty [] = true
is_empty (_ ∷ _) = false

unfoldable pub list_seed_fingerprints : Tables → List Bytes
list_seed_fingerprints tables = map (λ (row : Bytes × Bytes). row.0) tables.mnemonics

-- The keys as pairs of a public key and its encrypted secret key.
unfoldable pub store_encrypted_standalone_transparent_keys : List (Bytes × Bytes) → Tables → Tables
unfolding insert_row
store_encrypted_standalone_transparent_keys [] tables = tables
store_encrypted_standalone_transparent_keys ((pubkey, encrypted_key_bytes) ∷ keys) tables =
    store_encrypted_standalone_transparent_keys keys (record tables {
      transparent_keys = insert_row pubkey encrypted_key_bytes tables.transparent_keys;
    })

module _ {Identity Recipient Mnemonic Entropy E : Type 0}
    (crypto : Crypto Identity Recipient Mnemonic Entropy E) where
  -- The recipients of the `Encryptor`, which is empty exactly if there are no strings.
  unfoldable pub maybe_encryptor : Tables → Result (StoreError E) (List Recipient)
  maybe_encryptor tables = map_err generic (crypto.read_recipients tables.age_recipients)

  unfoldable pub encryptor : Tables → Result (StoreError E) (List Recipient)
  unfolding maybe_encryptor
  encryptor tables = do
    recipients ← maybe_encryptor tables
    if is_empty tables.age_recipients then err missing_recipients else ok recipients

  unfoldable pub initialize_recipients : List String → Tables → Result (StoreError E) Tables
  unfolding maybe_encryptor
  initialize_recipients recipient_strings tables = do
    _ ← maybe_encryptor tables
    if is_empty tables.age_recipients
        then ok (record tables { age_recipients = recipient_strings })
        else err already_initialized

  unfoldable pub encrypt_string :
      Entropy → List Recipient → String → Format → Result (StoreError E) Bytes
  encrypt_string entropy recipients plaintext format =
      map_err generic (crypto.encrypt entropy recipients format (crypto.as_bytes plaintext))

  unfoldable pub encrypt_secret : Entropy → List Recipient → Bytes → Result (StoreError E) Bytes
  encrypt_secret entropy recipients secret =
      map_err generic (crypto.encrypt entropy recipients binary secret)

  unfoldable pub decrypt_string : List Identity → Bytes → Result (StoreError E) String
  decrypt_string identities ciphertext =
      map_err generic (crypto.decrypt identities ciphertext) >>= λ bytes.
      map_err generic (crypto.from_utf8 bytes)

  unfoldable pub encrypt_and_store_mnemonic :
      Entropy → Mnemonic → Tables → Result (StoreError E) (Bytes × Tables)
  unfolding encryptor encrypt_string insert_row
  encrypt_and_store_mnemonic entropy mnemonic tables = do
    recipients ← encryptor tables
    seed_fp ← ok_or (crypto.from_seed (crypto.to_seed mnemonic)) panics
    encrypted_mnemonic ← encrypt_string entropy recipients (crypto.into_phrase mnemonic) binary
    ok (
      seed_fp,
      record tables { mnemonics = insert_row seed_fp encrypted_mnemonic tables.mnemonics },
    )

  unfoldable pub encrypt_and_store_legacy_seed :
      Entropy → Bytes → Tables → Result (StoreError E) (Bytes × Tables)
  unfolding encryptor encrypt_secret insert_row
  encrypt_and_store_legacy_seed entropy legacy_seed tables = do
    recipients ← encryptor tables
    legacy_seed_fp ← ok_or (crypto.from_seed legacy_seed) failed_seed_fingerprinting
    encrypted_legacy_seed ← encrypt_secret entropy recipients legacy_seed
    ok (
      legacy_seed_fp,
      record tables {
        legacy_seeds = insert_row legacy_seed_fp encrypted_legacy_seed tables.legacy_seeds;
      },
    )

  unfoldable pub decrypt_mnemonic : List Identity → Bytes → Tables → Result (StoreError E) String
  unfolding query_row decrypt_string
  decrypt_mnemonic identities seed_fp tables =
      if is_empty identities
      then err wallet_locked
      else ok_or (query_row seed_fp tables.mnemonics) query_returned_no_rows
        >>= decrypt_string identities

  unfoldable pub decrypt_seed : List Identity → Bytes → Tables → Result (StoreError E) Bytes
  unfolding decrypt_mnemonic
  decrypt_seed identities seed_fp tables = do
    phrase ← decrypt_mnemonic identities seed_fp tables
    mnemonic ← map_err generic (crypto.from_phrase phrase)
    ok (crypto.to_seed mnemonic)

  unfoldable pub export_mnemonic :
      Entropy → List Identity → Bytes → Bool → Tables → Result (StoreError E) Bytes
  unfolding encryptor decrypt_mnemonic encrypt_string
  export_mnemonic entropy identities seed_fp armor tables = do
    recipients ← encryptor tables
    mnemonic ← decrypt_mnemonic identities seed_fp tables
    encrypt_string entropy recipients mnemonic (if armor then ascii_armor else binary)
