-- ===== src/Keystore/Store/Calls.antt =====
-- Sequences of calls of the methods that write the key store's tables.
use zallet.Prelude.{Bytes, String, List, [], ◌∷◌, Result, ok, err}
use zallet.Keystore.Store.{
  Crypto, Tables, initialize_recipients, encrypt_and_store_mnemonic, encrypt_and_store_legacy_seed,
  store_encrypted_standalone_transparent_keys,
}
use zallet.Keystore.Store.Sapling.{SaplingKeys, encrypt_and_store_standalone_sapling_key}

pub data Call (Mnemonic Entropy Key : Type 0) : Type 0 where
  initializes : List String → Call Mnemonic Entropy Key
  stores_mnemonic : Entropy → Mnemonic → Call Mnemonic Entropy Key
  stores_legacy_seed : Entropy → Bytes → Call Mnemonic Entropy Key
  stores_sapling_key : Entropy → Key → Call Mnemonic Entropy Key
  stores_transparent_keys : List (Bytes × Bytes) → Call Mnemonic Entropy Key

-- A failed call changes nothing.
abbrev pub tables_of : {E A : Type 0} → Tables → Result E (A × Tables) → Tables
tables_of tables (err e) = tables
tables_of tables (ok (a, after)) = after

abbrev pub initialized : {E : Type 0} → Tables → Result E Tables → Tables
initialized tables (err e) = tables
initialized tables (ok after) = after

module _ {Identity Recipient Mnemonic Entropy E Key Dfvk Address : Type 0}
    (crypto : Crypto Identity Recipient Mnemonic Entropy E)
    (keys : SaplingKeys Key Dfvk Address) where
  unfoldable pub run : Call Mnemonic Entropy Key → Tables → Tables
  unfolding initialize_recipients encrypt_and_store_mnemonic encrypt_and_store_legacy_seed
      encrypt_and_store_standalone_sapling_key store_encrypted_standalone_transparent_keys
  run (initializes strings) tables =
      initialized tables (initialize_recipients crypto strings tables)
  run (stores_mnemonic entropy mnemonic) tables =
      tables_of tables (encrypt_and_store_mnemonic crypto entropy mnemonic tables)
  run (stores_legacy_seed entropy seed) tables =
      tables_of tables (encrypt_and_store_legacy_seed crypto entropy seed tables)
  run (stores_sapling_key entropy key) tables =
      tables_of tables (encrypt_and_store_standalone_sapling_key crypto keys entropy key tables)
  run (stores_transparent_keys new) tables = store_encrypted_standalone_transparent_keys new tables

  unfoldable pub run_all : List (Call Mnemonic Entropy Key) → Tables → Tables
  unfolding run
  run_all [] tables = tables
  run_all (call ∷ calls) tables = run_all calls (run call tables)
