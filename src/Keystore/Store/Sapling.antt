-- ===== src/Keystore/Store/Sapling.antt =====
-- The standalone Sapling keys of the key store (zallet/src/components/keystore.rs). The key types are the `sapling`
-- crate's.
use zallet.Prelude.{
  Bytes, Bool, false, List, [], ◌∷◌, length, ◌==◌, Option, none, some, Result, ok, err, ok_or,
  ◌>>=◌, map_err, if◌then◌else◌,
}
use zallet.Keystore.Store.{
  Crypto, StoreError, wallet_locked, invalid_extended_spending_key, generic, Tables, Rows,
  encryptor, encrypt_secret, insert_row, is_empty,
}

-- `ExtendedSpendingKey` and `DiversifiableFullViewingKey`; `decrypt_diversifier` is whether it returns some
-- diversifier, and `dfvk_from_bytes` takes 128 bytes.
pub record SaplingKeys (Key Dfvk Address : Type 0) : Type 0 where
  pub to_bytes : Key → Bytes
  pub from_bytes : Bytes → Option Key
  pub to_dfvk : Key → Dfvk
  pub dfvk_to_bytes : Dfvk → Bytes
  pub dfvk_from_bytes : Bytes → Option Dfvk
  pub decrypt_diversifier : Dfvk → Address → Bool

module _ {Identity Recipient Mnemonic Entropy E Key Dfvk Address : Type 0}
    (crypto : Crypto Identity Recipient Mnemonic Entropy E)
    (keys : SaplingKeys Key Dfvk Address) where
  unfoldable pub encrypt_and_store_standalone_sapling_key :
      Entropy → Key → Tables → Result (StoreError E) (Dfvk × Tables)
  unfolding encryptor encrypt_secret insert_row
  encrypt_and_store_standalone_sapling_key entropy sapling_key tables = do
    recipients ← encryptor crypto tables
    encrypted_sapling_extsk ← encrypt_secret crypto entropy recipients (keys.to_bytes sapling_key)
    ok (
      keys.to_dfvk sapling_key,
      record tables {
        sapling_keys =
            insert_row (keys.dfvk_to_bytes (keys.to_dfvk sapling_key)) encrypted_sapling_extsk
              tables.sapling_keys;
      },
    )

  unfoldable pub decrypt_standalone_sapling_extsk :
      List Identity → Bytes → Result (StoreError E) Key
  decrypt_standalone_sapling_extsk identities ciphertext =
      map_err generic (crypto.decrypt identities ciphertext) >>= λ bytes.
      ok_or (keys.from_bytes bytes) invalid_extended_spending_key

  -- Whether a row's key decrypts the diversifier of the address; a row that holds no key is passed over.
  unfoldable pub is_of : Address → Bytes → Bool
  is_of address dfvk_bytes =
      if length dfvk_bytes == 128
      then elim (keys.dfvk_from_bytes dfvk_bytes) [
        | none ↦ false
        | some dfvk ↦ keys.decrypt_diversifier dfvk address
      ]
      else false

  unfoldable pub decrypt_first : List Identity → Address → Rows → Result (StoreError E) (Option Key)
  unfolding is_of decrypt_standalone_sapling_extsk
  decrypt_first identities address [] = ok none
  decrypt_first identities address ((dfvk_bytes, encrypted_extsk) ∷ rows) =
      let rest = decrypt_first identities address rows in
      if is_of address dfvk_bytes
      then (decrypt_standalone_sapling_extsk identities encrypted_extsk >>= λ extsk.
          ok (some extsk))
      else rest

  unfoldable pub decrypt_standalone_sapling_key :
      List Identity → Address → Tables → Result (StoreError E) (Option Key)
  unfolding decrypt_first
  decrypt_standalone_sapling_key identities address tables =
      if is_empty identities
      then err wallet_locked
      else decrypt_first identities address tables.sapling_keys
