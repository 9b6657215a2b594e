-- ===== src/Keystore/Tests.antt =====
-- The key store at concrete inputs.
use zallet.Prelude.{
  none, bytes_eq, Bytes, ℕ, suc, ◌+◌, Bool, true, false, List, [], ◌∷◌, some, Result, ok, err,
  if◌then◌else◌, contains, ◌==◌, str_eq, ◌≡◌, refl, arith,
}
use zallet.Keystore.{
  sleeping, free, expired, System, new, is_locked, unlocked_until, uses_encrypted_identities,
  decrypted_identities, begin_unlock, finish_unlock,
}
use zallet.Keystore.Step
use zallet.Keystore.Step.Relock.{unlocked_until-relocks, RelocksAt}
use zallet.Keystore.Step.Stale.{Unattended, finish_unlock-keeps, finish_unlock-overflows}
use zallet.Keystore.Step.Race.{lock_then_unlock-Misreports, Misreports}
use zallet.Keystore.Store.{
  Crypto, Tables, empty, insert_row, initialize_recipients, maybe_encryptor, encryptor,
  encrypt_string, encrypt_and_store_mnemonic, list_seed_fingerprints, decrypt_seed,
}
use zallet.Keystore.Store.Calls.{Call, initializes, run, run_all}
use zallet.Keystore.Store.Sapling.{SaplingKeys}
use zallet.Keystore.Store.Seeds.{encrypt_and_store_mnemonic-decrypt_seed}

-- The passphrase 7 decrypts the identity 5.
abbrev decrypt_file : ℕ → Result ℕ ℕ
decrypt_file passphrase = if passphrase == 7 then ok 5 else err 0

abbrev identities_of : ℕ → Result ℕ (List ℕ)
identities_of file = ok (file ∷ [])

abbrev unlock_started : System ℕ
unlock_started = begin_unlock (5 ∷ []) 10 (Step.initial true [])

abbrev unlocked : System ℕ
unlocked = record unlock_started {
  store = record unlock_started.store { identities = 5 ∷ []; relock_task = some (10, sleeping 10) };
  holder = free;
}

-- The last time is 1000.
unlocked_until-relocks_example :
    (d : ℕ) × (unlocked_until unlocked.store ≡ some d)
    × RelocksAt decrypt_file identities_of 1000 unlocked d
unfolding is_locked begin_unlock finish_unlock new decrypted_identities uses_encrypted_identities
unlocked_until-relocks_example =
    unlocked_until-relocks decrypt_file identities_of 1000
      (Step.Reach.next
        (Step.Reach.next Step.Reach.here
          (Step.Step.starts_unlock (Step.initial true []) 7 (5 ∷ []) 10 refl refl))
        (Step.Step.ends_unlock unlock_started (5 ∷ []) 10 refl))
      ((tt, tt), omega arith) refl refl

abbrev a_second_later : System ℕ → System ℕ
a_second_later s = record s { now = suc s.now }

finish_unlock-keeps_example :
    (a_second_later (finish_unlock 1000 (5 ∷ []) 10 unlock_started)).store.identities ≡ 5 ∷ []
unfolding begin_unlock finish_unlock new
finish_unlock-keeps_example =
    finish_unlock-keeps decrypt_file identities_of 1000 unlock_started
      (a_second_later (finish_unlock 1000 (5 ∷ []) 10 unlock_started)) (5 ∷ []) 10 refl tt
      (omega arith) (Unattended.next Unattended.here (Step.Step.tick _) tt) (omega arith)

-- With a timeout of 2000.
abbrev unlock_started_long : System ℕ
unlock_started_long = begin_unlock (5 ∷ []) 2000 (Step.initial true [])

finish_unlock-overflows_example :
    ((a_second_later (finish_unlock 1000 (5 ∷ []) 2000 unlock_started_long)).store.identities
      ≡ 5 ∷ [])
    × (unlocked_until (a_second_later (finish_unlock 1000 (5 ∷ []) 2000 unlock_started_long)).store
        ≡ none)
unfolding begin_unlock new
finish_unlock-overflows_example =
    finish_unlock-overflows decrypt_file identities_of 1000 unlock_started_long
      (a_second_later (finish_unlock 1000 (5 ∷ []) 2000 unlock_started_long)) (5 ∷ []) 2000 refl
      refl tt (omega arith) (Unattended.next Unattended.here (Step.Step.tick _) tt)

-- The sleep is over.
abbrev woken : System ℕ
woken = Step.set_task (record unlocked { now = 10 }) 10 expired

lock_then_unlock-Misreports_example :
    (t : System ℕ) × Step.Reach decrypt_file identities_of 1000 woken t
    × Misreports decrypt_file identities_of 1000 t (10 + 3)
unfolding begin_unlock new decrypted_identities uses_encrypted_identities
lock_then_unlock-Misreports_example =
    lock_then_unlock-Misreports decrypt_file identities_of 1000 woken 7 (5 ∷ []) 3 10 refl refl refl
      (omega arith) (omega arith)

-- An encryption that puts the randomness before the bytes, and two mnemonics.
abbrev toy : Crypto ℕ ℕ Bool ℕ ℕ
toy = record {
  read_recipients = λ strings. ok (1 ∷ []);
  encrypt = λ entropy recipients format bytes. ok (entropy ∷ bytes);
  decrypt = λ identities ciphertext. elim ciphertext [ [] ↦ err 0 | e ∷ bytes ↦ ok bytes ];
  as_bytes = λ s. if str_eq s "abandon" then [] else 0 ∷ [];
  from_utf8 = λ bytes. elim bytes [ [] ↦ ok "abandon" | _ ∷ _ ↦ ok "zoo" ];
  into_phrase = λ m. if m then "abandon" else "zoo";
  from_phrase =
      λ s. if str_eq s "abandon" then ok true else if str_eq s "zoo" then ok false else err 0;
  to_seed = λ m. if m then 8 ∷ [] else 9 ∷ [];
  from_seed = λ seed. some seed;
}

abbrev toy_keys : SaplingKeys Unit Unit Unit
toy_keys = record {
  to_bytes = λ k. [];
  from_bytes = λ b. some tt;
  to_dfvk = λ k. tt;
  dfvk_to_bytes = λ d. [];
  dfvk_from_bytes = λ b. some tt;
  decrypt_diversifier = λ d a. true;
}

abbrev calls : List (Call Bool ℕ (Unit {0}))
calls = initializes ("age1" ∷ []) ∷ []

abbrev stored : Tables
stored = record empty { age_recipients = "age1" ∷ []; mnemonics = (8 ∷ [], 3 ∷ []) ∷ [] }

encrypt_and_store_mnemonic-decrypt_seed_example :
    (contains (list_seed_fingerprints stored) (8 ∷ []) ≡ true)
    × ((seed : Bytes) × (some seed ≡ some (8 ∷ []))
        × ((more : List (Call Bool ℕ (Unit {0})))
            → decrypt_seed toy (4 ∷ []) (8 ∷ []) (run_all toy toy_keys more stored) ≡ ok seed))
unfolding encrypt_and_store_mnemonic encryptor maybe_encryptor encrypt_string insert_row run_all run
    initialize_recipients
encrypt_and_store_mnemonic-decrypt_seed_example =
    encrypt_and_store_mnemonic-decrypt_seed toy toy_keys (4 ∷ []) calls 3 true (8 ∷ []) stored refl
      (λ recipients entropy plaintext ciphertext p e.
        decrypts recipients entropy plaintext ciphertext e)
      utf8 phrases refl
  where
    decrypts :
        (recipients : List ℕ) (entropy : ℕ) (plaintext ciphertext : Bytes)
        → ◌≡◌ {A = Result ℕ Bytes} (ok (entropy ∷ plaintext)) (ok ciphertext)
        → toy.decrypt (4 ∷ []) ciphertext ≡ ok plaintext
    decrypts recipients entropy plaintext [] e = cc
    decrypts recipients entropy plaintext (c ∷ cs) e = cc

    utf8 : (m : Bool) → toy.from_utf8 (toy.as_bytes (toy.into_phrase m)) ≡ ok (toy.into_phrase m)
    utf8 true = refl
    utf8 false = refl

    phrases : (m : Bool) → toy.from_phrase (toy.into_phrase m) ≡ ok m
    phrases true = refl
    phrases false = refl
