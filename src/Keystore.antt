-- ===== src/Keystore.antt =====
-- The key store (zallet/src/components/keystore.rs). Its cache of age identities, with the tasks that lock it
-- again: `System` is the store with the clock, the holder of the `relock_task` mutex, and the aborted tasks
-- whose handles were dropped.
pub mod Step
pub mod Store
mod Tests
use zallet.Prelude.{
  ℕ, ◌+◌, leb, Bool, true, false, List, [], ◌∷◌, Option, none, some, Result, ok, err, if◌then◌else◌,
}

-- In seconds.
abbrev pub SystemTime : Type 0
SystemTime = ℕ

-- A relock task: asleep until its deadline; behind the sleep, in the poll that takes the lock; or done.
pub data Task : Type 0 where
  sleeping : SystemTime → Task
  expired finished : Task

abbrev pub is_finished : Task → Bool
is_finished finished = true
is_finished _ = false

abbrev pub task_of : Option (SystemTime × Task) → Option Task
task_of none = none
task_of (some (deadline, task)) = some task

abbrev pub drop_task : Option (SystemTime × Task) → List Task → List Task
drop_task none tasks = tasks
drop_task (some (deadline, task)) tasks = task ∷ tasks

module _ (Identity : Type 0) where
  pub record KeyStore : Type 0 where
    -- Whether the keystore has a ciphertext of identities.
    pub encrypted : Bool
    pub identities : List Identity
    pub relock_task : Option (SystemTime × Task)

  -- Who holds the mutex of `relock_task`: nobody; `unlock`, with the identities, the timeout and the aborted task
  -- that it waits for; or `lock`.
  pub data Holder : Type 0 where
    free locking : Holder
    unlocking : List Identity → ℕ → Option Task → Holder

  pub record System : Type 0 where
    pub store : KeyStore
    pub now : SystemTime
    pub holder : Holder
    pub dropped : List Task

module _ {Identity : Type 0} where
  -- `new`: plaintext identities are there from the start, encrypted ones are not.
  unfoldable pub new : Bool → List Identity → KeyStore Identity
  new encrypted identities = record {
    encrypted = encrypted;
    identities = if encrypted then [] else identities;
    relock_task = none;
  }

  unfoldable pub uses_encrypted_identities : KeyStore Identity → Bool
  uses_encrypted_identities s = s.encrypted

  unfoldable pub is_locked : KeyStore Identity → Bool
  is_locked s = elim s.identities [ [] ↦ true | _ ∷ _ ↦ false ]

  unfoldable pub unlocked_until : KeyStore Identity → Option SystemTime
  unlocked_until s = elim s.relock_task [
    | none ↦ none
    | some (deadline, task) ↦ if is_finished task then none else some deadline
  ]

  -- The identities that `unlock` decrypts, or `none` where it returns false: `decrypt_identity_file` returns no file
  -- for plaintext identities.
  unfoldable pub decrypted_identities :
      {Passphrase File Error : Type 0}
      → (Passphrase → Result Error File)
      → (File → Result Error (List Identity))
      → KeyStore Identity
      → Passphrase
      → Option (List Identity)
  unfolding uses_encrypted_identities
  decrypted_identities decrypt into_identities s passphrase =
      if uses_encrypted_identities s
      then elim (decrypt passphrase) [
        | err _ ↦ none
        | ok file ↦ elim (into_identities file) [ err _ ↦ none | ok identities ↦ some identities ]
      ]
      else none

  -- What `unlock` does with the identities it decrypted, until it waits for the task it aborts.
  unfoldable pub begin_unlock : List Identity → ℕ → System Identity → System Identity
  begin_unlock decrypted timeout s = record s {
    store = record s.store { relock_task = none };
    holder = unlocking decrypted timeout (task_of s.store.relock_task);
  }

  -- The rest of `unlock`. Where the deadline is beyond the last time that can be represented, its sum panics,
  -- behind the write of the identities.
  unfoldable pub finish_unlock : SystemTime → List Identity → ℕ → System Identity → System Identity
  finish_unlock max_time decrypted timeout s =
      if leb (s.now + timeout) max_time
      then record s {
        store = record s.store {
          identities = decrypted;
          relock_task = some (s.now + timeout, sleeping (s.now + timeout));
        };
        holder = free;
      }
      else record s { store = record s.store { identities = decrypted }; holder = free }

  -- What `lock` does until it waits for the identities; it does not wait for the task it aborts.
  unfoldable pub begin_lock : System Identity → System Identity
  begin_lock s = record s {
    store = record s.store { relock_task = none };
    holder = locking;
    dropped = drop_task s.store.relock_task s.dropped;
  }

  -- `identities.write().await.clear()`.
  unfoldable pub clear : System Identity → System Identity
  clear s = record s { store = record s.store { identities = [] } }

  unfoldable pub finish_lock : System Identity → System Identity
  unfolding clear
  finish_lock s = record (clear s) { holder = free }
