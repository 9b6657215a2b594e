-- ===== src/Keystore/Step.antt =====
-- The steps of the key store: its methods between the points where they wait, its tasks, and the clock.
pub mod Deadline
pub mod Race
pub mod Relock
pub mod Stale
use zallet.Prelude.{
  ℕ, suc, ◌+◌, ◌≤◌, Bool, true, false, List, [], ◌∷◌, ◌++◌, Option, none, some, Result, ◌≡◌,
}
use zallet.Keystore.{
  SystemTime, Task, sleeping, expired, finished, is_finished, KeyStore, Holder, free, locking,
  unlocking, System, new, uses_encrypted_identities, decrypted_identities, begin_unlock,
  finish_unlock, begin_lock, finish_lock, clear,
}

module _ {Identity : Type 0} where
  abbrev pub set_task : System Identity → SystemTime → Task → System Identity
  set_task s deadline task = record s {
    store = record s.store { relock_task = some (deadline, task) };
  }

  abbrev pub initial : Bool → List Identity → System Identity
  initial encrypted identities = record {
    store = new encrypted identities;
    now = 0;
    holder = free;
    dropped = [];
  }

module _ {Identity Passphrase File Error : Type 0} (decrypt : Passphrase → Result Error File)
    (into_identities : File → Result Error (List Identity)) (max_time : SystemTime) where
  pub data Step : System Identity → System Identity → Type 0 where
    tick : (s : System Identity) → Step s (record s { now = suc s.now })
    starts_unlock :
        (s : System Identity) (passphrase : Passphrase) (decrypted : List Identity) (timeout : ℕ)
        → s.holder ≡ free
        → decrypted_identities decrypt into_identities s.store passphrase ≡ some decrypted
        → Step s (begin_unlock decrypted timeout s)
    awaited_ends :
        (s : System Identity) (decrypted : List Identity) (timeout : ℕ)
        → s.holder ≡ unlocking decrypted timeout (some finished)
        → Step s (record s { holder = unlocking decrypted timeout none })
    ends_unlock :
        (s : System Identity) (decrypted : List Identity) (timeout : ℕ)
        → s.holder ≡ unlocking decrypted timeout none
        → Step s (finish_unlock max_time decrypted timeout s)
    -- `lock` returns at once with plaintext identities.
    starts_lock :
        (s : System Identity)
        → s.holder ≡ free
        → uses_encrypted_identities s.store ≡ true
        → Step s (begin_lock s)
    ends_lock : (s : System Identity) → s.holder ≡ locking → Step s (finish_lock s)
    -- The relock task.
    expires :
        (s : System Identity) (deadline until : SystemTime)
        → s.store.relock_task ≡ some (deadline, sleeping until)
        → until ≤ s.now
        → Step s (set_task s deadline expired)
    relocks :
        (s : System Identity) (deadline : SystemTime)
        → s.store.relock_task ≡ some (deadline, expired)
        → Step s (clear (set_task s deadline finished))
    -- The task that `unlock` aborted and waits for: it is cancelled, or still ends its poll.
    awaited_cancelled :
        (s : System Identity) (decrypted : List Identity) (timeout : ℕ) (task : Task)
        → s.holder ≡ unlocking decrypted timeout (some task)
        → Step s (record s { holder = unlocking decrypted timeout (some finished) })
    awaited_clears :
        (s : System Identity) (decrypted : List Identity) (timeout : ℕ)
        → s.holder ≡ unlocking decrypted timeout (some expired)
        → Step s (clear (record s { holder = unlocking decrypted timeout (some finished) }))
    -- A task that `lock` aborted: likewise.
    dropped_cancelled :
        (s : System Identity) (before after : List Task) (task : Task)
        → s.dropped ≡ before ++ task ∷ after
        → Step s (record s { dropped = before ++ finished ∷ after })
    dropped_clears :
        (s : System Identity) (before after : List Task)
        → s.dropped ≡ before ++ expired ∷ after
        → Step s (clear (record s { dropped = before ++ finished ∷ after }))

  pub data Reach (r : System Identity) : System Identity → Type 0 where
    here : Reach r r
    next : {s t : System Identity} → Reach r s → Step s t → Reach r t

  -- No deadline was beyond the last time.
  abbrev pub Fits : {s t : System Identity} → Step s t → Type 0
  Fits (ends_unlock s decrypted timeout h) = s.now + timeout ≤ max_time
  Fits _ = Unit {0}

  abbrev pub AllFit : {r s : System Identity} → Reach r s → Type 0
  AllFit here = Unit {0}
  AllFit (next reached step) = AllFit reached × Fits step
