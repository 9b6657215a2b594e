-- ===== src/Keystore/Step/Race.antt =====
-- The race between `unlock` and a relock task that `lock` aborted and did not wait for.
use mathlib.Core.Path.{subst}
use zallet.Prelude.{ℕ, ◌+◌, ◌≤◌, ◌<◌, true, List, [], some, Result, ◌≡◌, refl, arith, ◌∙◌}
use zallet.Keystore.{
  SystemTime, expired, KeyStore, free, System, is_locked, unlocked_until, uses_encrypted_identities,
  decrypted_identities, begin_unlock, begin_lock, finish_lock, clear,
}
use zallet.Keystore.Step
use zallet.Keystore.Step.Deadline.{finish_unlock_fits}

module _ {Identity Passphrase File Error : Type 0} (decrypt : Passphrase → Result Error File)
    (into_identities : File → Result Error (List Identity)) (max_time : SystemTime) where
  -- Locked, and reporting a time in the future until which it is unlocked, with no method running.
  abbrev pub Misreports : System Identity → SystemTime → Type 0
  Misreports t d =
      (t.holder ≡ free)
      × (is_locked t.store ≡ true)
      × (unlocked_until t.store ≡ some d)
      × (t.now < d)

  decrypted-encrypted :
      (k : KeyStore Identity) (passphrase : Passphrase) (decrypted : List Identity)
      → decrypted_identities decrypt into_identities k passphrase ≡ some decrypted
      → uses_encrypted_identities k ≡ true
  unfolding decrypted_identities
  decrypted-encrypted k passphrase decrypted e = ground (arith, e)

  -- Only `encrypted` counts for what `unlock` decrypts.
  decrypted-locked :
      (s : System Identity) (passphrase : Passphrase)
      → decrypted_identities decrypt into_identities (finish_lock (begin_lock s)).store passphrase
        ≡ decrypted_identities decrypt into_identities s.store passphrase
  unfolding decrypted_identities uses_encrypted_identities finish_lock begin_lock clear
  decrypted-locked s passphrase = refl

  -- In every state where no method holds the tasks and the sleep of the relock task is over: if a call of
  -- `lock` runs next, and behind it a call of `unlock` with a passphrase that decrypts the identities and a
  -- timeout above 0 that does not go beyond the last time, then the task can clear the identities behind
  -- the end of `unlock`. The store is then locked, and reports that it is unlocked until the end of
  -- the timeout.
  pub lock_then_unlock-Misreports :
      (s : System Identity) (passphrase : Passphrase) (decrypted : List Identity) (timeout : ℕ)
      (deadline : SystemTime)
      → s.holder ≡ free
      → s.store.relock_task ≡ some (deadline, expired)
      → decrypted_identities decrypt into_identities s.store passphrase ≡ some decrypted
      → 0 < timeout
      → s.now + timeout ≤ max_time
      → (t : System Identity) × Step.Reach decrypt into_identities max_time s t
        × Misreports t (s.now + timeout)
  unfolding is_locked unlocked_until clear begin_lock finish_lock begin_unlock
  lock_then_unlock-Misreports s passphrase decrypted timeout deadline h e d p fits =
      let locked : Step.Reach decrypt into_identities max_time s (finish_lock (begin_lock s)) =
        Step.Reach.next
          (Step.Reach.next Step.Reach.here
            (Step.Step.starts_lock s h (decrypted-encrypted s.store passphrase decrypted d)))
          (Step.Step.ends_lock _ refl) in
      let started = Step.Reach.next locked (
        Step.Step.starts_unlock _ passphrase decrypted timeout refl
          (decrypted-locked s passphrase ∙ d)) in
      let unlocking = begin_unlock decrypted timeout (finish_lock (begin_lock s)) in
      let ended =
        subst (λ (t : System Identity). Step.Reach decrypt into_identities max_time s t)
          (finish_unlock_fits max_time unlocking decrypted timeout fits)
          (Step.Reach.next started (Step.Step.ends_unlock unlocking decrypted timeout refl)) in
      let cleared = Step.Reach.next ended (Step.Step.dropped_clears _ [] s.dropped (rw e refl)) in
      (_, cleared, (refl, refl, refl, omega (arith, p)))
