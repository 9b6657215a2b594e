-- ===== src/Keystore/Step/Stale.antt =====
-- How long identities stay in the cache while no method is called.

use zallet.Prelude.{
  ℕ, ◌+◌, ◌≤◌, ◌<◌, true, List, [], ◌∷◌, ◌++◌, Option, none, some, Result, ◌≡◌, refl, arith, sym,
  ◌∙◌,
}
use zallet.Keystore.{
  SystemTime, Task, sleeping, expired, finished, is_finished, free, unlocking, System,
  unlocked_until, begin_unlock, finish_unlock, begin_lock, finish_lock, clear,
}
use zallet.Keystore.Step
use zallet.Keystore.Step.Deadline.{finish_unlock_fits, finish_unlock_overflows}

abbrev pub AllFinished : List Task → Type 0
AllFinished [] = Unit {0}
AllFinished (task ∷ tasks) = (is_finished task ≡ true) × AllFinished tasks

AllFinished-middle :
    (before after : List Task) (task : Task)
    → AllFinished (before ++ task ∷ after)
    → (is_finished task ≡ true) × AllFinished (before ++ finished ∷ after)
AllFinished-middle [] after task (h, rest) = (h, (refl, rest))
AllFinished-middle (t ∷ before) after task (h, rest) =
    let (f, more) = AllFinished-middle before after task rest in (f, (h, more))

-- No task, or one that sleeps until a later time.
abbrev pub IsQuiet : Option (SystemTime × Task) → SystemTime → Type 0
IsQuiet none now = Unit {0}
IsQuiet (some (d, task)) now = (task ≡ sleeping d) × (now < d)

IsQuiet-asleep :
    (r : Option (SystemTime × Task)) (now deadline until : SystemTime)
    → IsQuiet r now
    → r ≡ some (deadline, sleeping until)
    → until ≤ now
    → ⊥
IsQuiet-asleep none now deadline until q e due = cc e
IsQuiet-asleep (some (d, task)) now deadline until (asleep, later) e due =
    let same : until ≡ d = cc (asleep, e) in absurd (omega (arith, same, due, later))

IsQuiet-expired :
    (r : Option (SystemTime × Task)) (now deadline : SystemTime)
    → IsQuiet r now
    → r ≡ some (deadline, expired)
    → ⊥
IsQuiet-expired none now deadline q e = cc e
IsQuiet-expired (some (d, task)) now deadline (asleep, later) e = cc (asleep, e)

IsQuiet-before :
    (r : Option (SystemTime × Task)) (before after : SystemTime)
    → before ≤ after
    → IsQuiet r after
    → IsQuiet r before
IsQuiet-before none before after p q = tt
IsQuiet-before (some (d, task)) before after p (asleep, later) = (asleep, omega (arith, p, later))

module _ {Identity Passphrase File Error : Type 0} (decrypt : Passphrase → Result Error File)
    (into_identities : File → Result Error (List Identity)) (max_time : SystemTime) where
  -- No method holds the tasks; the identities are cached, with this relock task; no dropped task is alive.
  pub record Kept (identities : List Identity) (task : Option (SystemTime × Task))
      (s : System Identity) : Type 0 where
    pub idle : s.holder ≡ free
    pub cached : s.store.identities ≡ identities
    pub same_task : s.store.relock_task ≡ task
    pub ended : AllFinished s.dropped

  -- The steps that are not the start of a method.
  abbrev pub IsUnattended :
      {s t : System Identity} → Step.Step decrypt into_identities max_time s t → Type 0
  IsUnattended (Step.Step.starts_unlock s passphrase decrypted timeout h e) = ⊥
  IsUnattended (Step.Step.starts_lock s h e) = ⊥
  IsUnattended _ = Unit {0}

  pub data Unattended (r : System Identity) : System Identity → Type 0 where
    here : Unattended r r
    next :
        {s t : System Identity}
        → Unattended r s
        → (step : Step.Step decrypt into_identities max_time s t) → IsUnattended step
        → Unattended r t

  Step-Kept :
      {s t : System Identity} (ids : List Identity) (r : Option (SystemTime × Task))
      (step : Step.Step decrypt into_identities max_time s t)
      → IsUnattended step
      → IsQuiet r s.now
      → Kept ids r s
      → Kept ids r t
  unfolding clear
  Step-Kept ids r (Step.Step.tick s) u n k = record {
    idle = k.idle;
    cached = k.cached;
    same_task = k.same_task;
    ended = k.ended;
  }
  Step-Kept ids r (Step.Step.starts_unlock s passphrase decrypted timeout h e) u n k = absurd u
  Step-Kept ids r (Step.Step.awaited_ends s decrypted timeout h) u n k = cc (h, k.idle)
  Step-Kept ids r (Step.Step.ends_unlock s decrypted timeout h) u n k = cc (h, k.idle)
  Step-Kept ids r (Step.Step.starts_lock s h e) u n k = absurd u
  Step-Kept ids r (Step.Step.ends_lock s h) u n k = cc (h, k.idle)
  Step-Kept ids r (Step.Step.expires s deadline until h due) u n k =
      absurd (IsQuiet-asleep r s.now deadline until n (sym k.same_task ∙ h) due)
  Step-Kept ids r (Step.Step.relocks s deadline h) u n k =
      absurd (IsQuiet-expired r s.now deadline n (sym k.same_task ∙ h))
  Step-Kept ids r (Step.Step.awaited_cancelled s decrypted timeout task h) u n k = cc (h, k.idle)
  Step-Kept ids r (Step.Step.awaited_clears s decrypted timeout h) u n k = cc (h, k.idle)
  Step-Kept ids r (Step.Step.dropped_cancelled s before after task h) u n k = record {
    idle = k.idle;
    cached = k.cached;
    same_task = k.same_task;
    ended = (AllFinished-middle before after task (rw h at k.ended)).1;
  }
  Step-Kept ids r (Step.Step.dropped_clears s before after h) u n k =
      cc (AllFinished-middle before after expired (rw h at k.ended)).0

  finish_unlock-now :
      (s : System Identity) (decrypted : List Identity) (timeout : ℕ)
      → (finish_unlock max_time decrypted timeout s).now ≡ s.now
  unfolding finish_unlock
  finish_unlock-now s decrypted timeout = ground arith

  Step-now :
      {s t : System Identity} → Step.Step decrypt into_identities max_time s t → s.now ≤ t.now
  unfolding begin_unlock begin_lock finish_lock clear
  Step-now (Step.Step.tick s) = omega arith
  Step-now (Step.Step.starts_unlock s passphrase decrypted timeout h e) = omega arith
  Step-now (Step.Step.awaited_ends s decrypted timeout h) = omega arith
  Step-now (Step.Step.ends_unlock s decrypted timeout h) =
      omega (arith, finish_unlock-now s decrypted timeout)
  Step-now (Step.Step.starts_lock s h e) = omega arith
  Step-now (Step.Step.ends_lock s h) = omega arith
  Step-now (Step.Step.expires s deadline until h due) = omega arith
  Step-now (Step.Step.relocks s deadline h) = omega arith
  Step-now (Step.Step.awaited_cancelled s decrypted timeout task h) = omega arith
  Step-now (Step.Step.awaited_clears s decrypted timeout h) = omega arith
  Step-now (Step.Step.dropped_cancelled s before after task h) = omega arith
  Step-now (Step.Step.dropped_clears s before after h) = omega arith

  Unattended-Kept :
      {r s : System Identity} (ids : List Identity) (task : Option (SystemTime × Task))
      → Kept ids task r
      → Unattended r s
      → IsQuiet task s.now
      → Kept ids task s
  Unattended-Kept ids task k Unattended.here n = k
  Unattended-Kept ids task k (Unattended.next {s = u} {t = t} run step quiet) n =
      let before = IsQuiet-before task u.now t.now (Step-now step) n in
      Step-Kept ids task step quiet before (Unattended-Kept ids task k run before)

  -- Behind the end of `unlock`, if no task that `lock` aborted is still alive and the deadline can be represented,
  -- the decrypted identities stay in the cache until the timeout is over, as long as no method is called.
  pub finish_unlock-keeps :
      (s t : System Identity) (decrypted : List Identity) (timeout : ℕ)
      → s.holder ≡ unlocking decrypted timeout none
      → AllFinished s.dropped
      → s.now + timeout ≤ max_time
      → Unattended (finish_unlock max_time decrypted timeout s) t
      → t.now < s.now + timeout
      → t.store.identities ≡ decrypted
  finish_unlock-keeps s t decrypted timeout h f fits run n =
      let kept : Kept decrypted (some (s.now + timeout, sleeping (s.now + timeout)))
          (finish_unlock max_time decrypted timeout s) =
        rw (finish_unlock_fits max_time s decrypted timeout fits)
          (record { idle = refl; cached = refl; same_task = refl; ended = f }) in
      (Unattended-Kept decrypted (some (s.now + timeout, sleeping (s.now + timeout))) kept run
        (refl, n)).cached

  -- Where `unlock` panics because the deadline is beyond the last time that can be represented, with no relock task
  -- left and no aborted task alive: the decrypted identities stay in the cache for as long as no method is
  -- called, without end, and the store does not report that it is unlocked.
  pub finish_unlock-overflows :
      (s t : System Identity) (decrypted : List Identity) (timeout : ℕ)
      → s.holder ≡ unlocking decrypted timeout none
      → s.store.relock_task ≡ none
      → AllFinished s.dropped
      → max_time < s.now + timeout
      → Unattended (finish_unlock max_time decrypted timeout s) t
      → (t.store.identities ≡ decrypted) × (unlocked_until t.store ≡ none)
  unfolding unlocked_until
  finish_unlock-overflows s t decrypted timeout h e f over run =
      let kept : Kept decrypted none (finish_unlock max_time decrypted timeout s) =
        rw (finish_unlock_overflows max_time s decrypted timeout over)
          (record { idle = refl; cached = refl; same_task = e; ended = f }) in
      let later = Unattended-Kept decrypted none kept run tt in
      (later.cached, ground (arith, later.same_task))
