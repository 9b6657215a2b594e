-- ===== src/Keystore/Step/Relock.antt =====
-- What holds of the key store in every state it reaches.

use zallet.Prelude.{
  ℕ, zero, suc, ◌+◌, ◌≤◌, true, false, List, [], ◌∷◌, Option, none, some, Result, ◌≡◌, refl, arith,
  ◌∙◌, ap,
}
use zallet.Keystore.{
  SystemTime, Task, sleeping, expired, finished, KeyStore, Holder, free, locking, unlocking, System,
  new, is_locked, unlocked_until, begin_unlock, begin_lock, finish_lock, clear,
}
use zallet.Keystore.Step
use zallet.Keystore.Step.Deadline.{finish_unlock_fits}

-- A relock task that is still to lock the store.
abbrev pub Pending : Option (SystemTime × Task) → Type 0
Pending none = ⊥
Pending (some (deadline, finished)) = ⊥
Pending (some (deadline, _)) = Unit {0}

-- A sleeping task sleeps until its deadline.
abbrev pub OnTime : Option (SystemTime × Task) → Type 0
OnTime (some (deadline, sleeping until)) = until ≡ deadline
OnTime _ = Unit {0}

module _ {Identity Passphrase File Error : Type 0} (decrypt : Passphrase → Result Error File)
    (into_identities : File → Result Error (List Identity)) (max_time : SystemTime) where
  abbrev pub Coherent : Holder Identity → List Identity → Option (SystemTime × Task) → Type 0
  Coherent free [] r = Unit {0}
  Coherent free (_ ∷ _) r = Pending r
  Coherent _ ids r = r ≡ none

  pub record Inv (s : System Identity) : Type 0 where
    pub on_time : OnTime s.store.relock_task
    pub coherent : Coherent s.holder s.store.identities s.store.relock_task

  cleared :
      (h : Holder Identity) (ids : List Identity) (r : Option (SystemTime × Task))
      → Coherent h ids r
      → Coherent h [] r
  cleared free ids r c = tt
  cleared locking ids r c = c
  cleared (unlocking ds n w) ids r c = c

  -- A held mutex, and an expired or a sleeping task: there is none.
  only_free :
      (h : Holder Identity) (ids : List Identity) (d : SystemTime) (t u : Task)
      → Pending (some (d, u))
      → Coherent h ids (some (d, t))
      → Coherent h ids (some (d, u))
  only_free free [] d t u p c = tt
  only_free free (i ∷ ids) d t u p c = p
  only_free locking ids d t u p c = cc
  only_free (unlocking ds n w) ids d t u p c = cc

  only_free-cleared :
      (h : Holder Identity) (ids : List Identity) (d : SystemTime) (t u : Task)
      → Coherent h ids (some (d, t))
      → Coherent h [] (some (d, u))
  only_free-cleared free ids d t u c = tt
  only_free-cleared locking ids d t u c = cc
  only_free-cleared (unlocking ds n w) ids d t u c = cc

  started : (ids : List Identity) (d : SystemTime) → Coherent free ids (some (d, sleeping d))
  started [] d = tt
  started (i ∷ ids) d = tt

  Step-Inv :
      {s t : System Identity} (step : Step.Step decrypt into_identities max_time s t)
      → Step.Fits decrypt into_identities max_time step
      → Inv s
      → Inv t
  unfolding begin_unlock begin_lock finish_lock clear
  Step-Inv (Step.Step.tick s) fits i = record { on_time = i.on_time; coherent = i.coherent }
  Step-Inv (Step.Step.starts_unlock s passphrase decrypted timeout h e) fits i = record {
    on_time = tt;
    coherent = refl;
  }
  Step-Inv (Step.Step.awaited_ends s decrypted timeout h) fits i = record {
    on_time = i.on_time;
    coherent = rw h at i.coherent;
  }
  Step-Inv (Step.Step.ends_unlock s decrypted timeout h) fits i =
      rw (finish_unlock_fits max_time s decrypted timeout fits)
        (record { on_time = refl; coherent = started decrypted (s.now + timeout) })
  Step-Inv (Step.Step.starts_lock s h e) fits i = record { on_time = tt; coherent = refl }
  Step-Inv (Step.Step.ends_lock s h) fits i = record { on_time = i.on_time; coherent = tt }
  Step-Inv (Step.Step.expires s deadline until h due) fits i = record {
    on_time = tt;
    coherent =
        only_free s.holder s.store.identities deadline (sleeping until) expired tt
          (rw h at i.coherent);
  }
  Step-Inv (Step.Step.relocks s deadline h) fits i = record {
    on_time = tt;
    coherent =
        only_free-cleared s.holder s.store.identities deadline expired finished
          (rw h at i.coherent);
  }
  Step-Inv (Step.Step.awaited_cancelled s decrypted timeout task h) fits i = record {
    on_time = i.on_time;
    coherent = rw h at i.coherent;
  }
  Step-Inv (Step.Step.awaited_clears s decrypted timeout h) fits i = record {
    on_time = i.on_time;
    coherent = rw h at i.coherent;
  }
  Step-Inv (Step.Step.dropped_cancelled s before after task h) fits i = record {
    on_time = i.on_time;
    coherent = i.coherent;
  }
  Step-Inv (Step.Step.dropped_clears s before after h) fits i = record {
    on_time = i.on_time;
    coherent = cleared s.holder s.store.identities s.store.relock_task i.coherent;
  }

  pub Reach-Inv :
      {s : System Identity}
      (reached : Step.Reach decrypt into_identities max_time (Step.initial true []) s)
      → Step.AllFit decrypt into_identities max_time reached
      → Inv s
  unfolding new
  Reach-Inv Step.Reach.here fits = record { on_time = tt; coherent = tt }
  Reach-Inv (Step.Reach.next reached step) (earlier, fits) =
      Step-Inv step fits (Reach-Inv reached earlier)

  -- Steps of the clock and of the relock task.
  abbrev pub IsOwn :
      {s t : System Identity} → Step.Step decrypt into_identities max_time s t → Type 0
  IsOwn (Step.Step.tick s) = Unit {0}
  IsOwn (Step.Step.expires s deadline until h due) = Unit {0}
  IsOwn (Step.Step.relocks s deadline h) = Unit {0}
  IsOwn _ = ⊥

  -- A run in which nothing but the clock and the relock task takes a step.
  pub data Alone (r : System Identity) : System Identity → Type 0 where
    here : Alone r r
    next :
        {s t : System Identity}
        → Alone r s
        → (step : Step.Step decrypt into_identities max_time s t) → IsOwn step
        → Alone r t

  wait :
      (n : ℕ) (s : System Identity)
      → (t : System Identity) × Alone s t × (t.store ≡ s.store) × (t.now ≡ n + s.now)
  wait zero s = (s, Alone.here, refl, omega arith)
  wait (suc n) s =
      let (t, run, same, later) = wait n s in
      (
        record t { now = suc t.now },
        Alone.next run (Step.Step.tick t) tt,
        same,
        omega (arith, later),
      )

  unlocked_task :
      (s : KeyStore Identity)
      → Coherent free s.identities s.relock_task
      → is_locked s ≡ false
      → (d : SystemTime) × (t : Task) × (s.relock_task ≡ some (d, t)) × Pending (some (d, t))
  unfolding is_locked
  unlocked_task s c h = go s.identities s.relock_task c h
    where
      go :
          (ids : List Identity) (r : Option (SystemTime × Task))
          → Coherent free ids r
          → is_locked (record s { identities = ids }) ≡ false
          → (d : SystemTime) × (t : Task) × (r ≡ some (d, t)) × Pending (some (d, t))
      go [] r c h = cc
      go (i ∷ ids) none c h = absurd c
      go (i ∷ ids) (some (d, t)) c h = (d, t, refl, c)

  -- A run of the clock and the relock task to a locked store, not before the deadline.
  abbrev pub RelocksAt : System Identity → SystemTime → Type 0
  RelocksAt s d = (t : System Identity) × Alone s t × (is_locked t.store ≡ true) × (d ≤ t.now)

  relocks_late :
      (s : System Identity) (d : SystemTime) (task : Task)
      → s.store.relock_task ≡ some (d, task)
      → Pending (some (d, task))
      → OnTime (some (d, task))
      → RelocksAt s d
  unfolding is_locked clear
  relocks_late s d finished e p o = absurd p
  relocks_late s d expired e p o =
      let (t, run, same, later) = wait d s in
      (
        _,
        Alone.next run
            (Step.Step.relocks t d (ap (λ (k : KeyStore Identity). k.relock_task) same ∙ e)) tt,
        refl,
        omega (arith, later),
      )
  relocks_late s d (sleeping until) e p o =
      let (t, run, same, later) = wait d s in
      let woken =
        Step.Step.expires t d until (ap (λ (k : KeyStore Identity). k.relock_task) same ∙ e)
          (omega (arith, later, o)) in
      (
        _,
        Alone.next (Alone.next run woken tt) (Step.Step.relocks _ d refl) tt,
        refl,
        omega (arith, later),
      )

  -- In every state that a key store with encrypted identities reaches, while no method holds its tasks, if no
  -- deadline was beyond the last time that can be represented: if it is unlocked, then it reports the time until which it is, and the clock and the relock task
  -- alone lead to a locked store, at that time or after.
  pub unlocked_until-relocks :
      {s : System Identity}
      (reached : Step.Reach decrypt into_identities max_time (Step.initial true []) s)
      → Step.AllFit decrypt into_identities max_time reached
      → s.holder ≡ free
      → is_locked s.store ≡ false
      → (d : SystemTime) × (unlocked_until s.store ≡ some d) × RelocksAt s d
  unfolding unlocked_until
  unlocked_until-relocks {s} reached fits h open_ =
      let i = Reach-Inv reached fits in
      let (d, task, e, p) = unlocked_task s.store (rw h at i.coherent) open_ in
      (d, reported s.store d task e p, relocks_late s d task e p (rw e at i.on_time))
    where
      reported :
          (k : KeyStore Identity) (d : SystemTime) (task : Task)
          → k.relock_task ≡ some (d, task)
          → Pending (some (d, task))
          → unlocked_until k ≡ some d
      reported k d finished e p = absurd p
      reported k d expired e p = ground (arith, e)
      reported k d (sleeping u) e p = ground (arith, e)
