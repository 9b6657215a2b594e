-- ===== src/Keystore/Step/Deadline.antt =====
-- The end of `unlock`, with a deadline that can be represented and with one that cannot.
use zallet.Prelude.{ℕ, ◌+◌, ◌≤◌, ◌<◌, leb, false, List, some, ◌≡◌, refl, arith, le→leb}
use zallet.Keystore.{SystemTime, sleeping, free, System, finish_unlock}

module _ {Identity : Type 0} (max_time : SystemTime) where
  pub finish_unlock_fits :
      (s : System Identity) (decrypted : List Identity) (timeout : ℕ)
      → s.now + timeout ≤ max_time
      → finish_unlock max_time decrypted timeout s ≡ record s {
        store = record s.store {
          identities = decrypted;
          relock_task = some (s.now + timeout, sleeping (s.now + timeout));
        };
        holder = free;
      }
  unfolding finish_unlock
  finish_unlock_fits s decrypted timeout fits =
      rw (le→leb (s.now + timeout) max_time fits, finish_unlock) refl

  pub finish_unlock_overflows :
      (s : System Identity) (decrypted : List Identity) (timeout : ℕ)
      → max_time < s.now + timeout
      → finish_unlock max_time decrypted timeout s
        ≡ record s { store = record s.store { identities = decrypted }; holder = free }
  unfolding finish_unlock
  finish_unlock_overflows s decrypted timeout over =
      let beyond : leb (s.now + timeout) max_time ≡ false = ground (arith, over) in
      rw (beyond, finish_unlock) refl
