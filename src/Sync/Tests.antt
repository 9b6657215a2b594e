-- ===== src/Sync/Tests.antt =====
-- The theorems on syncing, applied: a wallet whose chain left the best chain above height 5.
use zallet.Prelude.{
  ℕ, ◌+◌, ◌-◌, [], ◌∷◌, Option, none, some, Result, ok, Eq, if◌then◌else◌, leb, ◌==◌, ==_iff, ◌≡◌,
  refl, arith, inr,
}
use zallet.Sync.{BlockHeight, ChainBlock, SyncError}
use zallet.Sync.Locator.{
  locator_block_heights, successors, checked_subs, take_above, known_blocks, from_blocks,
  from_blocks_behind, build_block_locator,
}
use zallet.Sync.Locator.Heights.{IsDecreasing, first, last, locator_block_heights_lem}
use zallet.Sync.Locator.Build.{hashes_at, build_block_locator_lem}
use zallet.Sync.Rewind.{step_back_to_best_chain, locate_fork_point}
use zallet.Sync.Rewind.Probes.{WalksTo, step_back_to_best_chain_lem}
use zallet.Sync.Rewind.Locate.{Located, locate_fork_point_lem}
use zallet.Sync.Steady.{ChainView, Database, SyncState, panicked, steady_state_iteration}
use zallet.Sync.Steady.Connect.{Ends, steady_state_iteration-Ends}
use zallet.Sync.Steady.Fresh.{steady_state_iteration-fresh_panics}
use zallet.Sync.Boundary.{Range}

instance abbrev ℕ_eq : Eq ℕ
ℕ_eq = record { beq = ◌==◌; beq_iff = ==_iff }

-- The block at a height has the height as its hash on the best chain, and another above height 5 in the wallet.
abbrev best : BlockHeight → Option ℕ
best h = if leb h 6 then some h else none

abbrev recorded : BlockHeight → Option ℕ
recorded h = if leb h 5 then some h else if leb h 25 then some (h + 100) else none

abbrev block_at : ℕ → ChainBlock ℕ
block_at h = record { height = h; hash = h }

abbrev view : ChainView ℕ ℕ ℕ
view = record {
  tip = ok (block_at 6);
  find_fork_point = λ locator. elim locator [ [] ↦ ok none | _ ∷ _ ↦ ok (some (block_at 4)) ];
  get_block_header = λ h. ok (best h);
  stream_blocks_to_tip = λ h. ok 5 ∷ ok 6 ∷ [];
  get_mempool_stream = ok (some (1 ∷ []));
  claimed_block = block_at;
}

abbrev database : (BlockHeight → Option ℕ) → Database ℕ ℕ ℕ ℕ
database hash_at = record {
  get_block_hash = λ w h. ok (hash_at h);
  get_wallet_birthday = λ w. ok (some 1);
  update_chain_tip = λ h w. (ok tt, w);
  truncate_to_height = λ h w. (ok tt, w);
  scan_block = λ b w. (ok tt, w + 1);
  decrypt_and_store_transaction = λ t w. (ok tt, w);
}

abbrev minus_100 : ℕ → ℕ
minus_100 h = h - 100

abbrev state : SyncState ℕ ℕ
state = record {
  wallet = 0;
  prev_tip = record { height = 12; hash = 112 };
  lower_boundary = 0;
  signals = 0;
}

locator_block_heights_lem_example :
    ((n : ℕ) → successors (32 + n) 1 ≡ successors 32 1)
    × IsDecreasing (locator_block_heights 2000)
    × (first (locator_block_heights 2000) ≡ some 2000)
    × (last (locator_block_heights 2000) ≡ some 1000)
locator_block_heights_lem_example = locator_block_heights_lem 2000

build_block_locator_lem_example :
    build_block_locator (λ h. ok (recorded h)) 12
    ≡ ok (some (hashes_at recorded (locator_block_heights 12)))
build_block_locator_lem_example =
    build_block_locator_lem (λ h. ok (recorded h)) recorded (λ h. refl) 12

step_back_to_best_chain_lem_example :
    (r : Result SyncError (ChainBlock ℕ)) × (step_back_to_best_chain
        (λ h. ok (best h))
        (λ h. ok (recorded h))
        1
        26
        25
      ≡ some r)
    × WalksTo best recorded 1 25 r
step_back_to_best_chain_lem_example =
    step_back_to_best_chain_lem (λ h. ok (best h)) (λ h. ok (recorded h)) best recorded (λ h. refl)
      (λ h. refl) 1 26 25 (omega arith)

locate_fork_point_lem_example :
    (r : Result SyncError (ChainBlock ℕ)) × (locate_fork_point
        (λ l. ok none)
        (λ h. ok (best h))
        (ok (some 1))
        (λ h. ok (recorded h))
        (record { height = 25; hash = 125 })
      ≡ some r)
    × Located
        (λ l. ok none)
        (λ h. ok (best h))
        (ok (some 1))
        (λ h. ok (recorded h))
        best
        recorded
        (λ h. refl)
        (λ h. refl)
        (record { height = 25; hash = 125 })
        1
        none
        r
locate_fork_point_lem_example =
    locate_fork_point_lem (λ l. ok none) (λ h. ok (best h)) (ok (some 1)) (λ h. ok (recorded h))
      best recorded (λ h. refl) (λ h. refl) (record { height = 25; hash = 125 }) 1 none refl refl

located :
    locate_fork_point view.find_fork_point view.get_block_header
      (ok (some 1))
      (λ h. ok (recorded h))
      state.prev_tip
    ≡ some (ok (block_at 4))
unfolding locate_fork_point build_block_locator known_blocks from_blocks from_blocks_behind
    locator_block_heights successors checked_subs take_above
located = refl

steady_state_iteration-Ends_example :
    Ends
      (λ _ t. t.prev_tip ≡ block_at 6)
      (steady_state_iteration (database recorded) minus_100 (ok view) state)
steady_state_iteration-Ends_example =
    steady_state_iteration-Ends (database recorded) minus_100 view (block_at 6) (block_at 4) state
      located (omega arith) (inr (omega arith)) (refl, (refl, tt)) refl refl

abbrev nothing : BlockHeight → Option ℕ
nothing h = none

fresh : hashes_at nothing (locator_block_heights 12) ≡ []
unfolding hashes_at locator_block_heights successors checked_subs take_above
fresh = refl

steady_state_iteration-fresh_panics_example :
    (steady_state_iteration (database nothing) minus_100 (ok view) state).0 ≡ panicked
steady_state_iteration-fresh_panics_example =
    steady_state_iteration-fresh_panics (database nothing) view state nothing (λ h. refl) (some 1)
      refl fresh refl minus_100 (block_at 6) refl (omega arith)

abbrev range : Range
range = record { start = 10; end = 20 }
