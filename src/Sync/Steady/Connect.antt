-- ===== src/Sync/Steady/Connect.antt =====
-- An iteration of the steady-state loop on a chain view that serves the chain as its documentation says.
use mathlib.Core.Path.{subst}
use zallet.Prelude.{
  ◌+◌, ◌≤◌, ◌<◌, Bool, true, false, ◌&&◌, List, [], ◌∷◌, Option, none, some, Result, ok, err, Eq,
  if◌then◌else◌, leb, ◌==◌, ◌≡◌, refl, arith, inl, inr, sym, ◌∙◌, ap, ◌⊎◌, Bool-cases, ==_iff,
  lt→ltb, le→leb,
}
use zallet.Sync.{BlockHeight, ChainBlock, ChainError, SyncError}
use zallet.Sync.Rewind.{locate_fork_point}
use zallet.Sync.Steady.{
  same_block, ChainView, Database, SyncState, Exit, panicked, failed, done, exit_of, write, connect,
  fork_point, rewind_to, announce, catch_up, store_all, steady_state_iteration, ◌>>=◌, ◌>>◌, finish,
  on_chain, assert, Action, set_prev_tip,
}

module _ {BlockHash : Type 0} ⦃e : Eq BlockHash⦄ where
  same_block-eq : (a b : ChainBlock BlockHash) → same_block a b ≡ true → a ≡ b
  unfolding same_block
  same_block-eq a b h =
      let (heights, hashes) = both (a.height == b.height) (e.beq a.hash b.hash) h in
      ap (λ h. record { height = h; hash = a.hash }) ((==_iff a.height b.height).0 heights)
      ∙ ap (λ h. record { height = b.height; hash = h }) ((e.beq_iff a.hash b.hash).0 hashes)
    where
      both : (x y : Bool) → (x && y) ≡ true → (x ≡ true) × (y ≡ true)
      both true y h = (refl, h)
      both false y h = cc

  eq-same_block : (a b : ChainBlock BlockHash) → a ≡ b → same_block a b ≡ true
  unfolding same_block
  eq-same_block a b h =
      rw
        (
          (==_iff a.height b.height).1 (ap (λ (c : ChainBlock BlockHash). c.height) h),
          (e.beq_iff a.hash b.hash).1 (ap (λ (c : ChainBlock BlockHash). c.hash) h),
        )
        refl

-- No assertion fails, and a run with no error has the result and the state as `P` says.
abbrev pub Ends : {S A : Type 0} → (A → S → Type 0) → Exit A × S → Type 0
Ends P (panicked, s) = ⊥
Ends P (failed error, s) = Unit {0}
Ends P (done a, s) = P a s

>>=-Ends :
    {S A B : Type 0} (P : A → S → Type 0) (Q : B → S → Type 0) (m : Action S A) (f : A → Action S B)
    (s : S)
    → Ends P (m s)
    → ((a : A) (t : S) → P a t → Ends Q (f a t))
    → Ends Q ((m >>= f) s)
>>=-Ends {S} {A} {B} P Q m f s h k = go (m s) h
  where
    go :
        (r : Exit A × S)
        → Ends P r
        → Ends Q (elim r.0 [
          | panicked ↦ (panicked, r.1)
          | failed error ↦ (failed error, r.1)
          | done a ↦ f a r.1
        ])
    go (panicked, t) h = absurd h
    go (failed error, t) h = tt
    go (done a, t) h = k a t h

module _ {BlockHash Block Tx Wallet : Type 0} ⦃e : Eq BlockHash⦄
    (db : Database BlockHash Block Tx Wallet) where
  -- The blocks of a stream, up to its end or an error, follow on the height.
  abbrev pub Follows :
      ChainView BlockHash Block Tx → BlockHeight → List (Result ChainError Block) → Type 0
  Follows view height [] = Unit {0}
  Follows view height (err error ∷ blocks) = Unit {0}
  Follows view height (ok block ∷ blocks) =
      ((view.claimed_block block).height ≡ height + 1)
      × Follows view (view.claimed_block block).height blocks

  abbrev pub last_block :
      ChainView BlockHash Block Tx
      → ChainBlock BlockHash
      → List (Result ChainError Block)
      → ChainBlock BlockHash
  last_block view start [] = start
  last_block view start (err error ∷ blocks) = start
  last_block view start (ok block ∷ blocks) = last_block view (view.claimed_block block) blocks

  write-Ends :
      (update : Wallet → Result SyncError (Unit {0}) × Wallet) (s : SyncState BlockHash Wallet)
      → Ends (λ _ t. t.prev_tip ≡ s.prev_tip) (write db update s)
  write-Ends update s = go (update s.wallet).0 (record s { wallet = (update s.wallet).1 }) refl
    where
      go :
          (r : Result SyncError (Unit {0})) (t : SyncState BlockHash Wallet)
          → t.prev_tip ≡ s.prev_tip
          → Ends (λ _ t. t.prev_tip ≡ s.prev_tip) (exit_of r, t)
      go (ok a) t h = h
      go (err error) t h = tt

  At : ChainBlock BlockHash → Unit {0} → SyncState BlockHash Wallet → Type 0
  At tip _ s = s.prev_tip ≡ tip

  connect-Ends :
      (view : ChainView BlockHash Block Tx) (blocks : List (Result ChainError Block))
      (start : ChainBlock BlockHash) (s : SyncState BlockHash Wallet)
      → s.prev_tip ≡ start
      → Follows view start.height blocks
      → Ends (At (last_block view start blocks)) (connect db view blocks s)
  unfolding connect At
  connect-Ends view [] start s at h = at
  connect-Ends view (err error ∷ blocks) start s at h = tt
  connect-Ends view (ok block ∷ blocks) start s at (h, rest) =
      rw
        ((==_iff (view.claimed_block block).height (s.prev_tip.height + 1)).1
          (h ∙ ap (λ (b : ChainBlock BlockHash). b.height + 1) (sym at)))
        (>>=-Ends (At s.prev_tip) final (write db (db.update_chain_tip current.height))
          (λ _. scanned) s (write-Ends (db.update_chain_tip current.height) s)
          (λ _ t _.
            >>=-Ends (At t.prev_tip) final (write db (db.scan_block block)) (λ _. moved) t
              (write-Ends (db.scan_block block) t)
              (λ _ u _.
                connect-Ends view blocks current (record u { prev_tip = current }) refl rest)))
    where
      current : ChainBlock BlockHash
      current = view.claimed_block block

      final : Unit {0} → SyncState BlockHash Wallet → Type 0
      final = At (last_block view current blocks)

      moved : Action (SyncState BlockHash Wallet) (Unit {0})
      moved = set_prev_tip db current >> connect db view blocks

      scanned : Action (SyncState BlockHash Wallet) (Unit {0})
      scanned = write db (db.scan_block block) >> moved

  store_all-Ends :
      (txs : List Tx) (tip : ChainBlock BlockHash) (s : SyncState BlockHash Wallet)
      → s.prev_tip ≡ tip
      → Ends (At tip) (store_all db txs s)
  unfolding store_all At
  store_all-Ends [] tip s at = at
  store_all-Ends (tx ∷ txs) tip s at =
      >>=-Ends (At s.prev_tip) (At tip) (write db (db.decrypt_and_store_transaction tx))
        (λ _. store_all db txs) s (write-Ends (db.decrypt_and_store_transaction tx) s)
        (λ _ t same. store_all-Ends txs tip t (same ∙ at))

  module _ (minus_100 : BlockHeight → BlockHeight) (view : ChainView BlockHash Block Tx)
      (tip fork : ChainBlock BlockHash) (s : SyncState BlockHash Wallet)
      (located : locate_fork_point view.find_fork_point view.get_block_header
          (db.get_wallet_birthday s.wallet)
          (db.get_block_hash s.wallet)
          s.prev_tip
        ≡ some (ok fork))
      (below_tip : fork.height ≤ tip.height)
      (behind : (fork ≡ s.prev_tip) ⊎ (fork.height < s.prev_tip.height))
      (follows : Follows view fork.height (view.stream_blocks_to_tip (fork.height + 1))) where
    rewind_to-Ends :
        (t : SyncState BlockHash Wallet)
        → t.prev_tip ≡ s.prev_tip
        → Ends (At fork) (rewind_to db fork t)
    unfolding rewind_to At
    rewind_to-Ends t same = elim (Bool-cases (same_block fork t.prev_tip)) [
      | inl equal ↦ rw equal (sym (same_block-eq fork t.prev_tip equal))
      | inr moved ↦
          rw (moved, lt→ltb fork.height t.prev_tip.height (lower t same moved))
            (>>=-Ends (At t.prev_tip) (At fork) (write db (db.truncate_to_height fork.height))
              (λ _. set_prev_tip db fork) t (write-Ends (db.truncate_to_height fork.height) t)
              (λ _ u _. refl))
    ]
      where
        lower :
            (t : SyncState BlockHash Wallet)
            → t.prev_tip ≡ s.prev_tip
            → same_block fork t.prev_tip ≡ false
            → fork.height < t.prev_tip.height
        lower t same moved = elim behind [
          | inl equal ↦ cc (eq-same_block fork t.prev_tip (equal ∙ sym same), moved)
          | inr less ↦ omega (arith, less, ap (λ (b : ChainBlock BlockHash). b.height) same)
        ]

    catch_up-Ends :
        Ends
          (At (last_block view fork (view.stream_blocks_to_tip (fork.height + 1))))
          (catch_up db minus_100 view tip s)
    unfolding catch_up fork_point announce At
    catch_up-Ends =
        subst
          (λ r. Ends final (elim r.0 [
            | panicked ↦ (panicked, r.1)
            | failed error ↦ (failed error, r.1)
            | done f ↦ body f r.1
          ]))
          (sym exit)
          (rw (le→leb fork.height tip.height below_tip) (
            >>=-Ends (At fork) final (rewind_to db fork) (λ _. connect db view blocks) t
              (rewind_to-Ends t refl) (λ _ u at. connect-Ends view blocks fork u at follows)))
      where
        blocks : List (Result ChainError Block)
        blocks = view.stream_blocks_to_tip (fork.height + 1)

        final : Unit {0} → SyncState BlockHash Wallet → Type 0
        final = At (last_block view fork blocks)

        t : SyncState BlockHash Wallet
        t = (announce db minus_100 tip.height s).1

        body : ChainBlock BlockHash → Action (SyncState BlockHash Wallet) (Unit {0})
        body f =
            assert (leb f.height tip.height)
            >> (rewind_to db f >> connect db view (view.stream_blocks_to_tip (f.height + 1)))

        exit : fork_point db view t ≡ (done fork, t)
        exit = ap (λ r. (elim r [ none ↦ panicked | some r ↦ exit_of r ], t)) located

    -- If the fork point located is not above the view's tip and is the chain pointer or below it, and
    -- the view streams blocks with consecutive heights from the fork point to its tip, then no assertion
    -- fails in an iteration, whatever the wallet's database answers, and an iteration with no error leaves
    -- the chain pointer at the view's tip.
    pub steady_state_iteration-Ends :
        view.tip ≡ ok tip
        → last_block view fork (view.stream_blocks_to_tip (fork.height + 1)) ≡ tip
        → Ends (λ _ t. t.prev_tip ≡ tip) (steady_state_iteration db minus_100 (ok view) s)
    unfolding steady_state_iteration At catch_up fork_point connect
    steady_state_iteration-Ends is_tip reaches = rw is_tip (
        >>=-Ends (At tip) (At tip)
          (if same_block tip s.prev_tip then finish tt else catch_up db minus_100 view tip)
          (λ _. mempool_part) s caught_up (λ _ t at. mempool_ends view.get_mempool_stream t at))
      where
        store : Option (List Tx) → Action (SyncState BlockHash Wallet) (Unit {0})
        store none = finish tt
        store (some txs) = store_all db txs

        mempool_part : Action (SyncState BlockHash Wallet) (Unit {0})
        mempool_part = on_chain view.get_mempool_stream >>= store

        mempool_ends :
            (r : Result ChainError (Option (List Tx))) (t : SyncState BlockHash Wallet)
            → t.prev_tip ≡ tip
            → Ends (At tip) ((on_chain r >>= store) t)
        mempool_ends (ok none) t at = at
        mempool_ends (ok (some txs)) t at = store_all-Ends txs tip t at
        mempool_ends (err error) t at = tt

        caught_up :
            Ends
              (At tip)
              ((if same_block tip s.prev_tip then finish tt else catch_up db minus_100 view tip) s)
        caught_up = elim (Bool-cases (same_block tip s.prev_tip)) [
          | inl equal ↦ rw equal (sym (same_block-eq tip s.prev_tip equal))
          | inr changed ↦
              rw changed
                (subst (λ b. Ends (At b) (catch_up db minus_100 view tip s)) reaches catch_up-Ends)
        ]
