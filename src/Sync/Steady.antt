-- ===== src/Sync/Steady.antt =====
-- The steady-state loop (`update_boundary`, `is_retryable` and `steady_state_iteration` of
-- zallet/src/components/sync.rs). The database, the chain view and `steps::scan_block` are records of
-- operations; logging and sleeping are left out. Heights are far below 2^32 and do not wrap.
pub mod Connect
pub mod Fresh
use zallet.Prelude.{
  ℕ, ◌+◌, ◌-◌, max, Bool, true, false, not, ◌&&◌, List, [], ◌∷◌, Option, none, some, Result, ok,
  err, Eq, if◌then◌else◌, ltb, leb, ◌==◌,
}
use zallet.Sync.{BlockHeight, ChainBlock, ChainError, SyncError, unavailable, chain}
use zallet.Sync.Rewind.{locate_fork_point}

-- `minus_100` is `tip_height - 100` on the `BlockHeight` of zcash_protocol.
unfoldable pub update_boundary :
    (BlockHeight → BlockHeight) → BlockHeight → BlockHeight → BlockHeight
update_boundary minus_100 current_boundary tip_height = max current_boundary (minus_100 tip_height)

unfoldable pub is_retryable : SyncError → Bool
is_retryable (chain (unavailable _)) = true
is_retryable _ = false

unfoldable pub same_block :
    {BlockHash : Type 0} ⦃e : Eq BlockHash⦄ → ChainBlock BlockHash → ChainBlock BlockHash → Bool
same_block ⦃e⦄ a b = (a.height == b.height) && e.beq a.hash b.hash

-- A block's height and hash are read off it.
pub record ChainView (BlockHash Block Tx : Type 0) : Type 0 where
  pub tip : Result ChainError (ChainBlock BlockHash)
  pub find_fork_point : List BlockHash → Result ChainError (Option (ChainBlock BlockHash))
  pub get_block_header : BlockHeight → Result ChainError (Option BlockHash)
  -- An error ends a stream.
  pub stream_blocks_to_tip : BlockHeight → List (Result ChainError Block)
  pub get_mempool_stream : Result ChainError (Option (List Tx))
  pub claimed_block : Block → ChainBlock BlockHash

-- A write that fails may still have changed the wallet.
pub record Database (BlockHash Block Tx Wallet : Type 0) : Type 0 where
  pub get_block_hash : Wallet → BlockHeight → Result SyncError (Option BlockHash)
  pub get_wallet_birthday : Wallet → Result SyncError (Option BlockHeight)
  pub update_chain_tip : BlockHeight → Wallet → Result SyncError (Unit {0}) × Wallet
  pub truncate_to_height : BlockHeight → Wallet → Result SyncError (Unit {0}) × Wallet
  pub scan_block : Block → Wallet → Result SyncError (Unit {0}) × Wallet
  pub decrypt_and_store_transaction : Tx → Wallet → Result SyncError (Unit {0}) × Wallet

pub record SyncState (BlockHash Wallet : Type 0) : Type 0 where
  pub wallet : Wallet
  pub prev_tip : ChainBlock BlockHash
  pub lower_boundary : BlockHeight
  -- How often the tip-change signal was given.
  pub signals : ℕ

-- How a computation ends: a failed assertion, an error, or a result.
pub data Exit {ℓ} (A : Type ℓ) : Type ℓ where
  panicked : Exit A
  failed : SyncError → Exit A
  done : A → Exit A

abbrev pub Action : Type 0 → Type 0 → Type 0
Action S A = S → Exit A × S

infixl 5 ◌>>=◌ ◌>>◌
abbrev pub ◌>>=◌ : {S A B : Type 0} → Action S A → (A → Action S B) → Action S B
m >>= f = λ s. elim (m s).0 [
  | panicked ↦ (panicked, (m s).1)
  | failed error ↦ (failed error, (m s).1)
  | done a ↦ f a (m s).1
]

abbrev pub ◌>>◌ : {S B : Type 0} → Action S (Unit {0}) → Action S B → Action S B
m >> k = m >>= λ _. k

abbrev pub finish : {S A : Type 0} → A → Action S A
finish a s = (done a, s)

abbrev pub assert : {S : Type 0} → Bool → Action S (Unit {0})
assert holds s = ((if holds then done tt else panicked), s)

-- `.map_err(SyncError::Chain)?`.
abbrev pub on_chain : {S A : Type 0} → Result ChainError A → Action S A
on_chain (ok a) s = (done a, s)
on_chain (err error) s = (failed (chain error), s)

abbrev pub exit_of : {A : Type 0} → Result SyncError A → Exit A
exit_of (ok a) = done a
exit_of (err error) = failed error

module _ {BlockHash Block Tx Wallet : Type 0} ⦃e : Eq BlockHash⦄
    (db : Database BlockHash Block Tx Wallet) where
  abbrev State : Type 0
  State = SyncState BlockHash Wallet

  abbrev pub write : (Wallet → Result SyncError (Unit {0}) × Wallet) → Action State (Unit {0})
  write update s = (exit_of (update s.wallet).0, record s { wallet = (update s.wallet).1 })

  abbrev pub set_prev_tip : ChainBlock BlockHash → Action State (Unit {0})
  set_prev_tip block s = (done tt, record s { prev_tip = block })

  -- The loop over the blocks to apply.
  unfoldable pub connect :
      ChainView BlockHash Block Tx → List (Result ChainError Block) → Action State (Unit {0})
  connect view [] = finish tt
  connect view (err error ∷ _) = λ s. (failed (chain error), s)
  connect view (ok block ∷ blocks) =
      let rest = connect view blocks in
      let current_block = view.claimed_block block in
      λ s.
        (do
          assert (current_block.height == s.prev_tip.height + 1)
          write (db.update_chain_tip current_block.height)
          write (db.scan_block block)
          set_prev_tip current_block
          rest)
          s

  unfoldable pub fork_point : ChainView BlockHash Block Tx → Action State (ChainBlock BlockHash)
  fork_point view s = (
    elim (locate_fork_point view.find_fork_point view.get_block_header
        (db.get_wallet_birthday s.wallet) (db.get_block_hash s.wallet) s.prev_tip) [
          | none ↦ panicked
          | some r ↦ exit_of r
        ],
    s,
  )

  unfoldable pub rewind_to : ChainBlock BlockHash → Action State (Unit {0})
  rewind_to fork = λ s.
      if same_block fork s.prev_tip
      then finish tt s
      else (do
        assert (ltb fork.height s.prev_tip.height)
        write (db.truncate_to_height fork.height)
        set_prev_tip fork)
          s

  unfoldable pub announce : (BlockHeight → BlockHeight) → BlockHeight → Action State (Unit {0})
  announce minus_100 height s = (
    done tt,
    record s {
      lower_boundary = update_boundary minus_100 s.lower_boundary height;
      signals = s.signals + 1;
    },
  )

  -- The branch for a changed tip.
  unfoldable pub catch_up :
      (BlockHeight → BlockHeight)
      → ChainView BlockHash Block Tx
      → ChainBlock BlockHash
      → Action State (Unit {0})
  catch_up minus_100 view current_tip = do
    announce minus_100 current_tip.height
    fork ← fork_point view
    assert (leb fork.height current_tip.height)
    rewind_to fork
    connect view (view.stream_blocks_to_tip (fork.height + 1))

  unfoldable pub store_all : List Tx → Action State (Unit {0})
  store_all [] = finish tt
  store_all (tx ∷ txs) =
      let rest = store_all txs in write (db.decrypt_and_store_transaction tx) >> rest

  unfoldable pub steady_state_iteration :
      (BlockHeight → BlockHeight)
      → Result ChainError (ChainView BlockHash Block Tx)
      → Action State (Unit {0})
  steady_state_iteration minus_100 snapshot = do
    view ← on_chain snapshot
    current_tip ← on_chain view.tip
    λ s.
        (do
          if same_block current_tip s.prev_tip
              then finish tt
              else catch_up minus_100 view current_tip
          mempool ← on_chain view.get_mempool_stream
          elim mempool [ none ↦ finish tt | some txs ↦ store_all txs ])
          s
