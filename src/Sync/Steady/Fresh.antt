-- ===== src/Sync/Steady/Fresh.antt =====
-- A wallet with no recorded blocks whose chain pointer is above the tip of the chain view.
use zallet.Prelude.{
  ◌<◌, false, [], Option, none, some, ok, Eq, leb, ◌==◌, ◌≡◌, refl, arith, ap, ◌∙◌, ◌+◌,
}
use zallet.Sync.{BlockHeight, ChainBlock}
use zallet.Sync.Locator.{locator_block_heights, build_block_locator}
use zallet.Sync.Locator.Build.{hashes_at, build_block_locator_lem}
use zallet.Sync.Rewind.{locate_fork_point}
use zallet.Sync.Steady.{
  same_block, ChainView, Database, SyncState, Exit, panicked, fork_point, catch_up, announce,
  steady_state_iteration, failed, done, connect, rewind_to, assert, on_chain, finish, store_all,
  exit_of, Action, ◌>>=◌, ◌>>◌,
}

>>=-panics :
    {S A B : Type 0} (m : Action S A) (f : A → Action S B) (s t : S)
    → m s ≡ (panicked, t)
    → ((m >>= f) s).0 ≡ panicked
>>=-panics {S} {A} {B} m f s t h = ap (λ r. (bound r).0) h
  where
    bound : Exit A × S → Exit B × S
    bound r = elim r.0 [
      | panicked ↦ (panicked, r.1)
      | failed error ↦ (failed error, r.1)
      | done a ↦ f a r.1
    ]

module _ {BlockHash Block Tx Wallet : Type 0} ⦃e : Eq BlockHash⦄
    (db : Database BlockHash Block Tx Wallet) (view : ChainView BlockHash Block Tx)
    (s : SyncState BlockHash Wallet) (recorded : BlockHeight → Option BlockHash)
    (readable : (height : BlockHeight) → db.get_block_hash s.wallet height ≡ ok (recorded height))
    (birthday : Option BlockHeight) (born : db.get_wallet_birthday s.wallet ≡ ok birthday)
    (fresh : hashes_at recorded (locator_block_heights s.prev_tip.height) ≡ [])
    (no_fork : view.find_fork_point [] ≡ ok none) where
  locate_fork_point-fresh :
      locate_fork_point view.find_fork_point view.get_block_header
        (db.get_wallet_birthday s.wallet)
        (db.get_block_hash s.wallet)
        s.prev_tip
      ≡ some (ok s.prev_tip)
  unfolding locate_fork_point
  locate_fork_point-fresh =
      let built : build_block_locator (db.get_block_hash s.wallet) s.prev_tip.height
          ≡ ok (some []) =
        build_block_locator_lem (db.get_block_hash s.wallet) recorded readable s.prev_tip.height
        ∙ ap (λ l. ok (some l)) fresh in
      rw (born, locate_fork_point) (rw built (rw no_fork refl))

  module _ (minus_100 : BlockHeight → BlockHeight) (tip : ChainBlock BlockHash)
      (is_tip : view.tip ≡ ok tip) (below : tip.height < s.prev_tip.height) where
    catch_up-fresh_panics :
        catch_up db minus_100 view tip s ≡ (panicked, (announce db minus_100 tip.height s).1)
    unfolding catch_up fork_point announce
    catch_up-fresh_panics =
        ap
          (λ r. elim r.0 [
            | panicked ↦ (panicked, r.1)
            | failed error ↦ (failed error, r.1)
            | done f ↦ body f r.1
          ])
          exit
        ∙ rw above refl
      where
        t : SyncState BlockHash Wallet
        t = (announce db minus_100 tip.height s).1

        body : ChainBlock BlockHash → Action (SyncState BlockHash Wallet) (Unit {0})
        body f =
            assert (leb f.height tip.height)
            >> (rewind_to db f >> connect db view (view.stream_blocks_to_tip (f.height + 1)))

        exit : fork_point db view t ≡ (done s.prev_tip, t)
        exit =
            ap (λ r. (elim r [ none ↦ panicked | some r ↦ exit_of r ], t)) locate_fork_point-fresh

        above : leb s.prev_tip.height tip.height ≡ false
        above = ground arith

    -- If the wallet has none of the blocks that its locator asks for, the view finds no fork point for
    -- the empty locator, and the view's tip is below the chain pointer, then an iteration fails an
    -- assertion.
    pub steady_state_iteration-fresh_panics :
        (steady_state_iteration db minus_100 (ok view) s).0 ≡ panicked
    unfolding steady_state_iteration same_block
    steady_state_iteration-fresh_panics =
        let heights : (tip.height == s.prev_tip.height) ≡ false = ground arith in
        simp is_tip (
          simp heights
            (>>=-panics (catch_up db minus_100 view tip) mempool_part s _ catch_up-fresh_panics))
      where
        mempool_part : Unit {0} → Action (SyncState BlockHash Wallet) (Unit {0})
        mempool_part _ =
            on_chain view.get_mempool_stream
            >>= (λ mempool. elim mempool [ none ↦ finish tt | some txs ↦ store_all db txs ])
