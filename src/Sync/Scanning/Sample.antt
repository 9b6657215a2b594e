-- ===== src/Sync/Scanning/Sample.antt =====
-- A chain view up to height 500 and a wallet that counts the ranges still to scan, for the tests.
use zallet.Prelude.{ℕ, ◌-◌, leb, if◌then◌else◌, [], ◌∷◌, none, some, ok}
use zallet.Sync.Scanning.{Scanner}

abbrev pub scanner : Scanner ℕ ℕ ℕ ℕ ℕ ℕ ℕ ℕ ℕ ℕ ℕ ℕ
scanner = record {
  previous = λ h. h - 1;
  tree_state_as_of = λ view h. ok (if leb h view then some h else none);
  tip_height = λ view. ok view;
  stream_blocks = λ view start end. ok start ∷ [];
  claimed_height = λ block. block;
  queue_block = λ block. some block;
  await_result = λ queued. some queued;
  metadata_of = λ state. state;
  unspent_nullifiers = λ w. ok 0;
  get_account_ids = λ w. ok (1 ∷ []);
  get_transparent_receivers = λ account w. ok ((7, 0) ∷ []);
  scan_full_block = λ height block nullifiers addresses prior. ok block;
  update_with = λ block nullifiers. nullifiers;
  to_block_metadata = λ block. block;
  put_blocks = λ state blocks w. ok (w - 1);
}
