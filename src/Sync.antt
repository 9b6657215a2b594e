-- ===== src/Sync.antt =====
-- Syncing with the chain (zallet/src/components/sync.rs, sync/locator.rs, sync/error.rs, chain.rs and
-- chain/error.rs): the heights, blocks and errors that the parts share. A block hash is of any type.
pub mod History
pub mod Initialize
pub mod Locator
pub mod Requests
pub mod Rewind
pub mod Scanning
pub mod Steady
pub mod Boundary
mod Tests
use zallet.Prelude.{ℕ, String}

-- `BlockHeight` of zcash_protocol, a u32.
abbrev pub BlockHeight : Type 0
BlockHeight = ℕ

pub record ChainBlock (BlockHash : Type 0) : Type 0 where
  pub height : BlockHeight
  pub hash : BlockHash

-- A boxed error stands as its text.
pub data ChainError : Type 0 where
  unavailable invalid_data backend : String → ChainError

pub data SyncError : Type 0 where
  batch_decryptor_unavailable : SyncError
  chain : ChainError → SyncError
  scan tree other : String → SyncError
  wallet_diverged_below_birthday : BlockHeight → SyncError
