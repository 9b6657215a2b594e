-- ===== src/Transactions.antt =====
-- The list of transactions (zallet/src/components/json_rpc/methods/list_transactions.rs). The query is read as SQL
-- defines it: a NULL is `none`, and so is the value of a comparison with it. The two views are lists of rows; the
-- sorting of the database and the types of zcash_protocol, uuid and time are parameters.
pub mod Filter
pub mod Pages
pub mod Sorting
pub mod Query
mod Tests
use zallet.Prelude.{
  ℕ, Bool, true, false, ◌&&◌, String, str_append, List, [], ◌∷◌, Option, none, some, Result, ok,
  err, ok_or, map_err, ◌>>=◌, if◌then◌else◌, ltb, leb, ◌==◌, take, drop, length, Bytes, same,
}
use zallet.Prelude.Int.{ℤ, pos}
use zallet.Rpc.Error.{RpcResult, database, invalid_parameter, with_message}
use zallet.Privacy.Proposal.{PoolType, transparent, sapling, orchard}

-- A row of `v_transactions`.
pub record TxRow : Type 0 where
  pub account_uuid : Bytes
  pub mined_height : Option ℕ
  pub txid : Bytes
  pub expiry_height : Option ℕ
  pub account_balance_delta : ℤ
  pub fee_paid : Option ℕ
  pub sent_note_count : ℕ
  pub received_note_count : ℕ
  pub block_time : Option ℤ
  pub expired_unmined : Bool

-- A row of `v_tx_outputs`, without its transaction.
pub record OutputRow : Type 0 where
  pub output_pool : ℤ
  pub output_index : ℕ
  pub from_account_uuid : Option Bytes
  pub to_account_uuid : Option Bytes
  pub to_address : Option String
  pub value : ℤ
  pub is_change : Bool
  pub memo : Option Bytes

pub record WalletTxOutput : Type 0 where
  pub pool : String
  pub output_index : ℕ
  pub from_account : Option String
  pub to_account : Option String
  pub to_address : Option String
  pub value : ℕ
  pub is_change : Bool
  pub memo : Option String

pub record WalletTx : Type 0 where
  pub account_uuid : String
  pub mined_height : Option ℕ
  pub txid : String
  pub expiry_height : Option ℕ
  pub account_balance_delta : ℤ
  pub fee_paid : Option ℕ
  pub sent_note_count : ℕ
  pub received_note_count : ℕ
  pub block_time : Option ℤ
  pub block_datetime : Option String
  pub expired_unmined : Bool
  pub outputs : List WalletTxOutput

-- `SqliteClientError::CorruptedData`, by what is corrupt.
pub data Corrupted : Type 0 where
  pool_code output_value balance_delta unix_timestamp : ℤ → Corrupted
  account_uuid_length txid_length fee_value : ℕ → Corrupted
  memo_data : Corrupted

-- `Memo` of zcash_protocol.
pub data Memo : Type 0 where
  empty : Memo
  text : String → Memo
  future arbitrary : Bytes → Memo

-- What the code uses of zcash_protocol, uuid, hex and time.
pub record Formats : Type 0 where
  pub parse_uuid : String → Option Bytes
  pub uuid_text : Bytes → String
  pub txid_text : Bytes → String
  pub zatoshis_from_nonnegative_i64 : ℤ → Option ℕ
  pub zatoshis_from_u64 : ℕ → Option ℕ
  pub zat_balance_from_i64 : ℤ → Option ℤ
  pub memo_from_bytes : Bytes → Option Memo
  pub hex_encode : Bytes → String
  pub format_timestamp : ℤ → Option String
  pub error_text : Corrupted → String

unfoldable pub parse_pool_code : ℤ → Option PoolType
parse_pool_code (pos n) =
    if n == 0
    then some transparent
    else if n == 2
    then some sapling
    else if n == 3
    then some orchard
    else none
parse_pool_code _ = none

unfoldable pub pool_text : PoolType → String
pool_text transparent = "transparent"
pool_text sapling = "sapling"
pool_text orchard = "orchard"

-- `.map(f).transpose()`.
abbrev pub optionally : {E A B : Type 0} → (A → Result E B) → Option A → Result E (Option B)
optionally f none = ok none
optionally f (some a) = do b ← f a; ok (some b)

abbrev pub map_option : {A B : Type 0} → (A → B) → Option A → Option B
map_option f none = none
map_option f (some a) = some (f a)

-- `collect::<Result<Vec<_>, _>>()` of the rows that a query hands over.
unfoldable pub collect_rows : {E A B : Type 0} → (A → Result E B) → List A → Result E (List B)
collect_rows f [] = ok []
collect_rows f (row ∷ rows) = do value ← f row; values ← collect_rows f rows; ok (value ∷ values)

module _ (formats : Formats) where
  unfoldable pub memo_text : Memo → Option String
  memo_text empty = none
  memo_text (text text_memo) = some text_memo
  memo_text (future memo_bytes) = some (formats.hex_encode memo_bytes)
  memo_text (arbitrary m) = some (formats.hex_encode m)

  -- The memo of an output, if it has one that is not empty.
  unfoldable pub output_memo : Option Bytes → Result Corrupted (Option String)
  unfolding memo_text
  output_memo none = ok none
  output_memo (some b) = do memo ← ok_or (formats.memo_from_bytes b) memo_data; ok (memo_text memo)

  unfoldable pub new : OutputRow → Result Corrupted WalletTxOutput
  unfolding output_memo parse_pool_code pool_text
  new row = do
    pool ← ok_or (parse_pool_code row.output_pool) (pool_code row.output_pool)
    value ← ok_or (formats.zatoshis_from_nonnegative_i64 row.value) (output_value row.value)
    memo ← output_memo row.memo
    ok (record {
      pool = pool_text pool;
      output_index = row.output_index;
      from_account = map_option formats.uuid_text row.from_account_uuid;
      to_account = map_option formats.uuid_text row.to_account_uuid;
      to_address = row.to_address;
      value = value;
      is_change = row.is_change;
      memo = memo;
    })

  -- `<[u8; n]>::try_from`.
  unfoldable pub exactly : ℕ → Bytes → (ℕ → Corrupted) → Result Corrupted Bytes
  exactly n bytes e = if length bytes == n then ok bytes else err (e (length bytes))

  unfoldable pub from_parts : TxRow → List WalletTxOutput → Result Corrupted WalletTx
  unfolding exactly
  from_parts row outputs = do
    account_uuid ← exactly 16 row.account_uuid account_uuid_length
    txid ← exactly 32 row.txid txid_length
    delta ←
        ok_or (formats.zat_balance_from_i64 row.account_balance_delta)
          (balance_delta row.account_balance_delta)
    fee_paid ← optionally (λ v. ok_or (formats.zatoshis_from_u64 v) (fee_value v)) row.fee_paid
    block_datetime ←
        optionally (λ t. ok_or (formats.format_timestamp t) (unix_timestamp t)) row.block_time
    ok (record {
      account_uuid = formats.uuid_text account_uuid;
      mined_height = row.mined_height;
      txid = formats.txid_text txid;
      expiry_height = row.expiry_height;
      account_balance_delta = delta;
      fee_paid = fee_paid;
      sent_note_count = row.sent_note_count;
      received_note_count = row.received_note_count;
      block_time = row.block_time;
      block_datetime = block_datetime;
      expired_unmined = row.expired_unmined;
      outputs = outputs;
    })
