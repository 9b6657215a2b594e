-- ===== src/Transactions/Query.antt =====
-- The query for transactions (`query_transactions` and `call` of
-- zallet/src/components/json_rpc/methods/list_transactions.rs).
use zallet.Prelude.{
  ℕ, Bool, true, false, String, str_append, List, [], ◌∷◌, Option, none, some, Result, ok_or,
  map_err, ◌>>=◌, if◌then◌else◌, ltb, leb, ◌==◌, take, drop, Bytes, same,
}
use zallet.Rpc.Error.{RpcResult, database, invalid_parameter, with_message}
use zallet.Transactions.{
  TxRow, OutputRow, WalletTx, Corrupted, Formats, optionally, collect_rows, new, from_parts,
}

-- A truth value of SQL; `none` is NULL.
abbrev pub Sql : Type 0
Sql = Option Bool

infixr 30 ◌or◌
infixr 35 ◌and◌
abbrev pub ◌or◌ : Sql → Sql → Sql
some true or b = some true
some false or b = b
none or some true = some true
none or some false = none
none or none = none

abbrev pub ◌and◌ : Sql → Sql → Sql
some false and b = some false
some true and b = b
none and some false = some false
none and some true = none
none and none = none

abbrev pub is_null : {A : Type 0} → Option A → Sql
is_null none = some true
is_null (some _) = some false

-- A comparison, which is NULL if a side is.
abbrev pub compare_by : {A : Type 0} → (A → A → Bool) → Option A → Option A → Sql
compare_by test (some a) (some b) = some (test a b)
compare_by test (some a) none = none
compare_by test none b = none

-- The parameters of the query.
pub record Query : Type 0 where
  pub account_uuid : Option Bytes
  pub start_height : Option ℕ
  pub end_height : Option ℕ
  pub offset : Option ℕ
  pub limit : Option ℕ

unfoldable pub account_clause : Option Bytes → Bytes → Sql
account_clause asked account_uuid = is_null asked or compare_by same (some account_uuid) asked

unfoldable pub height_clauses : Option ℕ → Option ℕ → Option ℕ → Sql
height_clauses start_height end_height mined_height =
    (is_null start_height
      or compare_by (λ m s. leb s m) mined_height start_height
      or (is_null mined_height and is_null end_height))
    and (is_null end_height or compare_by ltb mined_height end_height)

-- The WHERE clause.
unfoldable pub where_clause : Query → TxRow → Sql
unfolding account_clause height_clauses
where_clause q row =
    account_clause q.account_uuid row.account_uuid
    and height_clauses q.start_height q.end_height row.mined_height

-- A row is kept if the clause is true, neither false nor NULL.
abbrev pub is_true : Sql → Bool
is_true (some b) = b
is_true none = false

unfoldable pub keeps : Query → TxRow → Bool
unfolding where_clause
keeps q row = is_true (where_clause q row)

unfoldable pub rows_where : (TxRow → Bool) → List TxRow → List TxRow
rows_where test [] = []
rows_where test (row ∷ rows) =
    let rest = rows_where test rows in if test row then row ∷ rest else rest

-- `CASE WHEN expiry_height == 0 THEN NULL ELSE expiry_height END`.
unfoldable pub known_expiry : Option ℕ → Option ℕ
known_expiry none = none
known_expiry (some h) = if h == 0 then none else some h

-- `COALESCE` of the two heights.
unfoldable pub sort_height : TxRow → Option ℕ
unfolding known_expiry
sort_height row = elim row.mined_height [ some h ↦ some h | none ↦ known_expiry row.expiry_height ]

-- `LIMIT` and `OFFSET`; with no limit the code passes -1, which SQLite takes for none.
unfoldable pub page : {A : Type 0} → Query → List A → List A
page q rows =
    let rest = drop (elim q.offset [ none ↦ 0 | some n ↦ n ]) rows in
    elim q.limit [ none ↦ rest | some n ↦ take n rest ]

-- The sorting (`ORDER BY ... ASC NULLS LAST`) and the outputs of a transaction are the database's.
module _ (formats : Formats) (outputs_of : Bytes → List OutputRow) where
  unfoldable pub transaction_of : TxRow → Result Corrupted WalletTx
  unfolding new
  transaction_of row = do
    tx_outputs ← collect_rows (new formats) (outputs_of row.txid)
    from_parts formats row tx_outputs

  module _ (order_by : (TxRow → Option ℕ) → List TxRow → List TxRow) where
    unfoldable pub query_transactions : Query → List TxRow → Result Corrupted (List WalletTx)
    unfolding transaction_of page keeps rows_where sort_height
    query_transactions q v_transactions =
        collect_rows transaction_of
          (page q (order_by sort_height (rows_where (keeps q) v_transactions)))

    unfoldable pub call :
        Option String
        → Option ℕ
        → Option ℕ
        → Option ℕ
        → Option ℕ
        → List TxRow
        → RpcResult (List WalletTx)
    unfolding query_transactions
    call account_uuid start_height end_height offset limit v_transactions = do
      account ←
          optionally
            (λ s.
              ok_or (formats.parse_uuid s)
                (with_message invalid_parameter (str_append "not a valid UUID: " s)))
            account_uuid
      map_err (λ e. with_message database (formats.error_text e))
          (query_transactions
            (record {
              account_uuid = account;
              start_height = start_height;
              end_height = end_height;
              offset = offset;
              limit = limit;
            })
            v_transactions)
