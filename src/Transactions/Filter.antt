-- ===== src/Transactions/Filter.antt =====
-- Which transactions a query lists, and in which order.
use mathlib.Core.List.{Perm}
use zallet.Prelude.{ℕ, ◌≤◌, ◌<◌, List, [], ◌∷◌, Option, none, some, ok, Bytes, ◌≡◌}
use zallet.Transactions.{TxRow, OutputRow, WalletTx, Formats, collect_rows}
use zallet.Transactions.Query.{Query, sort_height, transaction_of}

-- A transaction mined within the bounds that are given, the lower one included; or one that is not
-- mined, if no upper bound is given.
abbrev InRange : Option ℕ → Option ℕ → Option ℕ → Type 0
InRange none none _ = Unit {0}
InRange (some start) none none = Unit {0}
InRange (some start) none (some h) = start ≤ h
InRange _ (some end) none = ⊥
InRange none (some end) (some h) = h < end
InRange (some start) (some end) (some h) = (start ≤ h) × (h < end)

-- The account is the one that is asked for, if any.
abbrev OfAccount : Option Bytes → Bytes → Type 0
OfAccount none account_uuid = Unit {0}
OfAccount (some asked) account_uuid = account_uuid ≡ asked

abbrev pub Matches : Query → TxRow → Type 0
Matches q row =
    OfAccount q.account_uuid row.account_uuid × InRange q.start_height q.end_height row.mined_height

-- The rows that match, in their order and as often.
pub data Selects (q : Query) : List TxRow → List TxRow → Type 0 where
  done : Selects q [] []
  match :
      {row : TxRow} {rows selected : List TxRow}
      → Matches q row
      → Selects q rows selected
      → Selects q (row ∷ rows) (row ∷ selected)
  skip :
      {row : TxRow} {rows selected : List TxRow}
      → ¬ Matches q row
      → Selects q rows selected
      → Selects q (row ∷ rows) selected

-- `ASC NULLS LAST`.
abbrev pub IsBefore : Option ℕ → Option ℕ → Type 0
IsBefore _ none = Unit {0}
IsBefore none (some b) = ⊥
IsBefore (some a) (some b) = a ≤ b

abbrev pub AreAscending : {A : Type 0} → (A → Option ℕ) → List A → Type 0
AreAscending key [] = Unit {0}
AreAscending key (x ∷ []) = Unit {0}
AreAscending key (x ∷ y ∷ xs) = IsBefore (key x) (key y) × AreAscending key (y ∷ xs)

-- What `ORDER BY ... ASC NULLS LAST` does: it permutes the rows and puts them in order.
pub record IsSorting (order_by : (TxRow → Option ℕ) → List TxRow → List TxRow) : Type 0 where
  pub permutes : (key : TxRow → Option ℕ) (rows : List TxRow) → Perm (order_by key rows) rows
  pub ascending :
      (key : TxRow → Option ℕ) (rows : List TxRow) → AreAscending key (order_by key rows)

module _ (formats : Formats) (outputs_of : Bytes → List OutputRow)
    (order_by : (TxRow → Option ℕ) → List TxRow → List TxRow) where
  -- What a list of transactions shows: the matching rows, sorted, and each with its outputs.
  pub record Shows (q : Query) (v_transactions : List TxRow) (txs : List WalletTx) : Type 0 where
    pub selected : List TxRow
    pub rows : List TxRow
    pub selects : Selects q v_transactions selected
    pub permutes : Perm rows selected
    pub ascending : AreAscending sort_height rows
    pub reads : collect_rows (transaction_of formats outputs_of) rows ≡ ok txs
