-- ===== src/Transactions/Tests.antt =====
-- The theorems on the list of transactions, applied: two rows, of which one is mined in the range.
use mathlib.Core.List.Perm
use mathlib.Core.List.{Perm, Mem, eq-or-mem_of_mem-cons, not-mem-nil}
use mathlib.Core.Logic.Or
use zallet.Prelude.{
  ℕ, true, false, Bool, List, [], ◌∷◌, Option, none, some, ok, replicate, take, ◌*◌, ◌≡◌, refl, ap,
  sym, ◌∙◌, arith, leb, Bool-cases, inl, inr, if◌then◌else◌,
}
use zallet.Prelude.Int.{ℤ, pos}
use zallet.Transactions.{TxRow, WalletTx, Formats, collect_rows, from_parts}
use zallet.Transactions.Query.{Query, keeps, rows_where, sort_height, query_transactions}
use zallet.Transactions.Filter.{AreAscending, IsSorting, IsBefore}
use zallet.Transactions.Sorting.{HasNoTies}
use zallet.Transactions.Pages.{matching, pages, query_transactions-pages}

-- Sorting by insertion.
module _ (key : TxRow → Option ℕ) where
  abbrev goes_before : Option ℕ → Option ℕ → Bool
  goes_before _ none = true
  goes_before none (some b) = false
  goes_before (some a) (some b) = leb a b

  insert_in_order : TxRow → List TxRow → List TxRow
  insert_in_order x [] = x ∷ []
  insert_in_order x (y ∷ ys) =
      let rest = insert_in_order x ys in
      if goes_before (key x) (key y) then x ∷ y ∷ ys else y ∷ rest

  sort : List TxRow → List TxRow
  sort [] = []
  sort (x ∷ xs) = insert_in_order x (sort xs)

  insert_in_order-perm : (x : TxRow) (ys : List TxRow) → Perm (insert_in_order x ys) (x ∷ ys)
  unfolding insert_in_order
  insert_in_order-perm x [] = Perm.refl (x ∷ [])
  insert_in_order-perm x (y ∷ ys) = elim (Bool-cases (goes_before (key x) (key y))) [
    | inl e ↦ rw e (Perm.refl (x ∷ y ∷ ys))
    | inr e ↦ rw e (Perm.trans (Perm.cons y (insert_in_order-perm x ys)) (Perm.swap x y ys))
  ]

  sort-perm : (xs : List TxRow) → Perm (sort xs) xs
  unfolding sort
  sort-perm [] = Perm.refl []
  sort-perm (x ∷ xs) = Perm.trans (insert_in_order-perm x (sort xs)) (Perm.cons x (sort-perm xs))

  test→IsBefore : (a b : Option ℕ) → goes_before a b ≡ true → IsBefore a b
  test→IsBefore none none h = tt
  test→IsBefore (some a) none h = tt
  test→IsBefore none (some b) h = cc h
  test→IsBefore (some a) (some b) h = ground arith

  not_test→IsBefore : (a b : Option ℕ) → goes_before a b ≡ false → IsBefore b a
  not_test→IsBefore none none h = tt
  not_test→IsBefore (some a) none h = cc h
  not_test→IsBefore none (some b) h = tt
  not_test→IsBefore (some a) (some b) h = ground arith

  insert_in_order-AreAscending :
      (x : TxRow) (ys : List TxRow) → AreAscending key ys → AreAscending key (insert_in_order x ys)
  unfolding insert_in_order
  insert_in_order-AreAscending x [] h = tt
  insert_in_order-AreAscending x (y ∷ []) h = elim (Bool-cases (goes_before (key x) (key y))) [
    | inl e ↦ rw e (test→IsBefore (key x) (key y) e, tt)
    | inr e ↦ rw e (not_test→IsBefore (key x) (key y) e, tt)
  ]
  insert_in_order-AreAscending x (y ∷ z ∷ ys) h = elim (Bool-cases (goes_before (key x) (key y))) [
    | inl e ↦ rw e (test→IsBefore (key x) (key y) e, h)
    | inr e ↦ rw e (elim (Bool-cases (goes_before (key x) (key z))) [
      | inl f ↦ rw f (not_test→IsBefore (key x) (key y) e, (test→IsBefore (key x) (key z) f, h.1))
      | inr f ↦ rw f (h.0, rw f at (insert_in_order-AreAscending x (z ∷ ys) h.1))
    ])
  ]

  sort-AreAscending : (xs : List TxRow) → AreAscending key (sort xs)
  unfolding sort
  sort-AreAscending [] = tt
  sort-AreAscending (x ∷ xs) = insert_in_order-AreAscending x (sort xs) (sort-AreAscending xs)

sort-IsSorting : IsSorting sort
sort-IsSorting = record { permutes = sort-perm; ascending = sort-AreAscending }

abbrev formats : Formats
formats = record {
  parse_uuid = λ s. none;
  uuid_text = λ b. "account";
  txid_text = λ b. "tx";
  zatoshis_from_nonnegative_i64 = λ z. none;
  zatoshis_from_u64 = λ n. some n;
  zat_balance_from_i64 = λ z. some z;
  memo_from_bytes = λ b. none;
  hex_encode = λ b. "";
  format_timestamp = λ t. none;
  error_text = λ e. "";
}

-- A transaction of which only the height plays a part.
abbrev row_at : Option ℕ → TxRow
row_at height = record {
  account_uuid = replicate 16 1;
  mined_height = height;
  txid = replicate 32 2;
  expiry_height = some 0;
  account_balance_delta = pos 5;
  fee_paid = none;
  sent_note_count = 1;
  received_note_count = 0;
  block_time = none;
  expired_unmined = false;
}

abbrev tx_at : Option ℕ → WalletTx
tx_at height = record {
  account_uuid = "account";
  mined_height = height;
  txid = "tx";
  expiry_height = some 0;
  account_balance_delta = pos 5;
  fee_paid = none;
  sent_note_count = 1;
  received_note_count = 0;
  block_time = none;
  block_datetime = none;
  expired_unmined = false;
  outputs = [];
}

abbrev rows : List TxRow
rows = row_at none ∷ row_at (some 7) ∷ row_at (some 3) ∷ []

-- From height 5 on.
abbrev from_five : Query
from_five = record {
  account_uuid = none;
  start_height = some 5;
  end_height = none;
  offset = none;
  limit = none;
}

listed :
    query_transactions formats (λ txid. []) sort from_five rows
    ≡ ok (tx_at (some 7) ∷ tx_at none ∷ [])
unfolding query_transactions sort insert_in_order collect_rows from_parts
listed = refl

ℤ-IsSet : IsSet ℤ
ℤ-IsSet = hlevel

TxRow-IsSet : IsSet TxRow
TxRow-IsSet = hlevel

abbrev from_five_rows : List TxRow
from_five_rows = row_at none ∷ row_at (some 7) ∷ []

matching_rows : matching formats (λ txid. []) (λ n. sort) none (some 5) none rows ≡ from_five_rows
unfolding rows_where keeps
matching_rows = refl

row_of_height : (x : TxRow) → Mem x from_five_rows → x ≡ row_at (sort_height x)
unfolding sort_height
row_of_height x m =
    Or.elim (TxRow-IsSet x _) (eq-or-mem_of_mem-cons m) (λ e. rw e refl)
      (λ n.
        Or.elim (TxRow-IsSet x _) (eq-or-mem_of_mem-cons n) (λ e. rw e refl)
          (λ k. absurd (not-mem-nil k)))

from_five-HasNoTies :
    HasNoTies sort_height (matching formats (λ txid. []) (λ n. sort) none (some 5) none rows)
from_five-HasNoTies =
    rw matching_rows (λ x y m n e. row_of_height x m ∙ (ap row_at e ∙ sym (row_of_height y n)))

query_transactions-pages_example :
    pages formats (λ txid. []) (λ n. sort) none (some 5) none rows 1 2
    ≡ ok (take (2 * 1) (tx_at (some 7) ∷ tx_at none ∷ []))
query_transactions-pages_example =
    query_transactions-pages formats (λ txid. []) (λ n. sort) none (some 5) none rows
      (λ n. sort-IsSorting) from_five-HasNoTies sort sort-IsSorting
      (tx_at (some 7) ∷ tx_at none ∷ []) 1 2 listed
