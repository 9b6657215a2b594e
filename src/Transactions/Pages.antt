-- ===== src/Transactions/Pages.antt =====
-- Reading a list of transactions page by page.
use mathlib.Core.List.Perm
use zallet.Prelude.{
  ℕ, zero, suc, ◌+◌, ◌*◌, List, [], ◌∷◌, ◌++◌, Option, none, some, Result, ok, ok_injective, ◌>>=◌,
  bind-ok, take, drop, Bytes, ◌≡◌, refl, arith, ap, sym, ◌∙◌,
}
use zallet.Transactions.{TxRow, OutputRow, WalletTx, Corrupted, Formats, collect_rows}
use zallet.Transactions.Filter.{IsSorting}
use zallet.Transactions.Sorting.{HasNoTies, AreAscending-unique}
use zallet.Transactions.Query.{
  Query, keeps, rows_where, sort_height, page, transaction_of, query_transactions,
}

module _ {A : Type 0} where
  take-nil : (n : ℕ) → ◌≡◌ {A = List A} (take n []) []
  take-nil zero = refl
  take-nil (suc n) = refl

  append-take-drop : (m n : ℕ) (xs : List A) → take m xs ++ take n (drop m xs) ≡ take (m + n) xs
  append-take-drop zero n xs = let e : n ≡ 0 + n = omega arith in ap (λ (k : ℕ). take k xs) e
  append-take-drop (suc m) n [] = take-nil n ∙ sym (take-nil (suc m + n))
  append-take-drop (suc m) n (x ∷ xs) =
      let e : suc (m + n) ≡ suc m + n = omega arith in
      ap (λ l. x ∷ l) (append-take-drop m n xs) ∙ ap (λ (k : ℕ). take k (x ∷ xs)) e

module _ {E A B : Type 0} (f : A → Result E B) where
  collect_rows-cons :
      (x : A) (xs : List A) (ys : List B)
      → collect_rows f (x ∷ xs) ≡ ok ys
      → (z : B) × (zs : List B) × (f x ≡ ok z) × (collect_rows f xs ≡ ok zs) × (z ∷ zs ≡ ys)
  unfolding collect_rows
  collect_rows-cons x xs ys h =
      let (z, e, h1) = bind-ok (f x) _ _ h in
      let (zs, e', h2) = bind-ok (collect_rows f xs) _ _ h1 in (z, zs, e, e', ok_injective _ ys h2)

  collect_rows-take :
      (n : ℕ) (xs : List A) (ys : List B)
      → collect_rows f xs ≡ ok ys
      → collect_rows f (take n xs) ≡ ok (take n ys)
  unfolding collect_rows
  collect_rows-take zero xs ys h = refl
  collect_rows-take (suc n) [] ys h = ap (λ l. ok (take (suc n) l)) (ok_injective [] ys h)
  collect_rows-take (suc n) (x ∷ xs) ys h =
      let (z, zs, e, e', s) = collect_rows-cons x xs ys h in
      rw (e, collect_rows-take n xs zs e') (ap (λ l. ok (take (suc n) l)) s)

  collect_rows-drop :
      (n : ℕ) (xs : List A) (ys : List B)
      → collect_rows f xs ≡ ok ys
      → collect_rows f (drop n xs) ≡ ok (drop n ys)
  unfolding collect_rows
  collect_rows-drop zero xs ys h = h
  collect_rows-drop (suc n) [] ys h = ap (λ l. ok (drop (suc n) l)) (ok_injective [] ys h)
  collect_rows-drop (suc n) (x ∷ xs) ys h =
      let (z, zs, e, e', s) = collect_rows-cons x xs ys h in rw (← s) (collect_rows-drop n xs zs e')

module _ (formats : Formats) (outputs_of : Bytes → List OutputRow)
    (order_by : ℕ → (TxRow → Option ℕ) → List TxRow → List TxRow) (account_uuid : Option Bytes)
    (start_height end_height : Option ℕ) (v_transactions : List TxRow) where
  -- The query with this offset and limit.
  abbrev pub query_at : Option ℕ → Option ℕ → Query
  query_at offset limit = record {
    account_uuid = account_uuid;
    start_height = start_height;
    end_height = end_height;
    offset = offset;
    limit = limit;
  }

  -- The rows of the view that the query lists.
  abbrev pub matching : List TxRow
  matching = rows_where (keeps (query_at none none)) v_transactions

  -- The first `n` pages of a size, put together; each page is a query of its own, which sorts in its own way.
  abbrev pub pages : ℕ → ℕ → Result Corrupted (List WalletTx)
  pages size zero = ok []
  pages size (suc n) = do
    before ← pages size n
    txs ←
        query_transactions formats outputs_of (order_by n) (query_at (some (n * size)) (some size))
          v_transactions
    ok (before ++ txs)

  module _ (sorting : (n : ℕ) → IsSorting (order_by n)) (apart : HasNoTies sort_height matching)
      (order : (TxRow → Option ℕ) → List TxRow → List TxRow) (sorts : IsSorting order) where
    same_order : (n : ℕ) → order_by n sort_height matching ≡ order sort_height matching
    same_order n =
        let law = sorting n in
        let mine = law.permutes sort_height matching in
        AreAscending-unique sort_height (order_by n sort_height matching)
          (order sort_height matching) (law.ascending sort_height matching)
          (sorts.ascending sort_height matching)
          (Perm.trans mine (Perm.symm (sorts.permutes sort_height matching)))
          (λ x y a b e. apart x y ((Perm.mem_iff mine).0 a) ((Perm.mem_iff mine).0 b) e)

    one_page :
        (n : ℕ) (txs : List WalletTx) (offset limit : ℕ)
        → query_transactions formats outputs_of order (query_at none none) v_transactions ≡ ok txs
        → query_transactions formats outputs_of
            (order_by n)
            (query_at (some offset) (some limit))
            v_transactions
          ≡ ok (take limit (drop offset txs))
    unfolding query_transactions page keeps
    one_page n txs offset limit h =
        let rows = order sort_height matching in
        let read = transaction_of formats outputs_of in
        ap (λ sorted. collect_rows read (take limit (drop offset sorted))) (same_order n)
        ∙ collect_rows-take read limit (drop offset rows) (drop offset txs)
            (collect_rows-drop read offset rows txs h)

    -- If each query sorts the rows that it lists, in an order of its own where the sort heights leave it one, and rows
    -- that are listed with the same sort height are the same: if the query with no offset and no limit returns
    -- transactions, then pages of any size, read one after the other while the view stays as it is, are put together
    -- the beginning of that list, with nothing twice and nothing left out.
    pub query_transactions-pages :
        (txs : List WalletTx) (size n : ℕ)
        → query_transactions formats outputs_of order (query_at none none) v_transactions ≡ ok txs
        → pages size n ≡ ok (take (n * size) txs)
    query_transactions-pages txs size zero h =
        let e : 0 ≡ 0 * size = omega arith in ap (λ (k : ℕ). ok (take k txs)) e
    query_transactions-pages txs size (suc n) h =
        let e : n * size + size ≡ suc n * size = grind arith in
        rw (query_transactions-pages txs size n h, one_page n txs (n * size) size h)
          (ap ok (append-take-drop (n * size) size txs ∙ ap (λ (k : ℕ). take k txs) e))
