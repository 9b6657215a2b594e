-- ===== src/Keystore/Store/Rows.antt =====
-- The rows of a table with a unique column, and lookups behind an insertion.
use mathlib.Core.Path.{subst}
use zallet.Prelude.{
  same_iff, same, bytes_eq, Bytes, Bool, true, false, List, [], ◌∷◌, map, some, Bool-cases,
  contains, if◌then◌else◌, ◌≡◌, refl, arith, inl, inr,
}
use zallet.Keystore.Store.{Rows, insert_row, query_row}

abbrev pub keys_of : Rows → List Bytes
keys_of rows = map (λ (row : Bytes × Bytes). row.0) rows

module _ (P : Bytes → Bytes → Type 0) where
  abbrev pub EachRow : Rows → Type 0
  EachRow [] = Unit {0}
  EachRow ((k, v) ∷ rows) = P k v × EachRow rows

  pub EachRow-insert_row :
      (key value : Bytes) (rows : Rows)
      → P key value
      → EachRow rows
      → EachRow (insert_row key value rows)
  unfolding insert_row
  EachRow-insert_row key value [] p all = (p, tt)
  EachRow-insert_row key value ((k, v) ∷ rows) p (q, all) =
      elim (same k key)
        as (λ (b : Bool).
          EachRow (if b then (k, v) ∷ rows else (k, v) ∷ insert_row key value rows)) [
            | true ↦ (q, all)
            | false ↦ (q, EachRow-insert_row key value rows p all)
          ]

  pub EachRow-query_row :
      (key : Bytes) (rows : Rows)
      → EachRow rows
      → contains (keys_of rows) key ≡ true
      → (value : Bytes) × (query_row key rows ≡ some value) × P key value
  unfolding query_row contains
  EachRow-query_row key [] all h = cc
  EachRow-query_row key ((k, v) ∷ rows) (q, all) h = elim (Bool-cases (same k key)) [
    | inl e ↦ (v, rw e refl, subst (λ k. P k v) ((same_iff k key).0 e) q)
    | inr e ↦
        let (value, found, p) = EachRow-query_row key rows all (ground (arith, h, e)) in
        (value, rw e found, p)
  ]

pub query_row-insert_row :
    (key value k v : Bytes) (rows : Rows)
    → query_row k rows ≡ some v
    → query_row k (insert_row key value rows) ≡ some v
unfolding query_row insert_row
query_row-insert_row key value k v [] h = cc
query_row-insert_row key value k v ((k', v') ∷ rows) h =
    ground (arith, query_row-insert_row key value k v rows)

pub contains-insert_row :
    (key value : Bytes) (rows : Rows) → contains (keys_of (insert_row key value rows)) key ≡ true
unfolding contains insert_row
contains-insert_row key value [] = ground (arith, same_iff key key)
contains-insert_row key value ((k, v) ∷ rows) = ground (arith, contains-insert_row key value rows)
