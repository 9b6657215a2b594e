-- ===== src/AsyncOp/Registry/Started.antt =====
-- What the methods report of operations that were started one after the other.
use zallet.Prelude.{
  String, eq_iff, str_eq, true, List, [], ◌∷◌, ◌++◌, map, contains, none, some, Bool, Bool-cases,
  ◌≡◌, ◌↔◌, ◌⊎◌, inl, inr, refl, arith, ap, sym, ◌∙◌,
}
use zallet.AsyncOp.{AsyncOperation, to_status, state_name}
use zallet.AsyncOp.Registry.{
  string_eq, filter_list, is_empty, requested, statuses, start_async, status, list_operation_ids,
}
use zallet.AsyncOp.Registry.Results.{status_lem, list_operation_ids_lem}

-- The identifier is one of those given.
abbrev pub IsIn : String → List String → Type 0
IsIn id [] = ⊥
IsIn id (i ∷ ids) = (i ≡ id) ⊎ IsIn id ids

contains_iff : (id : String) (ids : List String) → (contains ids id ≡ true) ↔ IsIn id ids
unfolding contains
contains_iff id [] = ground arith
contains_iff id (i ∷ ids) = ground (arith, eq_iff i id, contains_iff id ids)

is_empty_iff : (ids : List String) → (is_empty ids ≡ true) ↔ (ids ≡ [])
is_empty_iff [] = (λ h. refl, λ h. refl)
is_empty_iff (i ∷ ids) = (λ h. cc h, λ h. cc h)

module _ {V : Type 0} where
  -- The operations that satisfy a condition, in their order, each by what is shown of it; and no others.
  pub data Reports {B : Type 0} (P : AsyncOperation V → Type 0) (shown : AsyncOperation V → B)
      : List (AsyncOperation V) → List B → Type 0 where
    at_end : Reports P shown [] []
    reported :
        (op : AsyncOperation V) (ops : List (AsyncOperation V)) (bs : List B)
        → P op
        → Reports P shown ops bs
        → Reports P shown (op ∷ ops) (shown op ∷ bs)
    left_out :
        (op : AsyncOperation V) (ops : List (AsyncOperation V)) (bs : List B)
        → ¬ P op
        → Reports P shown ops bs
        → Reports P shown (op ∷ ops) bs

  filter_list-Reports :
      {B : Type 0} (P : AsyncOperation V → Type 0) (shown : AsyncOperation V → B)
      (p : AsyncOperation V → Bool) (ops : List (AsyncOperation V))
      → ((op : AsyncOperation V) → (p op ≡ true) ↔ P op)
      → Reports P shown ops (map shown (filter_list p ops))
  filter_list-Reports P shown p [] h = at_end
  filter_list-Reports P shown p (op ∷ ops) h = elim (Bool-cases (p op)) [
    | inl e ↦ rw e (reported op ops _ ((h op).0 e) (filter_list-Reports P shown p ops h))
    | inr e ↦
        rw e (left_out op ops _ (λ x. cc ((h op).1 x, e)) (filter_list-Reports P shown p ops h))
  ]

  statuses-map : (ops : List (AsyncOperation V)) → statuses ops ≡ map to_status ops
  statuses-map [] = refl
  statuses-map (op ∷ ops) = ap (λ l. to_status op ∷ l) (statuses-map ops)

  -- Calls of `start_async`, the first operation first.
  abbrev pub start_all : List (AsyncOperation V) → List (AsyncOperation V) → List (AsyncOperation V)
  start_all async_ops [] = async_ops
  start_all async_ops (op ∷ ops) = start_all (start_async async_ops op) ops

  append_assoc : (xs ys zs : List (AsyncOperation V)) → (xs ++ ys) ++ zs ≡ xs ++ (ys ++ zs)
  append_assoc [] ys zs = refl
  append_assoc (x ∷ xs) ys zs = ap (λ l. x ∷ l) (append_assoc xs ys zs)

  append_nil : (xs : List (AsyncOperation V)) → xs ++ [] ≡ xs
  append_nil [] = refl
  append_nil (x ∷ xs) = ap (λ l. x ∷ l) (append_nil xs)

  start_all-append :
      (async_ops ops : List (AsyncOperation V)) → start_all async_ops ops ≡ async_ops ++ ops
  unfolding start_async
  start_all-append async_ops [] = sym (append_nil async_ops)
  start_all-append async_ops (op ∷ ops) =
      start_all-append (async_ops ++ op ∷ []) ops ∙ append_assoc async_ops (op ∷ []) ops

  -- The operation is asked for by its identifier, or none is named.
  abbrev pub IsAskedFor : List String → AsyncOperation V → Type 0
  IsAskedFor ids op = (ids ≡ []) ⊎ IsIn op.operation_id ids

  requested_iff :
      (ids : List String) (op : AsyncOperation V) → (requested ids op ≡ true) ↔ IsAskedFor ids op
  requested_iff ids op = ground (arith, is_empty_iff ids, contains_iff op.operation_id ids)

  -- If start_async has put operations on an empty list, one after the other, and none was taken out since:
  -- z_getoperationstatus reports the statuses of exactly the operations that are asked for, all if none is named, in
  -- the order in which they were started. In that order z_listoperationids lists exactly the operations whose state is
  -- reported under the name given, so none for an unknown name; with no name given it lists all.
  pub start_all-status :
      (started : List (AsyncOperation V)) (ids : List String) (s : String)
      → Reports (IsAskedFor ids) to_status started (status (start_all [] started) ids)
        × Reports
            (λ op. s ≡ state_name op.op_data.state)
            (λ op. op.operation_id)
            started
            (list_operation_ids (start_all [] started) (some s))
        × (list_operation_ids (start_all [] started) none ≡ map (λ op. op.operation_id) started)
  start_all-status started ids s =
      let (named, all) = list_operation_ids_lem started s in
      rw (start_all-append [] started) (
        rw (status_lem started ids, statuses-map (filter_list (requested ids) started))
            (filter_list-Reports _ to_status (requested ids) started (requested_iff ids)),
        rw named (
            filter_list-Reports _ (λ op. op.operation_id)
              (λ op. str_eq s (state_name op.op_data.state)) started
              (λ op. eq_iff s (state_name op.op_data.state))),
        all,
      )
