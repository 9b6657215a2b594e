-- ===== src/AsyncOp/Registry/Results.antt =====
-- What the methods return of the list of operations, and what they leave in it.
use zallet.Prelude.{
  String, str_eq, eq_iff, Option, none, some, Bool, true, false, not, ◌&&◌, ◌||◌, List, [], ◌∷◌,
  ◌≡◌, refl, arith, contains, collect, contains-collect, insert, Bool-cases, inl, inr, ◌∙◌, ap,
  Option-cases, map, ◌↔◌,
}
use zallet.AsyncOp.{OperationState, AsyncOperation, parse, state_name}
use zallet.AsyncOp.Names.{parse_iff}
use zallet.AsyncOp.Registry.{
  string_eq, is_empty, filter_list, is_final, state_eq, requested, filtered, statuses, status,
  finished_from, result, list_from, list_operation_ids,
}

is_empty-collect : (ids : List String) → is_empty (collect ids) ≡ is_empty ids
unfolding collect insert
is_empty-collect [] = refl
is_empty-collect (i ∷ ids) = elim (Bool-cases (contains (collect ids) i)) [
  | inl e ↦ rw (e, insert) (ground (arith, is_empty-collect ids))
  | inr e ↦ rw (e, insert) refl
]

state_eq_iff : (t u : OperationState) → (state_eq t u ≡ true) ↔ (t ≡ u)
state_eq_iff t u = ground arith

abbrev matches : Option OperationState → OperationState → Bool
matches none t = false
matches (some u) t = state_eq u t

matches-name : (s : String) (t : OperationState) → matches (parse s) t ≡ str_eq s (state_name t)
matches-name s t = elim (Option-cases (parse s)) [
  | inl e ↦ rw e (ground (arith, parse_iff s t, eq_iff s (state_name t), e))
  | inr (u, e) ↦ rw e (
      ground
        (arith, (parse_iff s u).0 e, parse_iff s t, e, eq_iff s (state_name t), state_eq_iff u t))
]

module _ {V : Type 0} where
  requested-collect :
      (ids : List String) (op : AsyncOperation V) → requested (collect ids) op ≡ requested ids op
  requested-collect ids op = rw (is_empty-collect ids, contains-collect op.operation_id ids)

  filter_list_eq :
      (p q : AsyncOperation V → Bool) (ops : List (AsyncOperation V))
      → ((op : AsyncOperation V) → p op ≡ q op)
      → filter_list p ops ≡ filter_list q ops
  filter_list_eq p q [] h = refl
  filter_list_eq p q (op ∷ ops) h = ground (arith, h op, filter_list_eq p q ops h)

  abbrev pub finished : List String → AsyncOperation V → Bool
  finished ids op = requested ids op && is_final op.op_data.state

  finished_from-statuses :
      (p : AsyncOperation V → Bool) (ops : List (AsyncOperation V))
      → (finished_from (filter_list p ops)).0
        ≡ statuses (filter_list (λ op. p op && is_final op.op_data.state) ops)
  unfolding finished_from
  finished_from-statuses p [] = refl
  finished_from-statuses p (op ∷ ops) = ground (arith, finished_from-statuses p ops)

  -- Some operation of the list has the identifier and satisfies the test.
  abbrev any_id : String → (AsyncOperation V → Bool) → List (AsyncOperation V) → Bool
  any_id k q [] = false
  any_id k q (op ∷ ops) = (q op && str_eq op.operation_id k) || any_id k q ops

  contains-removed :
      (k : String) (p : AsyncOperation V → Bool) (ops : List (AsyncOperation V))
      → contains (finished_from (filter_list p ops)).1 k
        ≡ any_id k (λ op. p op && is_final op.op_data.state) ops
  unfolding finished_from contains
  contains-removed k p [] = refl
  contains-removed k p (op ∷ ops) = ground (arith, contains-removed k p ops)

  -- No two operations share an identifier.
  abbrev pub Distinct : List (AsyncOperation V) → Type 0
  Distinct [] = Unit {0}
  Distinct (op ∷ ops) = (any_id op.operation_id (λ _. true) ops ≡ false) × Distinct ops

  any_id_none :
      (k : String) (q : AsyncOperation V → Bool) (ops : List (AsyncOperation V))
      → any_id k (λ _. true) ops ≡ false
      → any_id k q ops ≡ false
  any_id_none k q [] h = refl
  any_id_none k q (op ∷ ops) h = ground (arith, any_id_none k q ops)

  abbrev Agree : (p q : AsyncOperation V → Bool) → List (AsyncOperation V) → Type 0
  Agree p q [] = Unit {0}
  Agree p q (op ∷ ops) = (p op ≡ q op) × Agree p q ops

  filter_list-not_of_Agree :
      (p q : AsyncOperation V → Bool) (ops : List (AsyncOperation V))
      → Agree p q ops
      → filter_list (λ op. not (p op)) ops ≡ filter_list (λ op. not (q op)) ops
  filter_list-not_of_Agree p q [] h = refl
  filter_list-not_of_Agree p q (op ∷ ops) (h, hs) =
      rw h (ground (arith, filter_list-not_of_Agree p q ops hs))

  Agree-cons :
      (q : AsyncOperation V → Bool) (op : AsyncOperation V) (all ops : List (AsyncOperation V))
      → any_id op.operation_id (λ _. true) ops ≡ false
      → Agree (λ o. any_id o.operation_id q all) q ops
      → Agree (λ o. any_id o.operation_id q (op ∷ all)) q ops
  Agree-cons q op all [] h a = tt
  Agree-cons q op all (o ∷ ops) h (a, more) = (
    ground (arith, eq_iff op.operation_id o.operation_id, eq_iff o.operation_id op.operation_id),
    Agree-cons q op all ops (ground arith) more,
  )

  Distinct-Agree :
      (q : AsyncOperation V → Bool) (ops : List (AsyncOperation V))
      → Distinct ops
      → Agree (λ o. any_id o.operation_id q ops) q ops
  Distinct-Agree q [] d = tt
  Distinct-Agree q (op ∷ ops) (new, d) = (
    ground (arith, eq_iff op.operation_id op.operation_id, any_id_none op.operation_id q ops new),
    Agree-cons q op ops ops new (Distinct-Agree q ops d),
  )

  pub status_lem :
      (ops : List (AsyncOperation V)) (ids : List String)
      → status ops ids ≡ statuses (filter_list (requested ids) ops)
  unfolding status filtered
  status_lem ops ids = ap statuses (filter_list_eq _ _ ops (requested-collect ids))

  -- With distinct identifiers, `z_getoperationresult` returns the statuses of the operations that
  -- are asked for and finished, and takes exactly those out of the list.
  pub result_lem :
      (ops : List (AsyncOperation V)) (ids : List String)
      → Distinct ops
      → result ops ids
        ≡ (statuses (filter_list (finished ids) ops), filter_list (λ op. not (finished ids op)) ops)
  unfolding result filtered
  result_lem ops ids d = λ i. (returned i, kept i)
    where
      set : List String
      set = collect ids

      taken : AsyncOperation V → Bool
      taken op = requested set op && is_final op.op_data.state

      same : (op : AsyncOperation V) → taken op ≡ finished ids op
      same op = rw (requested-collect ids op)

      returned :
          (finished_from (filter_list (requested set) ops)).0
          ≡ statuses (filter_list (finished ids) ops)
      returned =
          finished_from-statuses (requested set) ops ∙ ap statuses (filter_list_eq _ _ ops same)

      kept :
          filter_list
            (λ op.
              not (contains (finished_from (filter_list (requested set) ops)).1 op.operation_id))
            ops
          ≡ filter_list (λ op. not (finished ids op)) ops
      kept =
          filter_list_eq _ _ ops
            (λ op. ap not (contains-removed op.operation_id (requested set) ops))
          ∙ filter_list-not_of_Agree _ _ ops (Distinct-Agree taken ops d)
          ∙ filter_list_eq _ _ ops (λ op. ap not (same op))

  abbrev ids_of : List (AsyncOperation V) → List String
  ids_of = map (λ op. op.operation_id)

  list_from-none : (ops : List (AsyncOperation V)) → list_from none ops ≡ ids_of ops
  unfolding list_from
  list_from-none [] = refl
  list_from-none (op ∷ ops) = rw (list_from-none ops)

  list_from-some :
      (o : Option OperationState) (s : String) (ops : List (AsyncOperation V))
      → ((t : OperationState) → matches o t ≡ str_eq s (state_name t))
      → list_from (some o) ops
        ≡ ids_of (filter_list (λ op. str_eq s (state_name op.op_data.state)) ops)
  unfolding list_from
  list_from-some none s [] h = refl
  list_from-some (some t) s [] h = refl
  list_from-some none s (op ∷ ops) h = rw (← h op.op_data.state) (list_from-some none s ops h)
  list_from-some (some t) s (op ∷ ops) h =
      ground (arith, h op.op_data.state, list_from-some (some t) s ops h)

  pub list_operation_ids_lem :
      (ops : List (AsyncOperation V)) (s : String)
      → (list_operation_ids ops (some s)
          ≡ map
              (λ op. op.operation_id)
              (filter_list (λ op. str_eq s (state_name op.op_data.state)) ops))
        × (list_operation_ids ops none ≡ map (λ op. op.operation_id) ops)
  unfolding list_operation_ids
  list_operation_ids_lem ops s =
      (list_from-some (parse s) s ops (matches-name s), list_from-none ops)
