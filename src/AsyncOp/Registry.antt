-- ===== src/AsyncOp/Registry.antt =====
-- The list of operations (zallet/src/components/json_rpc/methods.rs, `start_async`) and the
-- methods that read it (methods/get_operation.rs and methods/list_operation_ids.rs), each while
-- it holds the list's lock.
pub mod Results
pub mod Started
use zallet.Prelude.{
  String, str_eq, eq_iff, Option, none, some, Bool, true, false, not, ◌&&◌, ◌||◌, if◌then◌else◌,
  List, [], ◌∷◌, ◌++◌, Eq, contains, collect,
}
use zallet.AsyncOp.{
  OperationState, ready, executing, cancelled, failed, success, AsyncOperation, OperationStatus,
  to_status, parse,
}

instance abbrev pub string_eq : Eq String
string_eq = record { beq = str_eq; beq_iff = eq_iff }

abbrev pub is_empty {ℓ} : {A : Type ℓ} → List A → Bool
is_empty [] = true
is_empty (_ ∷ _) = false

-- `iter().filter(..)`.
abbrev pub filter_list {ℓ} : {A : Type ℓ} → (A → Bool) → List A → List A
filter_list p [] = []
filter_list p (x ∷ xs) = let rest = filter_list p xs in if p x then x ∷ rest else rest

-- `matches!(state, Success | Failed | Cancelled)`.
abbrev pub is_final : OperationState → Bool
is_final success = true
is_final failed = true
is_final cancelled = true
is_final _ = false

abbrev pub state_eq : OperationState → OperationState → Bool
state_eq ready ready = true
state_eq executing executing = true
state_eq cancelled cancelled = true
state_eq failed failed = true
state_eq success success = true
state_eq _ _ = false

abbrev pub parsed : Option String → Option (Option OperationState)
parsed none = none
parsed (some s) = some (parse s)

module _ {V : Type 0} where
  unfoldable pub start_async : List (AsyncOperation V) → AsyncOperation V → List (AsyncOperation V)
  start_async async_ops op = async_ops ++ op ∷ []

  abbrev pub requested : List String → AsyncOperation V → Bool
  requested filter op = is_empty filter || contains filter op.operation_id

  unfoldable pub filtered : List (AsyncOperation V) → List String → List (AsyncOperation V)
  filtered async_ops filter = filter_list (requested filter) async_ops

  abbrev pub statuses : List (AsyncOperation V) → List (OperationStatus V)
  statuses [] = []
  statuses (op ∷ ops) = to_status op ∷ statuses ops

  unfoldable pub status : List (AsyncOperation V) → List String → List (OperationStatus V)
  unfolding filtered
  status async_ops operationid = statuses (filtered async_ops (collect operationid))

  -- The loop of `result`: the statuses to return, and the identifiers to remove.
  unfoldable pub finished_from : List (AsyncOperation V) → List (OperationStatus V) × List String
  finished_from [] = ([], [])
  finished_from (op ∷ ops) =
      let (ret, remove) = finished_from ops in
      if is_final op.op_data.state
      then (to_status op ∷ ret, op.operation_id ∷ remove)
      else (ret, remove)

  -- `z_getoperationresult`: the statuses returned, and the operations kept.
  unfoldable pub result :
      List (AsyncOperation V) → List String → List (OperationStatus V) × List (AsyncOperation V)
  unfolding filtered finished_from
  result async_ops operationid =
      let (ret, remove) = finished_from (filtered async_ops (collect operationid)) in
      (ret, filter_list (λ op. not (contains remove op.operation_id)) async_ops)

  -- The outer option says whether to filter, the inner one whether the state is known.
  unfoldable pub list_from : Option (Option OperationState) → List (AsyncOperation V) → List String
  list_from state [] = []
  list_from none (op ∷ ops) = op.operation_id ∷ list_from none ops
  list_from (some none) (op ∷ ops) = list_from (some none) ops
  list_from (some (some t)) (op ∷ ops) =
      let rest = list_from (some (some t)) ops in
      if state_eq t op.op_data.state then op.operation_id ∷ rest else rest

  unfoldable pub list_operation_ids : List (AsyncOperation V) → Option String → List String
  unfolding list_from parse
  list_operation_ids async_ops status = list_from (parsed status) async_ops
