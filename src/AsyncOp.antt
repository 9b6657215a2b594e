-- ===== src/AsyncOp.antt =====
-- Asynchronous operations launched by an RPC call (zallet/src/components/json_rpc/asyncop.rs).
-- Times are nanoseconds relative to the Unix epoch. The JSON values of parameters and results,
-- the validity test of UUIDs and the generated UUIDs are parameters.
pub mod Names
pub mod Task
pub mod Status
pub mod Registry
mod Tests
use zallet.Prelude.{
  ℕ, ◌/◌, String, str_append, str_eq, Option, none, some, Bool, true, false, if◌then◌else◌, Result,
  ok, err, ok_or,
}
use zallet.Prelude.Int.{ℤ, pos, negsuc, ◌-ℤ◌}
use zallet.Rpc.Error.{RpcError, RpcResult, with_static, invalid_parameter}

-- `OperationId::new` and `try_from`: `strip` is `str::strip_prefix`, `is_uuid` is
-- `Uuid::try_parse(..).is_ok()`.
unfoldable pub new_id : String → String
new_id uuid = str_append "opid-" uuid

unfoldable pub try_from :
    (strip : String → String → Option String) (is_uuid : String → Bool) → String → RpcResult String
try_from strip is_uuid value = elim (strip value "opid-") [
  | none ↦ err (with_static invalid_parameter "Invalid operation ID")
  | some uuid ↦
      if is_uuid uuid then ok value else err (with_static invalid_parameter "Invalid operation ID")
]

pub data OperationState : Type 0 where
  ready executing cancelled failed success : OperationState

unfoldable pub parse : String → Option OperationState
parse s =
    if str_eq s "queued"
    then some ready
    else if str_eq s "executing"
    then some executing
    else if str_eq s "cancelled"
    then some cancelled
    else if str_eq s "failed"
    then some failed
    else if str_eq s "success"
    then some success
    else none

-- `From<OperationState> for &'static str`.
unfoldable pub state_name : OperationState → String
state_name ready = "queued"
state_name executing = "executing"
state_name cancelled = "cancelled"
state_name failed = "failed"
state_name success = "success"

abbrev pub SystemTime : Type 0
SystemTime = ℤ

-- `later.duration_since(earlier).ok()`, in nanoseconds.
unfoldable pub duration_since : SystemTime → SystemTime → Option ℕ
unfolding ◌-ℤ◌
duration_since later earlier = elim (later -ℤ earlier) [ pos n ↦ some n | negsuc _ ↦ none ]

abbrev pub nanos_per_sec : ℕ
nanos_per_sec = 1000000000

-- `.map(|d| d.as_secs()).unwrap_or(0)`.
unfoldable pub secs_or_zero : Option ℕ → ℕ
secs_or_zero none = 0
secs_or_zero (some n) = n / nanos_per_sec

-- `data.end_time.zip(data.start_time).map(..)`.
unfoldable pub elapsed : Option SystemTime → Option SystemTime → Option ℕ
unfolding secs_or_zero duration_since
elapsed (some end_) (some start) = some (secs_or_zero (duration_since end_ start))
elapsed none _ = none
elapsed _ none = none

module _ (V : Type 0) where
  pub record ContextInfo : Type 0 where
    pub method : String
    pub params : V

  pub record OperationData : Type 0 where
    pub state : OperationState
    pub start_time : Option SystemTime
    pub end_time : Option SystemTime
    pub result : Option (RpcResult V)

  -- The operation, with the data that its lock guards.
  pub record AsyncOperation : Type 0 where
    pub operation_id : String
    pub context : Option ContextInfo
    pub creation_time : SystemTime
    pub op_data : OperationData

  -- An error object also has optional data, which no error of the wallet carries.
  pub record OperationStatus : Type 0 where
    pub id : String
    pub method : Option String
    pub params : Option V
    pub status : OperationState
    pub creation_time : ℕ
    pub error : Option RpcError
    pub result : Option V
    pub execution_secs : Option ℕ

module _ {V : Type 0} where
  unfoldable pub initial_data : OperationData V
  initial_data = record { state = ready; start_time = none; end_time = none; result = none }

  -- What `AsyncOperation::new` returns; the task that it spawns is in `Task`.
  unfoldable pub new : String → Option (ContextInfo V) → SystemTime → AsyncOperation V
  unfolding new_id initial_data
  new uuid context now = record {
    operation_id = new_id uuid;
    context = context;
    creation_time = now;
    op_data = initial_data;
  }

  abbrev pub context_method : Option (ContextInfo V) → Option String
  context_method none = none
  context_method (some c) = some c.method

  abbrev pub context_params : Option (ContextInfo V) → Option V
  context_params none = none
  context_params (some c) = some c.params

  abbrev pub error_of : Option (RpcResult V) → Option RpcError
  error_of none = none
  error_of (some (err e)) = some e
  error_of (some (ok v)) = none

  abbrev pub result_of : Option (RpcResult V) → Option V
  result_of none = none
  result_of (some (err e)) = none
  result_of (some (ok v)) = some v

  abbrev pub execution_secs_of : OperationData V → Option (RpcResult V) → Option ℕ
  execution_secs_of d none = none
  execution_secs_of d (some (err e)) = none
  execution_secs_of d (some (ok v)) = elapsed d.end_time d.start_time

  unfoldable pub to_status : AsyncOperation V → OperationStatus V
  unfolding elapsed secs_or_zero duration_since
  to_status op = record {
    id = op.operation_id;
    method = context_method op.context;
    params = context_params op.context;
    status = op.op_data.state;
    creation_time = secs_or_zero (duration_since op.creation_time (pos 0));
    error = error_of op.op_data.result;
    result = result_of op.op_data.result;
    execution_secs = execution_secs_of op.op_data op.op_data.result;
  }
