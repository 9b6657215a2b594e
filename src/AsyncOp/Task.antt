-- ===== src/AsyncOp/Task.antt =====
-- The task that an operation spawns, as a step relation: each step is one stretch of the task
-- between two points where it waits for the lock or for the future.
use zallet.Prelude.{some, ok, err}
use zallet.Rpc.Error.{RpcResult}
use zallet.AsyncOp.{
  OperationState, executing, cancelled, failed, success, SystemTime, OperationData, initial_data,
}

-- Where the task stands: waiting for the lock before its start, for the future, or for the lock
-- to record the result and the time at which it came; or done.
pub data Phase (V : Type 0) : Type 0 where
  spawned awaiting ended : Phase V
  recording : RpcResult V → SystemTime → Phase V

pub record Run (V : Type 0) : Type 0 where
  pub phase : Phase V
  pub op_data : OperationData V

module _ {V : Type 0} where
  unfoldable pub launch : Run V
  launch = record { phase = spawned; op_data = initial_data }

  -- "Record that the task has started", unless it was cancelled before.
  unfoldable pub record_start : OperationData V → SystemTime → Run V
  record_start d now = elim d.state [
    | cancelled ↦ record { phase = ended; op_data = d }
    | _ ↦ record {
      phase = awaiting;
      op_data = record d { state = executing; start_time = some now };
    }
  ]

  abbrev pub outcome : RpcResult V → OperationState
  outcome (ok v) = success
  outcome (err e) = failed

  -- "Record the result".
  unfoldable pub record_result : OperationData V → RpcResult V → SystemTime → Run V
  record_result d res end_ = record {
    phase = ended;
    op_data = record d { state = outcome res; end_time = some end_; result = some res };
  }

  pub data Step : Run V → Run V → Type 0 where
    start :
        (d : OperationData V) (now : SystemTime)
        → Step (record { phase = spawned; op_data = d }) (record_start d now)
    finish :
        (d : OperationData V) (res : RpcResult V) (now : SystemTime)
        → Step
            (record { phase = awaiting; op_data = d })
            (record { phase = recording res now; op_data = d })
    store :
        (d : OperationData V) (res : RpcResult V) (end_ : SystemTime)
        → Step (record { phase = recording res end_; op_data = d }) (record_result d res end_)

  pub data Reach (r : Run V) : Run V → Type 0 where
    here : Reach r r
    next : {s t : Run V} → Reach r s → Step s t → Reach r t
