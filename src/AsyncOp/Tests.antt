-- ===== src/AsyncOp/Tests.antt =====
-- The theorems on asynchronous operations, applied: an operation that succeeds, and a list of two.
use zallet.Prelude.{ℕ, suc, String, not, List, [], ◌∷◌, map, none, some, ok, ◌≡◌, ◌↔◌, refl}
use zallet.Prelude.Int.{pos}
use zallet.AsyncOp.{
  to_status, OperationState, failed, success, executing, AsyncOperation, OperationData, parse,
  state_name, new,
}
use zallet.AsyncOp.Task.{
  Run, launch, recording, ended, record_start, record_result, Step, start, finish, store, Reach,
  here, next,
}
use zallet.AsyncOp.Status.{IsFinal, Describes, status_at, steps_left, Reach-Describes}
use zallet.AsyncOp.Registry.{filter_list, statuses, status, result, list_operation_ids}
use zallet.AsyncOp.Registry.Results.{Distinct, finished, result_lem}
use zallet.AsyncOp.Registry.Started.{Reports, IsAskedFor, start_all, start_all-status}

abbrev begun : OperationData ℕ
begun = record { state = executing; start_time = some (pos 5); end_time = none; result = none }

abbrev over : Run ℕ
over = record {
  phase = ended;
  op_data = record {
    state = success;
    start_time = some (pos 5);
    end_time = some (pos 9);
    result = some (ok 42);
  };
}

almost : Run ℕ
almost = record { phase = recording (ok 42) (pos 9); op_data = begun }

almost-Reach : Reach launch almost
unfolding launch record_start almost zallet.AsyncOp.initial_data
almost-Reach = next (next here (start _ (pos 5))) (finish begun (ok 42) (pos 9))

last_step : Step almost over
unfolding record_result almost
last_step = store begun (ok 42) (pos 9)

over-Reach : Reach launch over
over-Reach = next almost-Reach last_step

abbrev operation : AsyncOperation ℕ
operation = record {
  operation_id = "opid-1";
  context = none;
  creation_time = pos 1;
  op_data = begun;
}

Reach-Describes_example :
    Describes (status_at operation almost.op_data).status (status_at operation almost.op_data)
    × (IsFinal almost.op_data.state ↔ ((s : Run ℕ) → Step almost s → ⊥))
    × ((s : Run ℕ) → Step almost s → steps_left almost.phase ≡ suc (steps_left s.phase))
Reach-Describes_example = Reach-Describes operation almost-Reach

-- One operation has finished, the other runs.
abbrev two_operations : List (AsyncOperation ℕ)
two_operations =
    record operation { operation_id = "opid-2"; op_data = over.op_data } ∷ operation ∷ []

two-Distinct : Distinct two_operations
two-Distinct = (refl, (refl, tt))

abbrev asked : List String
asked = "opid-1" ∷ "opid-2" ∷ "opid-1" ∷ []

result_lem_example : result two_operations asked ≡ (
  statuses (filter_list (finished asked) two_operations),
  filter_list (λ op. not (finished asked op)) two_operations,
)
result_lem_example = result_lem two_operations asked two-Distinct

start_all-status_example :
    Reports (IsAskedFor asked) to_status two_operations (status (start_all [] two_operations) asked)
    × Reports
        (λ op. "success" ≡ state_name op.op_data.state)
        (λ op. op.operation_id)
        two_operations
        (list_operation_ids (start_all [] two_operations) (some "success"))
    × (list_operation_ids (start_all [] two_operations) none
        ≡ map (λ op. op.operation_id) two_operations)
start_all-status_example = start_all-status two_operations asked "success"
