-- ===== src/AsyncOp/Status.antt =====
-- What is true of an operation at every moment of its task, and of the status reported then.
use zallet.Prelude.{ℕ, none, some, ok, err, ◌≡◌, refl, ◌⊎◌, ◌↔◌, inl, inr, arith, suc}
use zallet.Prelude.Int.{pos}
use mathlib.Core.Path.{subst}
use zallet.Rpc.Error.{RpcError, RpcResult, internal_error}
use zallet.AsyncOp.{
  OperationState, ready, executing, cancelled, failed, success, SystemTime, OperationData,
  OperationStatus, AsyncOperation, initial_data, to_status,
}
use zallet.AsyncOp.Task.{
  Phase, spawned, awaiting, recording, ended, Run, launch, record_start, record_result, outcome,
  Step, start, finish, store, Reach, here, next,
}

-- The states that `z_getoperationresult` takes for finished.
abbrev pub IsFinal : OperationState → Type 0
IsFinal t = (t ≡ success) ⊎ (t ≡ failed) ⊎ (t ≡ cancelled)

abbrev some_error : RpcError
some_error = record { code = internal_error; message = "" }

module _ {V : Type 0} where
  started : SystemTime → OperationData V
  started t = record { state = executing; start_time = some t; end_time = none; result = none }

  completed : SystemTime → SystemTime → RpcResult V → OperationData V
  completed t u res = record {
    state = outcome res;
    start_time = some t;
    end_time = some u;
    result = some res;
  }

  -- The data of each phase, whole.
  abbrev Inv : Phase V → OperationData V → Type 0
  Inv spawned d = d ≡ initial_data
  Inv awaiting d = (t : SystemTime) × (d ≡ started t)
  Inv (recording res u) d = (t : SystemTime) × (d ≡ started t)
  Inv ended d = (t u : SystemTime) × (res : RpcResult V) × (d ≡ completed t u res)

  Step-Inv : {r s : Run V} → Step r s → Inv r.phase r.op_data → Inv s.phase s.op_data
  unfolding initial_data started completed record_start record_result
  Step-Inv (start d now) h = rw h (now, refl)
  Step-Inv (finish d res now) h = h
  Step-Inv (store d res u) (t, h) = (t, u, res, rw h)

  Reach-Inv : {r : Run V} → Reach launch r → Inv r.phase r.op_data
  unfolding launch
  Reach-Inv here = refl
  Reach-Inv (next reached step) = Step-Inv step (Reach-Inv reached)

  -- What the status of an operation in each state says.
  abbrev pub Describes : OperationState → OperationStatus V → Type 0
  Describes ready st = (st.error ≡ none) × (st.result ≡ none) × (st.execution_secs ≡ none)
  Describes executing st = (st.error ≡ none) × (st.result ≡ none) × (st.execution_secs ≡ none)
  Describes cancelled st = ⊥
  Describes failed st =
      (e : RpcError) × (st.error ≡ some e) × (st.result ≡ none) × (st.execution_secs ≡ none)
  Describes success st =
      (v : V) × (n : ℕ) × (st.error ≡ none) × (st.result ≡ some v) × (st.execution_secs ≡ some n)

  -- The status of `op` while its data are `d`.
  abbrev pub status_at : AsyncOperation V → OperationData V → OperationStatus V
  status_at op d = to_status (record op { op_data = d })

  completed-Describes :
      (op : AsyncOperation V) (t u : SystemTime) (res : RpcResult V)
      → Describes (outcome res) (status_at op (completed t u res))
  unfolding to_status completed
  completed-Describes op t u (ok v) = (v, _, refl, refl, refl)
  completed-Describes op t u (err e) = (e, refl, refl, refl)

  Inv-Describes :
      (p : Phase V) (op : AsyncOperation V) (d : OperationData V)
      → Inv p d
      → Describes (status_at op d).status (status_at op d)
  unfolding to_status initial_data started completed
  Inv-Describes spawned op d h = rw h (refl, refl, refl)
  Inv-Describes awaiting op d (t, h) = rw h (refl, refl, refl)
  Inv-Describes (recording res u) op d (t, h) = rw h (refl, refl, refl)
  Inv-Describes ended op d (t, u, res, h) = rw h (completed-Describes op t u res)

  IsFinal-ended : (p : Phase V) (d : OperationData V) → Inv p d → IsFinal d.state → p ≡ ended
  unfolding initial_data started
  IsFinal-ended spawned d h f = ground arith
  IsFinal-ended awaiting d (t, h) f = ground arith
  IsFinal-ended (recording res u) d (t, h) f = ground arith
  IsFinal-ended ended d h f = refl

  step-not_ended : {r s : Run V} → Step r s → r.phase ≡ ended → ⊥
  step-not_ended (start d now) e = cc
  step-not_ended (finish d res now) e = cc
  step-not_ended (store d res u) e = cc

  -- How many steps the task still takes.
  abbrev pub steps_left : Phase V → ℕ
  steps_left spawned = 3
  steps_left awaiting = 2
  steps_left (recording res u) = 1
  steps_left ended = 0

  ended-IsFinal : (d : OperationData V) → Inv ended d → IsFinal d.state
  unfolding completed
  ended-IsFinal d (t, u, ok v, h) = inl (ground arith)
  ended-IsFinal d (t, u, err e, h) = inr (inl (ground arith))

  stuck-ended :
      (p : Phase V) (d : OperationData V)
      → ((s : Run V) → Step (record { phase = p; op_data = d }) s → ⊥)
      → p ≡ ended
  stuck-ended spawned d h = absurd (h _ (start d (pos 0)))
  stuck-ended awaiting d h = absurd (h _ (finish d (err some_error) (pos 0)))
  stuck-ended (recording res u) d h = absurd (h _ (store d res u))
  stuck-ended ended d h = refl

  Reach-IsFinal_iff :
      {r : Run V} → Reach launch r → IsFinal r.op_data.state ↔ ((s : Run V) → Step r s → ⊥)
  Reach-IsFinal_iff {r} reached = (
    λ f s step. step-not_ended step (IsFinal-ended r.phase r.op_data (Reach-Inv reached) f),
    λ h.
        ended-IsFinal r.op_data
          (subst (λ p. Inv p r.op_data) (stuck-ended r.phase r.op_data h) (Reach-Inv reached)),
  )

  Step-steps_left_of_Inv :
      {r s : Run V}
      → Step r s
      → Inv r.phase r.op_data
      → steps_left r.phase ≡ suc (steps_left s.phase)
  unfolding initial_data record_start record_result
  Step-steps_left_of_Inv (start d now) h = rw h refl
  Step-steps_left_of_Inv (finish d res now) h = refl
  Step-steps_left_of_Inv (store d res u) h = refl

  -- At every moment of the task the status is never "cancelled", and it reports an error exactly
  -- when the operation failed, and a result with its execution time exactly when it succeeded. The
  -- task takes no further step exactly when its operation is in a final state, so a final state and
  -- its result stay as they are; and each step brings the task nearer to its end by exactly one, so
  -- it ends after the third. A panic of the operation itself is not modelled.
  pub Reach-Describes :
      {r : Run V} (op : AsyncOperation V)
      → Reach launch r
      → Describes (status_at op r.op_data).status (status_at op r.op_data)
        × (IsFinal r.op_data.state ↔ ((s : Run V) → Step r s → ⊥))
        × ((s : Run V) → Step r s → steps_left r.phase ≡ suc (steps_left s.phase))
  Reach-Describes {r} op reached = (
    Inv-Describes r.phase op r.op_data (Reach-Inv reached),
    Reach-IsFinal_iff reached,
    λ s step. Step-steps_left_of_Inv step (Reach-Inv reached),
  )
