-- ===== src/AsyncOp/Names.antt =====
-- The names of the states.
use zallet.Prelude.{String, some, ◌≡◌, refl, ◌↔◌, arith, eq_iff}
use zallet.AsyncOp.{OperationState, ready, executing, cancelled, failed, success, parse, state_name}

parse-state_name : (t : OperationState) → parse (state_name t) ≡ some t
unfolding parse state_name
parse-state_name ready = refl
parse-state_name executing = refl
parse-state_name cancelled = refl
parse-state_name failed = refl
parse-state_name success = refl

-- A text is read as a state exactly if it is the name under which that state is reported.
pub parse_iff : (s : String) (t : OperationState) → (parse s ≡ some t) ↔ (s ≡ state_name t)
parse_iff s t = (
  λ h.
      unfold parse state_name in
      ground (
        arith,
        eq_iff s "queued",
        eq_iff s "executing",
        eq_iff s "cancelled",
        eq_iff s "failed",
        eq_iff s "success",
      ),
  λ h. rw h (parse-state_name t),
)
