-- ===== src/Sending.antt =====
-- The limit on Orchard actions (zallet/src/components/json_rpc/methods/z_send_many.rs), on the proposal
-- steps of `Privacy/Proposal`. The error message's parts stand for the message.
pub mod Limits
pub mod Recipients
mod Tests
use zallet.Prelude.{ℕ, suc, ◌+◌, max, Bool, List, [], ◌∷◌, Result, ok, err, if◌then◌else◌, ltb, leb}
use zallet.Privacy.Proposal.{PoolType, orchard, pool_eq, Step}

unfoldable pub count_orchard : List PoolType → ℕ
count_orchard [] = 0
count_orchard (pool ∷ pools) =
    let rest = count_orchard pools in if pool_eq pool orchard then suc rest else rest

pub data ExcessKind : Type 0 where
  inputs outputs actions : ExcessKind

-- The count and the kind that the message names.
unfoldable pub excess : ℕ → ℕ → ℕ → ℕ × ExcessKind
excess limit spends outs =
    if leb outs limit
    then (spends, inputs)
    else if leb spends limit
    then (outs, outputs)
    else (max spends outs, actions)

module _ {A : Type 0} where
  unfoldable pub orchard_spends : Step A → ℕ
  orchard_spends step = count_orchard step.shielded_notes

  unfoldable pub orchard_outputs : Step A → ℕ
  orchard_outputs step = count_orchard step.payment_pools + count_orchard step.proposed_change

  unfoldable pub check_orchard_actions : ℕ → List (Step A) → Result (ℕ × ExcessKind) (Unit {0})
  check_orchard_actions limit [] = ok tt
  check_orchard_actions limit (step ∷ steps) =
      let rest = check_orchard_actions limit steps in
      if ltb limit (max (orchard_spends step) (orchard_outputs step))
      then err (excess limit (orchard_spends step) (orchard_outputs step))
      else rest
