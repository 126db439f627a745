-- ===== src/Evidence/Contract/Whole.antt =====
-- The whole of `validate_v2_receipt_contract`, on the rows of a store: the task contract, the
-- decision contract, then the lifecycle.
pub mod Tasks
mod Tests
use torq_cli_python.Prelude.{Bool, Option, none, some, List, [], ◌∷◌, map, if◌then◌else◌}
use torq_cli_python.Dict.{Dict, lookup}
use torq_cli_python.Json.{Value, str, Fields, get, has}
use torq_cli_python.Evidence.Names.{
  Transition, run_planned, stage_attempt_created, stage_dispatch_started, stage_blocked,
  stage_rejected, stage_completed, stage_failed, stage_interrupted, repair_routed, action_opened,
  action_resolved, terminalization_started, run_decision, run_replanned, run_abandoned,
  command_accepted, command_rejected, command_unapplied, context_injected, approval_apply, audit,
  build, design, done, portable_export_requested, reaudit, repair, run_attested, stage_started,
  usage, other, Role, orchestrator, supervisor, operator_gateway, recovery, other_role, Basis,
  observed, derived, submitted, other_basis,
}
use torq_cli_python.Evidence.Finding.{Finding}
use torq_cli_python.Evidence.World.{World}
use torq_cli_python.Evidence.Contract.State.{Receipt}
use torq_cli_python.Evidence.Contract.Run.{validate_lifecycle}
use torq_cli_python.Audit.Shape.{and_then}
use torq_cli_python.Audit.Task.Contract.{validate_task_receipt_contract}
use torq_cli_python.Audit.Decision.Contract.Lifecycle.{validate_decision_receipt_contract}

transition_names : Dict Transition
transition_names =
    ("run_planned", run_planned)
    ∷ ("stage_attempt_created", stage_attempt_created)
    ∷ ("stage_dispatch_started", stage_dispatch_started)
    ∷ ("stage_blocked", stage_blocked)
    ∷ ("stage_rejected", stage_rejected)
    ∷ ("stage_completed", stage_completed)
    ∷ ("stage_failed", stage_failed)
    ∷ ("stage_interrupted", stage_interrupted)
    ∷ ("repair_routed", repair_routed)
    ∷ ("action_opened", action_opened)
    ∷ ("action_resolved", action_resolved)
    ∷ ("terminalization_started", terminalization_started)
    ∷ ("run_decision", run_decision)
    ∷ ("run_replanned", run_replanned)
    ∷ ("run_abandoned", run_abandoned)
    ∷ ("command_accepted", command_accepted)
    ∷ ("command_rejected", command_rejected)
    ∷ ("command_unapplied", command_unapplied)
    ∷ ("context_injected", context_injected)
    ∷ ("approval_apply", approval_apply)
    ∷ ("audit", audit)
    ∷ ("build", build)
    ∷ ("design", design)
    ∷ ("done", done)
    ∷ ("portable_export_requested", portable_export_requested)
    ∷ ("reaudit", reaudit)
    ∷ ("repair", repair)
    ∷ ("run_attested", run_attested)
    ∷ ("stage_started", stage_started)
    ∷ ("usage", usage)
    ∷ []

role_names : Dict Role
role_names =
    ("orchestrator", orchestrator)
    ∷ ("supervisor", supervisor)
    ∷ ("operator_gateway", operator_gateway)
    ∷ ("recovery", recovery)
    ∷ []

basis_names : Dict Basis
basis_names = ("observed", observed) ∷ ("derived", derived) ∷ ("submitted", submitted) ∷ []

-- The name that a value is, or the one for every other value.
named {ℓ} : {A : Type ℓ} → Dict A → A → Value → A
unfolding lookup
named d a (str s) = elim (lookup s d) [ none ↦ a | some x ↦ x ]
named d a _ = a

-- A receipt as the loop reads it.
unfoldable pub receipt_of : Fields → Receipt
unfolding named transition_names role_names basis_names
receipt_of r = record {
  transition = named transition_names other (get "transition" r);
  sequence = get "sequence" r;
  payload = get "payload" r;
  writer_role = named role_names other_role (get "writer_role" r);
  evidence_basis =
      if has "evidence_basis" r
      then some (named basis_names other_basis (get "evidence_basis" r))
      else none;
}

unfoldable pub validate_v2_receipt_contract : World → Bool → List Fields → Option Finding
validate_v2_receipt_contract w sealed rs = and_then (validate_task_receipt_contract sealed rs) (
    and_then (validate_decision_receipt_contract w.row_digest rs sealed)
      (validate_lifecycle w sealed (map receipt_of rs)))
