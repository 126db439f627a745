-- ===== src/Evidence/Payload/Validate.antt =====
-- `validate_receipt_payload`: the floor, then the validator of the transition.
use torq_cli_python.Prelude.{Option, none, some, if◌then◌else◌}
use torq_cli_python.Json.{obj, Fields}
use torq_cli_python.Evidence.Names.{
  Transition, run_planned, stage_attempt_created, stage_dispatch_started, stage_blocked,
  stage_rejected, stage_completed, stage_failed, stage_interrupted, repair_routed, action_opened,
  action_resolved, terminalization_started, run_decision, run_replanned, run_abandoned,
  command_accepted, command_rejected, command_unapplied, context_injected, audit, Role,
}
use torq_cli_python.Evidence.Finding.{Finding, receipt_value_oversized}
use torq_cli_python.Evidence.World.{World}
use torq_cli_python.Audit.Shape.{and_then}
use torq_cli_python.Audit.Task.Payload.{validate_task_audit_payload}
use torq_cli_python.Audit.Decision.Review.{validate_review_payload}
use torq_cli_python.Audit.Decision.Apply.{validate_apply_payload}
use torq_cli_python.Evidence.Payload.Floor.{oversized_value}
use torq_cli_python.Evidence.Payload.Attempts.{validate_attempt, validate_repair_routed}
use torq_cli_python.Evidence.Payload.Plans.{validate_run_planned, validate_run_replanned}
use torq_cli_python.Evidence.Payload.Actions.{validate_action_opened, validate_action_resolved}
use torq_cli_python.Evidence.Payload.Commands.{
  validate_command_accepted, validate_command_rejected, validate_context_injected,
  validate_command_unapplied,
}
use torq_cli_python.Evidence.Payload.Decisions.{
  validate_run_decision, validate_run_abandoned, validate_terminalization,
}

-- The three contracts that an `audit` payload may name.
unfoldable pub validate_audit : Fields → Option Finding
validate_audit p =
    and_then (validate_task_audit_payload p)
      (and_then (validate_review_payload p) (validate_apply_payload p))

unfoldable pub validate_transition : World → Transition → Fields → Role → Option Finding
validate_transition w stage_attempt_created p r = validate_attempt stage_attempt_created p
validate_transition w stage_dispatch_started p r = validate_attempt stage_dispatch_started p
validate_transition w stage_blocked p r = validate_attempt stage_blocked p
validate_transition w stage_rejected p r = validate_attempt stage_rejected p
validate_transition w stage_completed p r = validate_attempt stage_completed p
validate_transition w stage_failed p r = validate_attempt stage_failed p
validate_transition w stage_interrupted p r = validate_attempt stage_interrupted p
validate_transition w run_planned p r = validate_run_planned w p
validate_transition w repair_routed p r = validate_repair_routed p
validate_transition w action_opened p r = validate_action_opened p
validate_transition w command_accepted p r = validate_command_accepted p
validate_transition w command_rejected p r = validate_command_rejected p
validate_transition w context_injected p r = validate_context_injected p
validate_transition w command_unapplied p r = validate_command_unapplied p
validate_transition w run_replanned p r = validate_run_replanned w p
validate_transition w action_resolved p r = validate_action_resolved p
validate_transition w run_decision p r = validate_run_decision r p
validate_transition w run_abandoned p r = validate_run_abandoned r p
validate_transition w terminalization_started p r = validate_terminalization p
validate_transition w audit p r = validate_audit p
validate_transition w _ p r = none

unfoldable pub validate_receipt_payload : World → Transition → Fields → Role → Option Finding
validate_receipt_payload w t p r =
    if oversized_value (obj p) then some receipt_value_oversized else validate_transition w t p r
