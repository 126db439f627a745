-- ===== src/Evidence/Contract/Run.antt =====
-- The loop of `validate_v2_receipt_contract` over the receipts, and what it asks after the last.
pub mod Steps
pub mod Tally
pub mod Settled
pub mod Closing
pub mod Keeping
pub mod Lanes
mod Tests
use torq_cli_python.Prelude.{
  ℕ, suc, String, Bool, true, false, ◌&&◌, not, Option, none, some, List, [], ◌∷◌, if◌then◌else◌,
}
use torq_cli_python.Json.{Value, int, obj, Fields}
use torq_cli_python.Evidence.Names.{
  Transition, run_planned, stage_attempt_created, stage_dispatch_started, stage_blocked,
  stage_rejected, stage_completed, stage_failed, stage_interrupted, repair_routed, action_opened,
  action_resolved, terminalization_started, run_decision, run_replanned, run_abandoned,
  command_accepted, command_rejected, command_unapplied, context_injected, Role, Basis,
}
use torq_cli_python.Evidence.Finding.{
  Finding, receipt_payload_invalid, receipt_after_terminal_decision,
  receipt_after_terminating_decision, lane_catalog_missing, attempt_terminal_missing,
  run_terminating_incomplete, command_pending_at_terminal,
}
use torq_cli_python.Evidence.World.{World}
use torq_cli_python.Evidence.Rules.{transition_authority_finding}
use torq_cli_python.Evidence.Payload.Validate.{validate_receipt_payload}
use torq_cli_python.Evidence.Contract.State.{State, Receipt, initial, any_open, any_pending}
use torq_cli_python.Evidence.Contract.Outcome.{Outcome, go_on, stop, stop_if}
use torq_cli_python.Evidence.Contract.Commands.{
  on_run_planned, on_terminalization_started, on_repair_routed, on_command, on_run_replanned,
  on_context_injected, on_command_unapplied,
}
use torq_cli_python.Evidence.Contract.Attempts.{attempt_payload, on_attempt_created, on_attempt}
use torq_cli_python.Evidence.Contract.Actions.{on_action_opened, on_action_resolved}
use torq_cli_python.Evidence.Contract.Decisions.{on_run_decision, on_run_abandoned}

-- The branch of the transition, once the receipt has passed the checks on itself.
unfoldable pub apply : Transition → ℕ → Role → Fields → State → Outcome
apply run_planned seq r p s = on_run_planned p s
apply terminalization_started seq r p s = on_terminalization_started s
apply repair_routed seq r p s = on_repair_routed p s
apply command_accepted seq r p s = on_command true seq p s
apply command_rejected seq r p s = on_command false seq p s
apply run_replanned seq r p s = on_run_replanned seq p s
apply context_injected seq r p s = on_context_injected p s
apply command_unapplied seq r p s = on_command_unapplied seq p s
apply stage_attempt_created seq r p s = on_attempt_created seq (attempt_payload p) s
apply stage_dispatch_started seq r p s = on_attempt stage_dispatch_started seq (attempt_payload p) s
apply stage_blocked seq r p s = on_attempt stage_blocked seq (attempt_payload p) s
apply stage_rejected seq r p s = on_attempt stage_rejected seq (attempt_payload p) s
apply stage_completed seq r p s = on_attempt stage_completed seq (attempt_payload p) s
apply stage_failed seq r p s = on_attempt stage_failed seq (attempt_payload p) s
apply stage_interrupted seq r p s = on_attempt stage_interrupted seq (attempt_payload p) s
apply action_opened seq r p s = on_action_opened seq p s
apply action_resolved seq r p s = on_action_resolved seq p s
apply run_decision seq r p s = on_run_decision r p s
apply run_abandoned seq r p s = on_run_abandoned seq p s
apply _ seq r p s = go_on s

-- What may still follow once the run is terminating.
may_follow_terminating : Transition → Bool
may_follow_terminating command_unapplied = true
may_follow_terminating run_abandoned = true
may_follow_terminating run_decision = true
may_follow_terminating _ = false

-- The authority check is made where the receipt has an `evidence_basis`.
unfoldable pub authority : Receipt → Fields → Option Finding
authority r p = elim r.evidence_basis [
  | none ↦ none
  | some b ↦ transition_authority_finding (some r.writer_role) (some r.transition) b p false
]

abbrev pub after : Option Finding → Outcome → Outcome
after (some f) rest = stop f
after none rest = rest

unfoldable pub accept : World → Receipt → ℕ → Fields → State → Outcome
unfolding may_follow_terminating
accept w r seq p s = stop_if s.terminal_decision receipt_after_terminal_decision (
    stop_if (s.run_terminating && not (may_follow_terminating r.transition))
      receipt_after_terminating_decision
      (after (authority r p) (
        after (validate_receipt_payload w r.transition p r.writer_role)
          (apply r.transition seq r.writer_role p s))))

-- A receipt needs a mapping for its payload and a positive sequence.
pub shaped : World → Receipt → Value → Value → State → Outcome
shaped w r (int (suc n)) (obj p) s = accept w r (suc n) p s
shaped w r _ _ s = stop receipt_payload_invalid

unfoldable pub step : World → Receipt → State → Outcome
unfolding shaped
step w r s = shaped w r r.sequence r.payload s

-- The loop: the state after the last receipt, or the first finding.
unfoldable pub run : World → List Receipt → State → Outcome
run w [] s = go_on s
run w (r ∷ rs) s = elim (step w r s) [ stop f ↦ stop f | go_on s' ↦ run w rs s' ]

pub at_end : Bool → State → Option Finding
at_end sealed s =
    if s.saw_run_planned && not s.saw_catalog
    then some lane_catalog_missing
    else if sealed && any_open s.attempts
    then some attempt_terminal_missing
    else if sealed && s.run_terminating
    then some run_terminating_incomplete
    else if sealed && any_pending s.commands
    then some command_pending_at_terminal
    else none

pub ended : Bool → Outcome → Option Finding
ended sealed (stop f) = some f
ended sealed (go_on s) = at_end sealed s

-- The lifecycle part of `validate_v2_receipt_contract`, after its calls of the task and decision
-- validators.
unfoldable pub validate_lifecycle : World → Bool → List Receipt → Option Finding
unfolding ended at_end
validate_lifecycle w sealed rs = ended sealed (run w rs initial)
