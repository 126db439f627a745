-- ===== src/Evidence/Contract/Whole/Tests.antt =====
-- A store in which a run waits for an approval and its task fails before it starts.
use torq_cli_python.Prelude.{ℕ, String, ◌≡◌, refl, true, false, none, any, map, List, [], ◌∷◌, ◌++◌}
use torq_cli_python.Json.{
  Fields, field, no_fields, str, int, obj, arr, item, no_items, null, bool, value_eq, count_items,
}
use torq_cli_python.Dict.{insert}
use torq_cli_python.Evidence.World.{World}
use torq_cli_python.Evidence.Contract.State.{any_open, any_pending}
use torq_cli_python.Evidence.Contract.Run.{run, step, apply, authority, accept, validate_lifecycle}
use torq_cli_python.Evidence.Rules.{transition_authority_finding}
use torq_cli_python.Evidence.Payload.Validate.{
  validate_receipt_payload, validate_transition, validate_audit,
}
use torq_cli_python.Evidence.Payload.Actions.{validate_action_opened}
use torq_cli_python.Evidence.Payload.Decisions.{
  plain_decision, validate_run_decision, decision_text_finding,
}
use torq_cli_python.Evidence.Payload.Floor.{oversized_value}
use torq_cli_python.Evidence.Payload.Shape.{sha256, positive_int, bounded_label, opaque_id}
use torq_cli_python.Evidence.Contract.Actions.{on_action_opened}
use torq_cli_python.Evidence.Contract.Decisions.{
  on_run_decision, on_orchestrator_decision, await_approval,
}
use torq_cli_python.Evidence.Contract.Whole.{receipt_of, validate_v2_receipt_contract}
use torq_cli_python.Evidence.Contract.Whole.Tasks.{is_deciding, ended_task-undecided}
use torq_cli_python.Audit.Shape.{digests, identifier, artifact, reason_code}
use torq_cli_python.Audit.Task.Payload.{validate_task_audit_payload}
use torq_cli_python.Audit.Task.Contract.{validate_task_receipt_contract}
use torq_cli_python.Audit.Decision.Review.{validate_review_payload}
use torq_cli_python.Audit.Decision.Apply.{validate_apply_payload}
use torq_cli_python.Audit.Decision.Contract.{find}
use torq_cli_python.Audit.Decision.Contract.Lifecycle.{validate_decision_receipt_contract}

abbrev world : World
world = record { hexdigest = λ p. ""; row_digest = λ p. ""; render = λ v. "" }

abbrev row : ℕ → String → Fields → Fields
row n transition payload = field "transition" (str transition) (
    field "run_id" (str "run-1") (
      field "sequence" (int n) (
        field "writer_role" (str "orchestrator")
          (field "evidence_basis" (str "derived") (field "payload" (obj payload) no_fields)))))

abbrev opened : Fields
opened = row 2 "action_opened" (
    field "action_id" (str "a1") (
      field "type" (str "approve") (
        field "scope" (str "run") (
          field "target" (str "run-1") (
            field "summary" (str "approve") (
              field "allowed_resolutions" (arr (item (str "accept") no_items)) (
                field "outcome_map" (obj (field "accept" (str "completed") no_fields)) (
                  field "caused_by_sequence" (int 1)
                    (field "provider_dispatch" (bool false) no_fields)))))))))

abbrev waiting : Fields
waiting = row 3 "run_decision" (field "decision" (str "awaiting_approval") no_fields)

abbrev failed : Fields
failed = field "transition" (str "audit") (
    field "run_id" (str "run-1") (
      field "sequence" (int 4) (
        field "payload"
          (obj (
            field "task_contract" (str "torq-candidate-task-v1") (
              field "event" (str "task_failed") (
                field "task_id" (str "run-1") (
                  field "provider_dispatch" (bool false) (
                    field "phase" (str "reserved") (
                      field "reason_code" (str "refused") (
                        field "caused_by_sequence" null
                          (field "termination" (str "not_started") no_fields)))))))))
          no_fields)))

abbrev run_rows : List Fields
run_rows = opened ∷ waiting ∷ []

abbrev nothing_after : List Fields
nothing_after = []

abbrev rows : List Fields
rows = run_rows ++ failed ∷ nothing_after

task_part : validate_task_receipt_contract true rows ≡ none
unfolding validate_task_receipt_contract validate_task_audit_payload value_eq positive_int sha256
    digests identifier artifact reason_code
task_part = refl

decision_part : validate_decision_receipt_contract world.row_digest rows true ≡ none
unfolding validate_decision_receipt_contract find
decision_part = refl

run_part : validate_lifecycle world true (map receipt_of rows) ≡ none
unfolding run step accept authority apply receipt_of validate_receipt_payload validate_transition
    validate_audit oversized_value validate_task_audit_payload validate_review_payload
    validate_apply_payload value_eq positive_int sha256 digests identifier artifact
    transition_authority_finding validate_action_opened validate_run_decision plain_decision
    decision_text_finding bounded_label opaque_id on_action_opened on_run_decision
    on_orchestrator_decision await_approval validate_lifecycle any_open any_pending count_items
    insert reason_code
run_part = refl

rows_accepted : validate_v2_receipt_contract world true rows ≡ none
unfolding validate_v2_receipt_contract
rows_accepted = rw (task_part, decision_part, run_part)

ended_task-undecided_example : any is_deciding rows ≡ false
ended_task-undecided_example =
    ended_task-undecided world true run_rows failed nothing_after rows_accepted refl refl
