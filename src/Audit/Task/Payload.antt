-- ===== src/Audit/Task/Payload.antt =====
-- `validate_task_audit_payload`.
use torq_cli_python.Prelude.{
  String, ◌≡◌, arith, Bool, true, ◌&&◌, ◌||◌, not, Option, none, some, List, [], ◌∷◌, ◌++◌, all,
  if◌then◌else◌,
}
use torq_cli_python.Json.{Fields, get, is_bool, is_true, is_false, is_null, is_text}
use torq_cli_python.Evidence.Finding.{
  Finding, task_event_invalid, task_payload_keys_invalid, task_id_invalid,
  task_provider_dispatch_invalid, task_hash_invalid, task_artifact_invalid, task_provider_invalid,
  task_sequence_link_invalid, task_termination_invalid, task_check_profile_invalid,
  task_check_exit_invalid, task_check_output_invalid, task_phase_invalid, task_reason_invalid,
  task_cancel_termination_invalid, raised,
}
use torq_cli_python.Evidence.Payload.Shape.{
  first_finding, positive_int, exact_keys, is_one_of, unhashable,
}
use torq_cli_python.Audit.Shape.{digests, identifier, reason_code, artifact, is_int}
use torq_cli_python.Audit.Task.{
  Event, task_start_accepted, candidate_generated, candidate_check_completed, candidate_ready,
  task_cancelled, event_of, same_event,
}

-- `payload.get("task_contract") == TASK_CONTRACT`
abbrev pub is_task : Fields → Bool
is_task p = is_text "torq-candidate-task-v1" (get "task_contract" p)

-- `_COMMON`
common_keys : List String
common_keys = "task_contract" ∷ "event" ∷ "task_id" ∷ "provider_dispatch" ∷ []

failure_keys : List String
failure_keys = "phase" ∷ "reason_code" ∷ "caused_by_sequence" ∷ "termination" ∷ []

own_keys : Event → List String
unfolding failure_keys
own_keys task_start_accepted =
    "request_digest" ∷ "plan_hash" ∷ "base_manifest_hash" ∷ "input_hash" ∷ "artifact"
    ∷ "artifact_hash" ∷ "artifact_content_hash" ∷ "provider" ∷ "model" ∷ []
own_keys candidate_generated =
    "start_sequence" ∷ "plan_hash" ∷ "input_hash" ∷ "candidate_manifest_hash" ∷ "raw_response_hash"
    ∷ "artifact" ∷ "artifact_hash" ∷ "artifact_content_hash" ∷ "provider" ∷ "model" ∷ "termination"
    ∷ []
own_keys candidate_check_completed =
    "generated_sequence" ∷ "candidate_manifest_hash" ∷ "check_profile_id" ∷ "check_profile_version"
    ∷ "helper_hash" ∷ "argv_hash" ∷ "exit_code" ∷ "output_hash" ∷ "output_complete" ∷ "termination"
    ∷ "artifact" ∷ "artifact_hash" ∷ "artifact_content_hash" ∷ []
own_keys candidate_ready =
    "start_sequence" ∷ "generated_sequence" ∷ "check_sequence" ∷ "plan_hash" ∷ "base_manifest_hash"
    ∷ "input_hash" ∷ "candidate_manifest_hash" ∷ "source_recheck_hash" ∷ []
own_keys _ = failure_keys

-- `_EVENT_KEYS`
unfoldable pub event_keys : Event → List String
unfolding common_keys own_keys
event_keys e = common_keys ++ own_keys e

start_finding : Fields → Option Finding
start_finding p = first_finding (
    (not (is_false (get "provider_dispatch" p)), task_provider_dispatch_invalid)
    ∷ (
      not (
          digests
            ("request_digest" ∷ "plan_hash" ∷ "base_manifest_hash" ∷ "input_hash" ∷ "artifact_hash"
              ∷ "artifact_content_hash" ∷ [])
            p),
      task_hash_invalid,
    )
    ∷ (not (artifact (get "artifact" p)), task_artifact_invalid)
    ∷ (
      not (identifier (get "provider" p)) || not (identifier (get "model" p)),
      task_provider_invalid,
    )
    ∷ [])

generated_finding : Fields → Option Finding
generated_finding p = first_finding (
    (not (is_true (get "provider_dispatch" p)), task_provider_dispatch_invalid)
    ∷ (not (positive_int (get "start_sequence" p)), task_sequence_link_invalid)
    ∷ (
      not (
          digests
            ("plan_hash" ∷ "input_hash" ∷ "candidate_manifest_hash" ∷ "raw_response_hash"
              ∷ "artifact_hash" ∷ "artifact_content_hash" ∷ [])
            p),
      task_hash_invalid,
    )
    ∷ (not (artifact (get "artifact" p)), task_artifact_invalid)
    ∷ (
      not (identifier (get "provider" p)) || not (identifier (get "model" p)),
      task_provider_invalid,
    )
    ∷ (not (is_text "confirmed_empty" (get "termination" p)), task_termination_invalid)
    ∷ [])

check_finding : Fields → Option Finding
check_finding p = first_finding (
    (not (is_false (get "provider_dispatch" p)), task_provider_dispatch_invalid)
    ∷ (not (positive_int (get "generated_sequence" p)), task_sequence_link_invalid)
    ∷ (
      not (
          digests
            ("candidate_manifest_hash" ∷ "helper_hash" ∷ "argv_hash" ∷ "output_hash"
              ∷ "artifact_hash" ∷ "artifact_content_hash" ∷ [])
            p),
      task_hash_invalid,
    )
    ∷ (not (artifact (get "artifact" p)), task_artifact_invalid)
    ∷ (not (is_text "structural-v1" (get "check_profile_id" p)), task_check_profile_invalid)
    ∷ (not (is_text "1.0.0" (get "check_profile_version" p)), task_check_profile_invalid)
    ∷ (not (is_int (get "exit_code" p)), task_check_exit_invalid)
    ∷ (not (is_bool (get "output_complete" p)), task_check_output_invalid)
    ∷ (not (is_text "confirmed_empty" (get "termination" p)), task_termination_invalid)
    ∷ [])

ready_finding : Fields → Option Finding
ready_finding p = first_finding (
    (not (is_false (get "provider_dispatch" p)), task_provider_dispatch_invalid)
    ∷ (
      not (
          all (λ k. positive_int (get k p))
            ("start_sequence" ∷ "generated_sequence" ∷ "check_sequence" ∷ [])),
      task_sequence_link_invalid,
    )
    ∷ (
      not (
          digests
            ("plan_hash" ∷ "base_manifest_hash" ∷ "input_hash" ∷ "candidate_manifest_hash"
              ∷ "source_recheck_hash" ∷ [])
            p),
      task_hash_invalid,
    )
    ∷ [])

-- A cancelled task has stopped its provider, or never called it.
uncancellable : Event → Fields → Bool
uncancellable e p =
    same_event e task_cancelled
    && not (
        is_text "confirmed_empty" (get "termination" p)
        || (is_text "not_started" (get "termination" p) && is_false (get "provider_dispatch" p)))

failure_finding : Event → Fields → Option Finding
unfolding uncancellable
failure_finding e p = first_finding (
    (unhashable (get "phase" p), raised)
    ∷ (
      not (is_one_of ("reserved" ∷ "preparing" ∷ "generating" ∷ "checking" ∷ []) (get "phase" p)),
      task_phase_invalid,
    )
    ∷ (not (reason_code (get "reason_code" p)), task_reason_invalid)
    ∷ (
      not (is_null (get "caused_by_sequence" p)) && not (positive_int (get "caused_by_sequence" p)),
      task_sequence_link_invalid,
    )
    ∷ (unhashable (get "termination" p), raised)
    ∷ (
      not (is_one_of ("not_started" ∷ "confirmed_empty" ∷ "unknown" ∷ []) (get "termination" p)),
      task_termination_invalid,
    )
    ∷ (uncancellable e p, task_cancel_termination_invalid)
    ∷ [])

pub event_finding : Event → Fields → Option Finding
unfolding start_finding generated_finding check_finding ready_finding failure_finding
event_finding task_start_accepted p = start_finding p
event_finding candidate_generated p = generated_finding p
event_finding candidate_check_completed p = check_finding p
event_finding candidate_ready p = ready_finding p
event_finding e p = failure_finding e p

event_payload_finding : Fields → Option Event → Option Finding
unfolding event_finding event_keys
event_payload_finding p none = some task_event_invalid
event_payload_finding p (some e) =
    if not (exact_keys (event_keys e) p)
    then some task_payload_keys_invalid
    else if not (identifier (get "task_id" p))
    then some task_id_invalid
    else if not (is_bool (get "provider_dispatch" p))
    then some task_provider_dispatch_invalid
    else event_finding e p

past_identifier :
    (p : Fields) (o : Option Event)
    → event_payload_finding p o ≡ none
    → identifier (get "task_id" p) ≡ true
unfolding event_payload_finding
past_identifier p none h = cc
past_identifier p (some e) h = ground arith

unfoldable pub validate_task_audit_payload : Fields → Option Finding
unfolding event_payload_finding
validate_task_audit_payload p =
    if is_task p then event_payload_finding p (event_of (get "event" p)) else none

-- An accepted payload of a task names the task by an identifier.
pub accepted-identifier :
    (p : Fields)
    → is_task p ≡ true
    → validate_task_audit_payload p ≡ none
    → identifier (get "task_id" p) ≡ true
unfolding validate_task_audit_payload
accepted-identifier p t h = past_identifier p (event_of (get "event" p)) (rw t at h)
