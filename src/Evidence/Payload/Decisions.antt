-- ===== src/Evidence/Payload/Decisions.antt =====
-- The payloads of run decisions, of abandonment and of terminalization.
use torq_cli_python.Prelude.{
  String, Bool, true, false, ◌&&◌, not, Option, none, some, List, [], ◌∷◌, leb, any, if◌then◌else◌,
}
use torq_cli_python.Json.{
  Value, null, arr, Fields, get, has, is_str, is_text, is_bool, is_false, count_items,
}
use torq_cli_python.Evidence.Names.{Role, supervisor, operator_gateway, recovery}
use torq_cli_python.Evidence.Finding.{
  Finding, run_decision_text_invalid, run_decision_structure_invalid, run_decision_value_invalid,
  supervisor_decision_invalid, operator_decision_invalid, run_abandoned_invalid,
  terminalization_started_invalid, raised,
}
use torq_cli_python.Evidence.Payload.Shape.{
  first_finding, positive_int, nonnegative_int, nonempty_str, opaque_id, label, extra_keys,
  exact_keys, is_one_of, unhashable, all_items, lane_order,
}
use torq_cli_python.Evidence.Payload.Actions.{texts, distinct_texts}

run_decision_keys : List String
run_decision_keys =
    "decision" ∷ "provider_dispatch" ∷ "reason" ∷ "outcome" ∷ "next_action" ∷ "stage"
    ∷ "dispatched_roles" ∷ "repair_cycles" ∷ "action_id" ∷ "action_opened_sequence"
    ∷ "action_resolved_sequence" ∷ "interruption_sequence" ∷ []

-- `dispatched_roles` is absent, or distinct lanes: so at most six of them.
bad_roles : Value → Bool
bad_roles null = false
bad_roles (arr xs) =
    not
      (leb (count_items xs) 6 && (all_items (is_one_of lane_order) xs && distinct_texts (texts xs)))
bad_roles _ = true

bad_when_present : String → (Value → Bool) → Fields → Bool
bad_when_present k shape p = has k p && not (shape (get k p))

-- `_decision_text_finding`
unfoldable pub decision_text_finding : Fields → Option Finding
unfolding run_decision_keys bad_roles bad_when_present
decision_text_finding p = first_finding (
    (extra_keys run_decision_keys p, run_decision_text_invalid)
    ∷ (
      any (λ k. bad_when_present k label p) ("reason" ∷ "outcome" ∷ "next_action" ∷ "stage" ∷ []),
      run_decision_text_invalid,
    )
    ∷ (bad_roles (get "dispatched_roles" p), run_decision_text_invalid)
    ∷ (bad_when_present "provider_dispatch" is_bool p, run_decision_structure_invalid)
    ∷ (bad_when_present "repair_cycles" nonnegative_int p, run_decision_structure_invalid)
    ∷ (bad_when_present "action_id" opaque_id p, run_decision_structure_invalid)
    ∷ (
      any (λ k. bad_when_present k positive_int p)
          ("action_opened_sequence" ∷ "action_resolved_sequence" ∷ "interruption_sequence" ∷ []),
      run_decision_structure_invalid,
    )
    ∷ [])

has_finding : Option Finding → Bool
has_finding none = false
has_finding (some f) = true

pub supervisor_decision : Fields → Option Finding
supervisor_decision p = first_finding (
    (not (is_text "failed" (get "decision" p)), supervisor_decision_invalid)
    ∷ (not (positive_int (get "interruption_sequence" p)), supervisor_decision_invalid)
    ∷ (has_finding (decision_text_finding p), supervisor_decision_invalid)
    ∷ [])

pub operator_decision : Fields → Option Finding
operator_decision p = first_finding (
    (unhashable (get "decision" p), raised)
    ∷ (
      not (is_one_of ("completed" ∷ "blocked" ∷ "failed" ∷ []) (get "decision" p)),
      operator_decision_invalid,
    )
    ∷ (not (is_str (get "action_id" p)), operator_decision_invalid)
    ∷ (not (positive_int (get "action_resolved_sequence" p)), operator_decision_invalid)
    ∷ (has_finding (decision_text_finding p), operator_decision_invalid)
    ∷ [])

unfoldable pub plain_decision : Fields → Option Finding
plain_decision p =
    if unhashable (get "decision" p)
    then some raised
    else if is_one_of ("awaiting_approval" ∷ "blocked" ∷ "completed" ∷ "failed" ∷ [])
        (get "decision" p)
    then decision_text_finding p
    else some run_decision_value_invalid

unfoldable pub validate_run_decision : Role → Fields → Option Finding
unfolding has_finding
validate_run_decision supervisor p = supervisor_decision p
validate_run_decision operator_gateway p = operator_decision p
validate_run_decision _ p = plain_decision p

abandoned_keys : List String
abandoned_keys = "attempt_ids" ∷ "last_covered_sequence" ∷ "operator_assertion" ∷ []

-- Distinct, nonempty texts.
attempt_ids_ok : Value → Bool
attempt_ids_ok (arr xs) = all_items nonempty_str xs && distinct_texts (texts xs)
attempt_ids_ok _ = false

-- Only the recovery writer's abandonment is looked at.
pub validate_run_abandoned : Role → Fields → Option Finding
unfolding abandoned_keys attempt_ids_ok
validate_run_abandoned recovery p = first_finding (
    (extra_keys abandoned_keys p, run_abandoned_invalid)
    ∷ (not (attempt_ids_ok (get "attempt_ids" p)), run_abandoned_invalid)
    ∷ (not (positive_int (get "last_covered_sequence" p)), run_abandoned_invalid)
    ∷ (not (is_text "no_live_worker" (get "operator_assertion" p)), run_abandoned_invalid)
    ∷ [])
validate_run_abandoned _ p = none

pub validate_terminalization : Fields → Option Finding
validate_terminalization p =
    if exact_keys ("reason" ∷ "provider_dispatch" ∷ []) p
      && (is_text "pending_commands" (get "reason" p) && is_false (get "provider_dispatch" p))
    then none
    else some terminalization_started_invalid
