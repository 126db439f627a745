-- ===== src/Evidence/Payload/Attempts.antt =====
-- The payloads of stage attempts and of repair routing.
use torq_cli_python.Prelude.{
  String, Bool, true, false, ◌&&◌, ◌||◌, not, Option, [], ◌∷◌, if◌then◌else◌,
}
use torq_cli_python.Json
use torq_cli_python.Json.{
  Value, Fields, str, bool, int, get, is_str, is_true, is_false, is_bool, is_text,
}
use torq_cli_python.Evidence.Names.{
  Transition, stage_attempt_created, stage_dispatch_started, stage_blocked, stage_rejected,
  stage_completed, stage_failed, stage_interrupted, same_transition,
}
use torq_cli_python.Evidence.Finding.{
  Finding, attempt_role_invalid, attempt_id_invalid, attempt_ordinal_invalid,
  attempt_repair_cycle_invalid, attempt_dispatch_invalid, stage_rejected_invalid,
  stage_interrupted_observation_invalid, raised, repair_route_invalid, repair_route_attempt_invalid,
  repair_route_cycle_invalid,
}
use torq_cli_python.Evidence.Payload.Shape.{
  first_finding, positive_int, nonnegative_int, nonempty_str, is_one_of, unhashable,
  conditional_lanes,
}

-- `dispatch in {False, True, "unknown"}`, where 0 and 1 are equal to the bools
known_dispatch : Value → Bool
known_dispatch v =
    is_bool v || (is_text "unknown" v || (Json.value_eq v (int 0) || Json.value_eq v (int 1)))

-- The reason that goes with a rejection by this role.
rejection_reason : Value → String
rejection_reason role = if is_text "g1r" role then "design_rejected" else "audit_rejected"

must_dispatch : Transition → Bool
must_dispatch stage_dispatch_started = true
must_dispatch stage_completed = true
must_dispatch stage_rejected = true
must_dispatch _ = false

unfoldable pub validate_attempt : Transition → Fields → Option Finding
unfolding known_dispatch rejection_reason must_dispatch
validate_attempt t p =
    let role = get "role" p in
    let dispatch = get "provider_dispatch" p in
    let rejected = same_transition t stage_rejected in
    let interrupted = same_transition t stage_interrupted in
    first_finding (
      (not (is_str role), attempt_role_invalid)
      ∷ (not (nonempty_str (get "attempt_id" p)), attempt_id_invalid)
      ∷ (not (positive_int (get "attempt_ordinal" p)), attempt_ordinal_invalid)
      ∷ (not (nonnegative_int (get "repair_cycle" p)), attempt_repair_cycle_invalid)
      ∷ (
        same_transition t stage_attempt_created && not (is_false dispatch),
        attempt_dispatch_invalid,
      )
      ∷ (same_transition t stage_blocked && not (is_false dispatch), attempt_dispatch_invalid)
      ∷ (must_dispatch t && not (is_true dispatch), attempt_dispatch_invalid)
      ∷ (rejected && not (is_one_of ("g1r" ∷ "g2a" ∷ []) role), stage_rejected_invalid)
      ∷ (rejected && not (is_text "reject" (get "verdict" p)), stage_rejected_invalid)
      ∷ (rejected && not (is_text (rejection_reason role) (get "reason" p)), stage_rejected_invalid)
      ∷ (same_transition t stage_failed && not (is_bool dispatch), attempt_dispatch_invalid)
      ∷ (interrupted && unhashable dispatch, raised)
      ∷ (interrupted && not (known_dispatch dispatch), attempt_dispatch_invalid)
      ∷ (
        interrupted && not (is_text "worker_exit" (get "observation_source" p)),
        stage_interrupted_observation_invalid,
      )
      ∷ [])

pub validate_repair_routed : Fields → Option Finding
validate_repair_routed p = first_finding (
    (not (is_one_of conditional_lanes (get "target_role" p)), repair_route_invalid)
    ∷ (not (is_str (get "attempt_id" p)), repair_route_attempt_invalid)
    ∷ (not (positive_int (get "attempt_ordinal" p)), repair_route_attempt_invalid)
    ∷ (not (positive_int (get "cycle" p)), repair_route_cycle_invalid)
    ∷ [])
