-- ===== src/Evidence/Contract/Run/Tests.antt =====
-- One run from its plan to its decision, with an operator command on the way.
use torq_cli_python.Prelude.{
  ℕ, String, ◌≡◌, ◌≢◌, refl, ◌≤◌, ◌<◌, ◌+◌, Bool, true, false, none, some, List, [], ◌∷◌, ◌++◌,
  elem,
}
use torq_cli_python.Json
use torq_cli_python.Json.{
  Value, Fields, Items, field, no_fields, str, int, obj, arr, item, no_items, null, bool,
}
use torq_cli_python.Dict.{lookup, insert}
use torq_cli_python.Evidence.World.{World}
use torq_cli_python.Evidence.Names.{
  Transition, Role, run_planned, stage_attempt_created, stage_dispatch_started, stage_completed,
  stage_rejected, stage_blocked, run_decision, command_accepted, context_injected, orchestrator,
  operator_gateway, Basis, observed, derived, submitted,
}
use torq_cli_python.Evidence.Contract.State.{State, Receipt, Attempt, Command, initial}
use torq_cli_python.Evidence.Contract.Outcome.{Outcome, go_on, stop}
use torq_cli_python.Evidence.Contract.Run.{run, step, apply, accept, authority, validate_lifecycle}
use torq_cli_python.Evidence.Rules.{transition_authority_finding}
use torq_cli_python.Evidence.Payload.Validate.{validate_receipt_payload, validate_transition}
use torq_cli_python.Evidence.Payload.Floor.{oversized_value}
use torq_cli_python.Evidence.Payload.Shape.{
  nonempty_str, opaque_id, artifact_path, media_type, bounded_content_bytes, sha256,
  nonnegative_int, positive_int, bounded_label, redaction_names,
}
use torq_cli_python.Evidence.Payload.Plans.{validate_run_planned}
use torq_cli_python.Evidence.Payload.Attempts.{validate_attempt}
use torq_cli_python.Evidence.Payload.Commands.{
  bad_command_values, validate_command_accepted, validate_context_injected,
}
use torq_cli_python.Evidence.Payload.Decisions.{
  plain_decision, validate_run_decision, decision_text_finding,
}
use torq_cli_python.Evidence.Contract.State.{any_open, any_pending, role_open, latest}
use torq_cli_python.Evidence.Contract.Commands.{
  catalog_names, required_names, items, seal_plan, on_run_planned, on_command, effective_of,
  same_attempt, provenance_fields, differs, finalize, inject_attempt, inject_command,
  on_context_injected,
}
use torq_cli_python.Evidence.Contract.Attempts.{
  attempt_payload, next_ordinal, given_up, any_given_up, routed_here, on_attempt_created,
  identity_matches, dispatch, terminate, attempt_moves, attempt_known, on_attempt,
}
use torq_cli_python.Evidence.Contract.Decisions.{
  close, busy, all_completed, on_run_decision, on_orchestrator_decision, decide_completed,
  close_unless_pending,
}
use torq_cli_python.Evidence.Contract.Run.Settled.{acceptances, settlements, sealed-settled_once}
use torq_cli_python.Evidence.Contract.Attempts.Single.{OneOpen}
use torq_cli_python.Evidence.Contract.Run.Lanes.{
  IsDone, completed-lanes-IsDone, run-attempts_honest, run-OneOpen,
}
use torq_cli_python.Evidence.Contract.Run.Closing.{decided-quiet, decision-is_last}

abbrev world : World
world = record { hexdigest = λ p. ""; render = λ v. ""; row_digest = λ p. "" }

abbrev lane : String → Bool → Items → Items
lane role required rest =
    item (obj (field "role" (str role) (field "required" (bool required) no_fields))) rest

abbrev catalog : Items
catalog = lane "g1d" true (
    lane "g1r" true (
      lane "builder" true
        (lane "g2a" true (lane "refine_bug" false (lane "refine_ui" false no_items)))))

abbrev receipt : ℕ → Transition → Role → Basis → Fields → Receipt
receipt n t r b p = record {
  transition = t;
  sequence = int n;
  payload = obj p;
  writer_role = r;
  evidence_basis = some b;
}

abbrev planned : Receipt
planned = receipt 1 run_planned orchestrator observed (field "lane_catalog" (arr catalog) no_fields)

abbrev attempt : ℕ → Transition → String → Bool → Receipt
attempt n t role sent = receipt n t orchestrator observed (
    field "role" (str role) (
      field "attempt_id" (str role) (
        field "attempt_ordinal" (int 1)
          (field "repair_cycle" (int 0) (field "provider_dispatch" (bool sent) no_fields)))))

abbrev digest : String
digest = "sha256:0123456789abcdef0123456789abcdef0123456789abcdef0123456789abcdef"

-- What an acceptance and an injection have in common.
abbrev command : Fields → Fields
command rest = field "command_id" (str "c1") (
    field "command_type" (str "context") (
      field "context_id" (str "x1") (
        field "target_role" (str "builder") (
          field "route" (str "direct_lane") (
            field "artifact" (str "notes.txt") (
              field "artifact_hash" (str digest) (
                field "media_type" (str "text/plain") (
                  field "content_bytes" (int 12) (
                    field "direct_route_confirmed" (bool true)
                      (field "provider_dispatch" (bool false) rest))))))))))

abbrev accepted : Receipt
accepted = receipt 2 command_accepted operator_gateway submitted (
    command (
      field "earliest_eligible_attempt"
        (obj (field "kind" (str "attempt_created_after_acknowledgement") no_fields)) no_fields))

abbrev injected : Receipt
injected = receipt 4 context_injected orchestrator derived (
    command (
      field "accepted_sequence" (int 2) (
        field "effective_attempt"
          (obj (
            field "role" (str "builder") (
              field "attempt_id" (str "builder") (
                field "attempt_ordinal" (int 1)
                  (field "attempt_created_sequence" (int 3) no_fields)))))
          no_fields)))

abbrev stage : ℕ → String → List Receipt → List Receipt
stage n role rest =
    attempt n stage_attempt_created role false
    ∷ attempt (n + 1) stage_dispatch_started role true
    ∷ attempt (n + 2) stage_completed role true
    ∷ rest

abbrev decided : Receipt
decided =
    receipt 17 run_decision orchestrator derived (field "decision" (str "completed") no_fields)

abbrev labour : List Receipt
labour =
    planned
    ∷ accepted
    ∷ attempt 3 stage_attempt_created "builder" false
    ∷ injected
    ∷ attempt 5 stage_dispatch_started "builder" true
    ∷ attempt 6 stage_completed "builder" true
    ∷ stage 7 "g1d" (stage 10 "g1r" (stage 13 "g2a" []))

abbrev work : List Receipt
work = labour ++ decided ∷ []

abbrev state_of : Outcome → State
state_of (go_on s) = s
state_of (stop f) = initial

abbrev final : State
final = state_of (run world work initial)

abbrev nothing : List Receipt
nothing = []

abbrev ready : State
ready = state_of (run world labour initial)

abbrev built : Attempt
built = record {
  role = "builder";
  ordinal = 1;
  cycle = 0;
  dispatched = true;
  terminal = some stage_completed;
  created_sequence = 3;
}

abbrev two_lanes : List Receipt
two_lanes =
    planned
    ∷ attempt 2 stage_attempt_created "builder" false
    ∷ attempt 3 stage_attempt_created "g1d" false
    ∷ []

abbrev two_open : State
two_open = state_of (run world two_lanes initial)

-- The runs above, computed.
runs :
    (validate_lifecycle world true work ≡ none)
    × (run world work initial ≡ go_on final)
    × (final.terminal_decision ≡ true)
    × (run world labour initial ≡ go_on ready)
    × (step world decided ready ≡ go_on final)
    × (elem "builder" ready.required_roles ≡ true)
    × (lookup "builder" final.attempts ≡ some built)
    × (run world two_lanes initial ≡ go_on two_open)
unfolding validate_lifecycle run step apply accept authority transition_authority_finding
    validate_receipt_payload validate_transition oversized_value lookup insert Json.count_items
    nonempty_str opaque_id artifact_path media_type bounded_content_bytes sha256 nonnegative_int
    positive_int bounded_label redaction_names validate_run_planned validate_attempt
    bad_command_values validate_command_accepted validate_context_injected plain_decision
    validate_run_decision decision_text_finding any_open any_pending role_open latest catalog_names
    required_names items seal_plan on_run_planned on_command effective_of same_attempt
    provenance_fields differs finalize inject_attempt inject_command on_context_injected
    attempt_payload next_ordinal given_up any_given_up routed_here on_attempt_created
    identity_matches dispatch terminate attempt_moves attempt_known on_attempt on_run_decision
    on_orchestrator_decision decide_completed close_unless_pending Json.value_eq Json.items_eq
    Json.fields_within close busy all_completed
runs = (refl, refl, refl, refl, refl, refl, refl, refl)

sealed-settled_once_example :
    (acceptances "c1" work ≤ 1)
    × (settlements "c1" work ≤ 1)
    × (true ≡ true → 0 < acceptances "c1" work → settlements "c1" work ≡ 1)
sealed-settled_once_example = sealed-settled_once world true work "c1" runs.0

decided-quiet_example :
    ((id : String) (a : Attempt) → lookup id final.attempts ≡ some a → a.terminal ≢ none)
    × ((id : String) (c : Command)
        → lookup id final.commands ≡ some c
        → c.accepted ≡ true
        → c.finalized ≢ none)
    × (final.open_actions ≡ [])
decided-quiet_example = decided-quiet world work final runs.1 runs.2

decision-is_last_example : nothing ≡ []
decision-is_last_example = decision-is_last world labour decided nothing initial final runs.1 refl

completed-lanes-IsDone_example : IsDone ready "builder"
completed-lanes-IsDone_example =
    completed-lanes-IsDone world labour decided ready final "builder" runs.3 runs.4 refl refl refl
      runs.5

run-attempts_honest_example :
    (built.terminal ≡ some stage_completed → built.dispatched ≡ true)
    × (built.terminal ≡ some stage_rejected → built.dispatched ≡ true)
    × (built.terminal ≡ some stage_blocked → built.dispatched ≡ false)
run-attempts_honest_example = run-attempts_honest world work final "builder" built runs.1 runs.6

run-OneOpen_example : OneOpen two_open.attempts
run-OneOpen_example = run-OneOpen world two_lanes two_open runs.7
