-- ===== src/Evidence/Contract/Tests.antt =====
-- A command for the lead: its revision names one attempt, and its injection another.
use torq_cli_python.Prelude.{ℕ, String, ◌≡◌, refl, true, false, none, some, [], ◌∷◌}
use torq_cli_python.Json.{
  Fields, field, no_fields, str, int, null, obj, arr, item, no_items, get, text, value_eq,
}
use torq_cli_python.Dict.{lookup, insert}
use torq_cli_python.Evidence.Names.{context_injected}
use torq_cli_python.Evidence.Contract.State.{State, Attempt, Command, initial}
use torq_cli_python.Evidence.Contract.Outcome.{Outcome, go_on, stop}
use torq_cli_python.Evidence.Contract.Commands.{
  on_run_replanned, on_context_injected, replan_attempt, items, first_fields, effective_of,
  same_attempt, differs, provenance_fields, finalize, replan_command,
}
use torq_cli_python.Evidence.Contract.Commands.Replanning.{
  Repeats, Eligible, injected_into, replan-inject_other,
}

abbrev accepted : Fields
accepted = field "command_id" (str "c1") (field "target_role" (str "lead") no_fields)

abbrev waiting : Command
waiting = record {
  accepted = true;
  sequence = 2;
  payload = accepted;
  finalized = none;
  replanned = false;
}

abbrev created : String → ℕ → Attempt
created role seq = record {
  role = role;
  ordinal = 1;
  cycle = 0;
  dispatched = false;
  terminal = none;
  created_sequence = seq;
}

abbrev named : String → ℕ → Fields
named role seq = field "role" (str role) (
    field "attempt_id" (str role)
      (field "attempt_ordinal" (int 1) (field "attempt_created_sequence" (int seq) no_fields)))

abbrev before : State
before = record initial {
  attempts = ("g1d", created "g1d" 3) ∷ ("builder", created "builder" 4) ∷ [];
  commands = ("c1", waiting) ∷ [];
  current_plan_hash = some "old";
}

abbrev revision : Fields
revision = field "command_id" (str "c1") (
    field "plan_revision" (int 1) (
      field "previous_replan_sequence" null (
        field "accepted_sequence" (int 2) (
          field "old_plan_hash" (str "old") (
            field "new_plan_hash" (str "new") (
              field "affected_future_attempts" (arr (item (obj (named "g1d" 3)) no_items))
                no_fields))))))

abbrev injection : Fields
injection = field "command_id" (str "c1") (
    field "target_role" (str "lead") (
      field "accepted_sequence" (int 2)
        (field "effective_attempt" (obj (named "builder" 4)) no_fields)))

abbrev state_of : Outcome → State
state_of (go_on s) = s
state_of (stop f) = initial

abbrev revised : State
revised = state_of (on_run_replanned 5 revision before)

revision-accepted : on_run_replanned 5 revision before ≡ go_on revised
unfolding on_run_replanned replan_command replan_attempt lookup insert items first_fields
    effective_of same_attempt value_eq
revision-accepted = refl

waiting-found : lookup (text (get "command_id" injection)) before.commands ≡ some waiting
unfolding lookup
waiting-found = refl

injection-Repeats : Repeats injection waiting
unfolding differs provenance_fields value_eq
injection-Repeats = (refl, refl, refl)

builder-found :
    lookup (injected_into injection).attempt_id before.attempts ≡ some (created "builder" 4)
unfolding lookup effective_of
builder-found = refl

builder-Eligible : Eligible (injected_into injection) (created "builder" 4) waiting
unfolding same_attempt effective_of
builder-Eligible = (refl, refl, refl)

replan-inject_other_example :
    on_context_injected injection revised
    ≡ go_on (
        finalize context_injected "c1"
          (record waiting { replanned = true })
          (record revised { effective = some (injected_into injection) }))
replan-inject_other_example =
    replan-inject_other before revised 5 revision injection waiting (created "builder" 4)
      revision-accepted refl refl waiting-found injection-Repeats builder-found builder-Eligible
