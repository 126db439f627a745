-- ===== src/Evidence/Contract/Commands.antt =====
-- Run plans, repair routing, and operator commands from acceptance to their application.
pub mod Settling
pub mod Accepting
pub mod Replanning
use torq_cli_python.Prelude.{
  ℕ, suc, ◌+◌, ◌-◌, String, Bool, true, false, ◌&&◌, ◌||◌, not, Option, none, some, List, [], ◌∷◌,
  ◌==◌, ltb, leb, eqb, any, if◌then◌else◌,
}
use torq_cli_python.Json
use torq_cli_python.Json.{
  Value, arr, obj, Items, no_items, item, Fields, get, is_text, is_true, is_null, text, number,
  fields, value_eq,
}
use torq_cli_python.Dict.{Dict, lookup, insert}
use torq_cli_python.Evidence.Names.{
  Transition, stage_rejected, context_injected, command_unapplied, same_transition,
}
use torq_cli_python.Evidence.Finding.{
  lane_catalog_duplicate, run_plan_hash_invalid, terminalization_started_precondition_invalid,
  repair_route_qualifying_defect_missing, repair_route_attempt_duplicate, command_id_duplicate,
  run_replanned_precondition_invalid, run_replanned_attempt_invalid, command_accept_missing,
  command_already_finalized, command_accept_link_invalid, command_extraction_link_invalid,
  command_replan_missing, command_replan_attempt_mismatch, command_effective_attempt_invalid,
  command_boundary_violated, command_unapplied_precondition_invalid, raised,
}
use torq_cli_python.Evidence.Payload.Shape.{sha256}
use torq_cli_python.Evidence.Contract.State.{
  Attempt, Effective, Command, Repair, State, is_some, is_empty, is_open, any_pending, latest,
  latest_ended_as,
}
use torq_cli_python.Evidence.Contract.Outcome.{Outcome, go_on, stop, stop_if}

-- The roles that the catalog names, and those of its rows that are required. The payload's
-- validator has seen to it that the rows are mappings with texts for roles.
unfoldable pub catalog_names : Items → List String
catalog_names no_items = []
catalog_names (item (obj row) xs) = text (get "role" row) ∷ catalog_names xs
catalog_names (item _ xs) = catalog_names xs

unfoldable pub required_names : Items → List String
required_names no_items = []
required_names (item (obj row) xs) =
    let rest = required_names xs in
    if is_true (get "required" row) then text (get "role" row) ∷ rest else rest
required_names (item _ xs) = required_names xs

unfoldable pub items : Value → Items
items (arr xs) = xs
items _ = no_items

unfoldable pub seal_plan : Value → State → Outcome
seal_plan digest s =
    if is_null digest
    then go_on s
    else if sha256 digest
    then go_on (record s { current_plan_hash = some (text digest) })
    else stop run_plan_hash_invalid

unfoldable pub on_run_planned : Fields → State → Outcome
unfolding seal_plan
on_run_planned p s =
    let catalog = items (get "lane_catalog" p) in
    stop_if s.saw_catalog lane_catalog_duplicate (
      seal_plan (get "plan_hash" p) (record s {
        saw_run_planned = true;
        saw_catalog = true;
        catalog_roles = catalog_names catalog;
        required_roles = required_names catalog;
      }))

unfoldable pub on_terminalization_started : State → Outcome
on_terminalization_started s =
    stop_if (s.run_terminating || (not (is_empty s.open_actions) || not (any_pending s.commands)))
      terminalization_started_precondition_invalid (go_on (record s { run_terminating = true }))

unfoldable pub on_repair_routed : Fields → State → Outcome
on_repair_routed p s =
    let attempt_id = text (get "attempt_id" p) in
    stop_if (not (latest_ended_as stage_rejected (latest "g2a" s.attempts)))
      repair_route_qualifying_defect_missing
      (stop_if (is_some (lookup attempt_id s.repairs)) repair_route_attempt_duplicate (
        go_on (record s {
          repairs =
              insert attempt_id
                (record {
                  target_role = text (get "target_role" p);
                  attempt_ordinal = number (get "attempt_ordinal" p);
                  cycle = number (get "cycle" p);
                })
                s.repairs;
        })))

-- `command_accepted` and `command_rejected`
unfoldable pub on_command : Bool → ℕ → Fields → State → Outcome
on_command accepted seq p s =
    let command_id = text (get "command_id" p) in
    stop_if (is_some (lookup command_id s.commands)) command_id_duplicate (
      go_on (record s {
        commands =
            insert command_id
              (record {
                accepted = accepted;
                sequence = seq;
                payload = p;
                finalized = none;
                replanned = false;
              })
              s.commands;
      }))

abbrev pub targets : String → Command → Bool
targets role c = is_text role (get "target_role" c.payload)

unfoldable pub effective_of : Fields → Effective
effective_of e = record {
  role = text (get "role" e);
  attempt_id = text (get "attempt_id" e);
  attempt_ordinal = number (get "attempt_ordinal" e);
  attempt_created_sequence = number (get "attempt_created_sequence" e);
}

-- `attempts[...]` has the role, the ordinal and the sequence that a command names.
unfoldable pub same_attempt : Effective → Attempt → Bool
same_attempt e a =
    a.role == e.role
    && (eqb a.ordinal e.attempt_ordinal && eqb a.created_sequence e.attempt_created_sequence)

same_sequence : Option ℕ → Value → Bool
same_sequence none v = is_null v
same_sequence (some n) v = value_eq (Json.int n) v

same_hash : Option String → Value → Bool
same_hash none v = false
same_hash (some h) v = is_text h v

unfoldable pub replan_attempt :
    ℕ → String → Fields → Effective → Command → State → Option Attempt → Outcome
replan_attempt seq command_id p e c s none = stop run_replanned_attempt_invalid
replan_attempt seq command_id p e c s (some a) =
    stop_if
      (not (same_attempt e a)
        || (leb a.created_sequence c.sequence || (a.dispatched || not (is_open a))))
      run_replanned_attempt_invalid
      (go_on (record s {
        commands = insert command_id (record c { replanned = true }) s.commands;
        replanned_attempts = insert command_id e s.replanned_attempts;
        current_plan_hash = some (text (get "new_plan_hash" p));
        plan_revision = s.plan_revision + 1;
        last_replan_sequence = some seq;
        effective = some e;
      }))

-- The command that a revision applies must be an accepted one for the lead that waits.
pub replan_refused : Fields → Command → State → Bool
replan_refused p c s =
    not c.accepted
    || (not (targets "lead" c)
        || (is_some c.finalized
            || (c.replanned
                || (not (is_some s.current_plan_hash)
                    || (not (eqb (number (get "accepted_sequence" p)) c.sequence)
                        || not (eqb (number (get "plan_revision" p)) (s.plan_revision + 1)))))))

-- The revision must follow the plan in force.
pub plan_moved : Fields → State → Bool
unfolding same_sequence same_hash
plan_moved p s =
    not (same_sequence s.last_replan_sequence (get "previous_replan_sequence" p))
    || not (same_hash s.current_plan_hash (get "old_plan_hash" p))

-- The payload's validator lets a missing `previous_replan_sequence` through; reading it raises.
unfoldable pub replan_command : ℕ → String → Fields → Effective → State → Option Command → Outcome
unfolding replan_refused plan_moved
replan_command seq command_id p e s none = stop run_replanned_precondition_invalid
replan_command seq command_id p e s (some c) =
    stop_if (replan_refused p c s) run_replanned_precondition_invalid (
      stop_if (not (Json.has "previous_replan_sequence" p)) raised (
        stop_if (plan_moved p s) run_replanned_precondition_invalid
          (replan_attempt seq command_id p e c s (lookup e.attempt_id s.attempts))))

unfoldable pub first_fields : Items → Fields
first_fields (item v xs) = fields v
first_fields no_items = Json.no_fields

unfoldable pub on_run_replanned : ℕ → Fields → State → Outcome
unfolding replan_command
on_run_replanned seq p s =
    let command_id = text (get "command_id" p) in
    let e = effective_of (first_fields (items (get "affected_future_attempts" p))) in
    replan_command seq command_id p e s (lookup command_id s.commands)

-- The fields that an injection must repeat from the acceptance.
unfoldable pub provenance_fields : List String
provenance_fields =
    "command_type" ∷ "context_id" ∷ "target_role" ∷ "artifact" ∷ "artifact_hash" ∷ "media_type"
    ∷ "source_name" ∷ "content_bytes" ∷ "redactions" ∷ "extraction" ∷ "direct_route_confirmed" ∷ []

unfoldable pub differs : Fields → Fields → String → Bool
differs p q k = not (value_eq (get k p) (get k q))

-- `replanned_attempts.get(command_id) != effective`
pub same_effective : Option Effective → Option Effective → Bool
same_effective none none = true
same_effective (some a) (some b) =
    a.role == b.role
    && (a.attempt_id == b.attempt_id
        && (eqb a.attempt_ordinal b.attempt_ordinal
            && eqb a.attempt_created_sequence b.attempt_created_sequence))
same_effective _ _ = false

unfoldable pub finalize : Transition → String → Command → State → State
finalize t command_id c s = record s {
  commands = insert command_id (record c { finalized = some t }) s.commands;
}

unfoldable pub inject_attempt : String → Effective → Command → State → Option Attempt → Outcome
unfolding finalize
inject_attempt command_id e c s none = stop command_effective_attempt_invalid
inject_attempt command_id e c s (some a) =
    stop_if (not (same_attempt e a) || a.dispatched) command_effective_attempt_invalid (
      stop_if (leb a.created_sequence c.sequence) command_boundary_violated (
        stop_if (not (targets "lead" c) && not (targets a.role c)) command_effective_attempt_invalid
          (go_on (finalize context_injected command_id c (record s { effective = some e })))))

-- The mismatch test reads the loop's `effective` as the receipts before this one left it.
unfoldable pub inject_command : String → Fields → State → Option Command → Outcome
inject_command command_id p s none = stop command_accept_missing
inject_command command_id p s (some c) =
    let e = effective_of (fields (get "effective_attempt" p)) in
    stop_if (not c.accepted) command_accept_missing (
      stop_if (is_some c.finalized) command_already_finalized (
        stop_if (not (eqb (number (get "accepted_sequence" p)) c.sequence))
          command_accept_link_invalid
          (stop_if (any (differs p c.payload) ("artifact" ∷ "artifact_hash" ∷ "target_role" ∷ []))
            command_accept_link_invalid
            (stop_if (any (differs p c.payload) provenance_fields) command_extraction_link_invalid (
              stop_if (targets "lead" c && not c.replanned) command_replan_missing (
                stop_if
                  (targets "lead" c
                    && not (same_effective (lookup command_id s.replanned_attempts) s.effective))
                  command_replan_attempt_mismatch
                  (inject_attempt command_id e c s (lookup e.attempt_id s.attempts))))))))

-- `context_injected` with a `command_id`
unfoldable pub on_context_injected : Fields → State → Outcome
unfolding inject_command
on_context_injected p s =
    let command_id = text (get "command_id" p) in
    if Json.has "command_id" p
    then inject_command command_id p s (lookup command_id s.commands)
    else go_on s

unfoldable pub unapply_command : ℕ → String → Fields → State → Option Command → Outcome
unfolding finalize
unapply_command seq command_id p s none = stop command_accept_missing
unapply_command seq command_id p s (some c) = stop_if (not c.accepted) command_accept_missing (
    stop_if (is_some c.finalized) command_already_finalized (
      stop_if (not (eqb (number (get "accepted_sequence" p)) c.sequence))
        command_accept_link_invalid
        (stop_if (not (eqb (number (get "last_covered_sequence" p)) (seq - 1)))
          command_unapplied_precondition_invalid
          (stop_if (is_text "run_terminating" (get "reason" p) && not s.run_terminating)
            command_unapplied_precondition_invalid
            (go_on (finalize command_unapplied command_id c s))))))

unfoldable pub on_command_unapplied : ℕ → Fields → State → Outcome
unfolding unapply_command
on_command_unapplied seq p s =
    let command_id = text (get "command_id" p) in
    unapply_command seq command_id p s (lookup command_id s.commands)
