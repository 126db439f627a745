-- ===== src/Audit/Task.antt =====
-- src/torq_cli/domain/task_evidence.py: the events of a task and their payloads.
pub mod Payload
pub mod Contract
use torq_cli_python.Prelude.{
  ℕ, String, Bool, true, false, Option, none, some, ◌==◌, eqb, if◌then◌else◌,
}
use torq_cli_python.Json.{Value, str}

-- `TASK_EVENTS`
pub data Event : Type 0 where
  task_start_accepted candidate_generated candidate_check_completed : Event
  candidate_ready task_failed task_interrupted task_cancelled : Event

abbrev pub event_named : String → Option Event
event_named s =
    if s == "task_start_accepted"
    then some task_start_accepted
    else if s == "candidate_generated"
    then some candidate_generated
    else if s == "candidate_check_completed"
    then some candidate_check_completed
    else if s == "candidate_ready"
    then some candidate_ready
    else if s == "task_failed"
    then some task_failed
    else if s == "task_interrupted"
    then some task_interrupted
    else if s == "task_cancelled"
    then some task_cancelled
    else none

abbrev pub event_of : Value → Option Event
event_of (str s) = event_named s
event_of _ = none

abbrev event_number : Event → ℕ
event_number task_start_accepted = 0
event_number candidate_generated = 1
event_number candidate_check_completed = 2
event_number candidate_ready = 3
event_number task_failed = 4
event_number task_interrupted = 5
event_number task_cancelled = 6

abbrev pub same_event : Event → Event → Bool
same_event e f = eqb (event_number e) (event_number f)
