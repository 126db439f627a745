-- ===== src/Evidence/Contract/Decisions.antt =====
-- The decisions that close a run, by each of their writers, and abandonment.
pub mod Quiet
pub mod Deciding
use torq_cli_python.Prelude.{
  ℕ, ◌-◌, String, Bool, true, false, ◌&&◌, ◌||◌, not, Option, none, some, List, [], ◌∷◌, ◌==◌, eqb,
  any, all, elem, if◌then◌else◌,
}
use torq_cli_python.Json.{Value, arr, Items, Fields, get, is_text, text, number}
use torq_cli_python.Dict.{Dict}
use torq_cli_python.Evidence.Names.{
  Transition, stage_blocked, stage_rejected, stage_completed, stage_failed, stage_interrupted,
  run_abandoned, Role, supervisor, operator_gateway,
}
use torq_cli_python.Evidence.Finding.{
  supervisor_decision_link_invalid, supervisor_decision_precondition_invalid,
  operator_decision_link_invalid, operator_decision_outcome_mismatch,
  operator_decision_actions_open, run_decision_precondition_invalid,
  run_decision_required_lanes_incomplete, command_pending_at_terminal,
  run_abandoned_operator_action_open, run_abandoned_attempts_invalid,
  run_abandoned_empty_enumeration_invalid, run_abandoned_coverage_invalid, raised,
}
use torq_cli_python.Evidence.Payload.Actions.{texts}
use torq_cli_python.Evidence.Contract.State.{
  Attempt, Command, Resolution, State, is_some, is_empty, is_open, any_open, any_pending, latest,
  latest_ended_as,
}
use torq_cli_python.Evidence.Contract.Outcome.{Outcome, go_on, stop, stop_if}

-- `terminal_decision = True` and `run_terminating = False`
unfoldable pub close : State → State
close s = record s { terminal_decision = true; run_terminating = false }

-- `open_actions or any open attempt`
unfoldable pub busy : State → Bool
busy s = not (is_empty s.open_actions) || any_open s.attempts

pub on_supervisor_decision : Fields → State → Outcome
on_supervisor_decision p s =
    stop_if (not (any (λ n. eqb n (number (get "interruption_sequence" p))) s.interruptions))
      supervisor_decision_link_invalid
      (stop_if (busy s || any_pending s.commands) supervisor_decision_precondition_invalid
        (go_on (close s)))

pub find_resolution : ℕ → List Resolution → Option Resolution
find_resolution n [] = none
find_resolution n (r ∷ rs) = if eqb r.sequence n then some r else find_resolution n rs

pub decides : Resolution → Value → Bool
decides r v = elim r.decision [ none ↦ false | some d ↦ is_text d v ]

pub operator_resolved : Fields → State → Option Resolution → Outcome
operator_resolved p s none = stop operator_decision_link_invalid
operator_resolved p s (some r) =
    stop_if (not (is_text r.action_id (get "action_id" p))) operator_decision_link_invalid (
      stop_if (not (decides r (get "decision" p))) operator_decision_outcome_mismatch (
        stop_if (busy s || (not s.execution_complete_action_open || any_pending s.commands))
          operator_decision_actions_open (go_on (close s))))

pub on_operator_decision : Fields → State → Outcome
on_operator_decision p s =
    operator_resolved p s
      (find_resolution (number (get "action_resolved_sequence" p)) s.resolved_actions)

-- Some required role's latest attempt ended so.
some_latest : Transition → State → Bool
some_latest t s = any (λ role. latest_ended_as t (latest role s.attempts)) s.required_roles

-- Every required role has an attempt, and the latest one was completed.
unfoldable pub all_completed : State → Bool
all_completed s =
    all (λ role. latest_ended_as stage_completed (latest role s.attempts)) s.required_roles

-- The end of a terminal decision: no accepted command may wait.
unfoldable pub close_unless_pending : State → Outcome
close_unless_pending s =
    stop_if (any_pending s.commands) command_pending_at_terminal (go_on (close s))

unfoldable pub await_approval : State → Outcome
await_approval s =
    stop_if (is_empty s.open_actions || any_open s.attempts) run_decision_precondition_invalid
      (go_on (record s { execution_complete_action_open = true; waiting_on_operator = true }))

unfoldable pub decide_completed : State → Outcome
decide_completed s = stop_if (busy s) run_decision_precondition_invalid (
    stop_if (not (all_completed s)) run_decision_required_lanes_incomplete (close_unless_pending s))

pub decide_blocked : State → Outcome
decide_blocked s = stop_if (busy s) run_decision_precondition_invalid (
    stop_if
      (not (some_latest stage_blocked s || some_latest stage_rejected s)
        || (some_latest stage_failed s || some_latest stage_interrupted s))
      run_decision_precondition_invalid (close_unless_pending s))

pub decide_failed : State → Outcome
decide_failed s = stop_if (busy s) run_decision_precondition_invalid (
    stop_if (not (some_latest stage_failed s || some_latest stage_interrupted s))
      run_decision_precondition_invalid (close_unless_pending s))

-- `status` is one of the four values that the payload's validator lets through; the last branch
-- is what the source does with any other.
unfoldable pub on_orchestrator_decision : Fields → State → Outcome
on_orchestrator_decision p s =
    let status = get "decision" p in
    if is_text "awaiting_approval" status
    then await_approval s
    else if is_text "completed" status
    then decide_completed s
    else if is_text "blocked" status
    then decide_blocked s
    else if is_text "failed" status
    then decide_failed s
    else close_unless_pending s

unfoldable pub on_run_decision : Role → Fields → State → Outcome
unfolding on_supervisor_decision on_operator_decision on_orchestrator_decision
on_run_decision supervisor p s = on_supervisor_decision p s
on_run_decision operator_gateway p s = on_operator_decision p s
on_run_decision _ p s = on_orchestrator_decision p s

open_ids : Dict Attempt → List String
open_ids [] = []
open_ids ((k, a) ∷ d) = let rest = open_ids d in if is_open a then k ∷ rest else rest

-- Two lists hold the same texts.
same_set : List String → List String → Bool
same_set xs ys = all (λ x. elem x ys) xs && all (λ y. elem y xs) ys

-- `attempts[...]["terminal"] = "run_abandoned"` for every open attempt
unfoldable pub abandon_open : Dict Attempt → Dict Attempt
abandon_open [] = []
abandon_open ((k, a) ∷ d) =
    (k, if is_open a then record a { terminal = some run_abandoned } else a) ∷ abandon_open d

pub abandon : ℕ → List String → Fields → State → Outcome
abandon seq ids p s =
    stop_if (s.waiting_on_operator || not (is_empty s.open_actions))
      run_abandoned_operator_action_open
      (stop_if (s.terminal_decision || not (same_set ids (open_ids s.attempts)))
        run_abandoned_attempts_invalid
        (stop_if (is_empty ids && (not s.saw_catalog || not (is_empty s.attempts)))
          run_abandoned_empty_enumeration_invalid
          (stop_if (not (eqb (number (get "last_covered_sequence" p)) (seq - 1)))
            run_abandoned_coverage_invalid
            (stop_if (any_pending s.commands) command_pending_at_terminal
              (go_on (close (record s { attempts = abandon_open s.attempts })))))))

pub abandon_ids : ℕ → Value → Fields → State → Outcome
unfolding abandon
abandon_ids seq (arr xs) p s = abandon seq (texts xs) p s
abandon_ids seq _ p s = stop raised

pub on_run_abandoned : ℕ → Fields → State → Outcome
unfolding abandon_ids
on_run_abandoned seq p s = abandon_ids seq (get "attempt_ids" p) p s
