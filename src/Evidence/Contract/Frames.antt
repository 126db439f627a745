-- ===== src/Evidence/Contract/Frames.antt =====
-- What a branch leaves alone.
use torq_cli_python.Prelude.{ℕ, String, ◌≡◌, Bool, not, Option, none, some, arith}
use torq_cli_python.Json.{Fields, has, get, text, fields}
use torq_cli_python.Dict.{lookup}
use torq_cli_python.Evidence.Names.{Transition}
use torq_cli_python.Evidence.Contract.State.{Attempt, Command, Effective, State}
use torq_cli_python.Evidence.Contract.Outcome.{Ends, Ends-stop_if_thrice}
use torq_cli_python.Evidence.Contract.Commands.{
  on_run_planned, on_terminalization_started, on_repair_routed, on_command, on_run_replanned,
  on_context_injected, on_command_unapplied, replan_command, replan_refused, plan_moved,
  replan_attempt, inject_command, inject_attempt, unapply_command, effective_of,
}
use torq_cli_python.Evidence.Contract.Attempts.{AttemptPayload, on_attempt_created, on_attempt}
use torq_cli_python.Evidence.Contract.Actions.{on_action_opened, on_action_resolved}

-- The attempts, their numbering and whether the run is decided.
pub record SameAttempts (s s' : State) : Type 0 where
  pub attempts : s'.attempts ≡ s.attempts
  pub ordinals : s'.ordinals ≡ s.ordinals
  pub decided : s'.terminal_decision ≡ s.terminal_decision

-- The commands and whether the run is decided.
pub record SameCommands (s s' : State) : Type 0 where
  pub commands : s'.commands ≡ s.commands
  pub decided : s'.terminal_decision ≡ s.terminal_decision

module _ (s : State) where
  pub on_run_planned-frame :
      (p : Fields) → Ends (λ s'. SameAttempts s s' × SameCommands s s') (on_run_planned p s)
  unfolding on_run_planned
  on_run_planned-frame p = ground arith

  pub on_terminalization_started-frame :
      Ends (λ s'. SameAttempts s s' × SameCommands s s') (on_terminalization_started s)
  unfolding on_terminalization_started
  on_terminalization_started-frame = ground arith

  pub on_repair_routed-frame :
      (p : Fields) → Ends (λ s'. SameAttempts s s' × SameCommands s s') (on_repair_routed p s)
  unfolding on_repair_routed
  on_repair_routed-frame p = ground arith

  pub on_command-frame :
      (b : Bool) (seq : ℕ) (p : Fields) → Ends (λ s'. SameAttempts s s') (on_command b seq p s)
  unfolding on_command
  on_command-frame b seq p = ground arith

  replan_attempt-frame :
      (seq : ℕ) (key : String) (p : Fields) (e : Effective) (c : Command) (a : Option Attempt)
      → Ends (λ s'. SameAttempts s s') (replan_attempt seq key p e c s a)
  unfolding replan_attempt
  replan_attempt-frame seq key p e c none = tt
  replan_attempt-frame seq key p e c (some a) = ground arith

  replan_command-frame :
      (seq : ℕ) (key : String) (p : Fields) (e : Effective) (o : Option Command)
      → Ends (λ s'. SameAttempts s s') (replan_command seq key p e s o)
  unfolding replan_command
  replan_command-frame seq key p e none = tt
  replan_command-frame seq key p e (some c) =
      Ends-stop_if_thrice _ (replan_refused p c s) (not (has "previous_replan_sequence" p))
        (plan_moved p s) _ _ _ (replan_attempt seq key p e c s (lookup e.attempt_id s.attempts))
        (replan_attempt-frame seq key p e c (lookup e.attempt_id s.attempts))

  pub on_run_replanned-frame :
      (seq : ℕ) (p : Fields) → Ends (λ s'. SameAttempts s s') (on_run_replanned seq p s)
  unfolding on_run_replanned
  on_run_replanned-frame seq p =
      replan_command-frame seq _ p _ (lookup (text (get "command_id" p)) s.commands)

  inject_attempt-frame :
      (key : String) (e : Effective) (c : Command) (a : Option Attempt)
      → Ends (λ s'. SameAttempts s s') (inject_attempt key e c s a)
  unfolding inject_attempt
  inject_attempt-frame key e c none = tt
  inject_attempt-frame key e c (some a) = ground arith

  inject_command-frame :
      (key : String) (p : Fields) (o : Option Command)
      → Ends (λ s'. SameAttempts s s') (inject_command key p s o)
  unfolding inject_command
  inject_command-frame key p none = tt
  inject_command-frame key p (some c) =
      let e = effective_of (fields (get "effective_attempt" p)) in
      ground (arith, inject_attempt-frame key e c (lookup e.attempt_id s.attempts))

  pub on_context_injected-frame :
      (p : Fields) → Ends (λ s'. SameAttempts s s') (on_context_injected p s)
  unfolding on_context_injected
  on_context_injected-frame p = ground (
    arith,
    inject_command-frame (text (get "command_id" p)) p
        (lookup (text (get "command_id" p)) s.commands),
  )

  unapply_command-frame :
      (seq : ℕ) (key : String) (p : Fields) (o : Option Command)
      → Ends (λ s'. SameAttempts s s') (unapply_command seq key p s o)
  unfolding unapply_command
  unapply_command-frame seq key p none = tt
  unapply_command-frame seq key p (some c) = ground arith

  pub on_command_unapplied-frame :
      (seq : ℕ) (p : Fields) → Ends (λ s'. SameAttempts s s') (on_command_unapplied seq p s)
  unfolding on_command_unapplied
  on_command_unapplied-frame seq p =
      unapply_command-frame seq (text (get "command_id" p)) p
        (lookup (text (get "command_id" p)) s.commands)

  pub on_attempt_created-frame :
      (seq : ℕ) (p : AttemptPayload) → Ends (λ s'. SameCommands s s') (on_attempt_created seq p s)
  unfolding on_attempt_created
  on_attempt_created-frame seq p = ground arith

  pub on_attempt-frame :
      (t : Transition) (seq : ℕ) (p : AttemptPayload)
      → Ends (λ s'. SameCommands s s') (on_attempt t seq p s)
  unfolding on_attempt
  on_attempt-frame t seq p = ground arith

  pub on_action_opened-frame :
      (seq : ℕ) (p : Fields)
      → Ends (λ s'. SameAttempts s s' × SameCommands s s') (on_action_opened seq p s)
  unfolding on_action_opened
  on_action_opened-frame seq p = ground arith

  pub on_action_resolved-frame :
      (seq : ℕ) (p : Fields)
      → Ends (λ s'. SameAttempts s s' × SameCommands s s') (on_action_resolved seq p s)
  unfolding on_action_resolved
  on_action_resolved-frame seq p = ground arith
