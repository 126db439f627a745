-- ===== src/Evidence/Contract/Decisions/Deciding.antt =====
-- A receipt that decides a run leaves the run decided.
use torq_cli_python.Prelude.{
  ℕ, String, ◌≡◌, Bool, true, false, not, Option, none, some, List, arith,
}
use torq_cli_python.Json.{Value, Fields, arr, get, is_text}
use torq_cli_python.Evidence.Names.{
  Transition, run_decision, run_abandoned, Role, supervisor, operator_gateway,
}
use torq_cli_python.Evidence.Payload.Actions.{texts}
use torq_cli_python.Evidence.Contract.State.{Resolution, State}
use torq_cli_python.Evidence.Contract.Outcome.{Ends}
use torq_cli_python.Evidence.Contract.Decisions.{
  on_run_decision, on_supervisor_decision, on_operator_decision, operator_resolved,
  on_orchestrator_decision, on_run_abandoned, abandon_ids, abandon, close, decide_completed,
  decide_blocked, decide_failed, close_unless_pending,
}

-- The receipts that decide a run: an abandonment, and every decision but to await an approval.
abbrev pub is_final : Transition → Fields → Bool
is_final run_abandoned p = true
is_final run_decision p = not (is_text "awaiting_approval" (get "decision" p))
is_final _ p = false

abbrev pub IsDecided : State → Type 0
IsDecided s = s.terminal_decision ≡ true

module _ (s : State) where
  close_unless_pending-IsDecided : Ends IsDecided (close_unless_pending s)
  unfolding close_unless_pending close
  close_unless_pending-IsDecided = ground arith

  on_supervisor_decision-IsDecided : (p : Fields) → Ends IsDecided (on_supervisor_decision p s)
  unfolding on_supervisor_decision close
  on_supervisor_decision-IsDecided p = ground arith

  operator_resolved-IsDecided :
      (p : Fields) (o : Option Resolution) → Ends IsDecided (operator_resolved p s o)
  unfolding operator_resolved close
  operator_resolved-IsDecided p none = tt
  operator_resolved-IsDecided p (some r) = ground arith

  decide_completed-IsDecided : Ends IsDecided (decide_completed s)
  unfolding decide_completed
  decide_completed-IsDecided = ground (arith, close_unless_pending-IsDecided)

  decide_blocked-IsDecided : Ends IsDecided (decide_blocked s)
  unfolding decide_blocked
  decide_blocked-IsDecided = ground (arith, close_unless_pending-IsDecided)

  decide_failed-IsDecided : Ends IsDecided (decide_failed s)
  unfolding decide_failed
  decide_failed-IsDecided = ground (arith, close_unless_pending-IsDecided)

  on_orchestrator_decision-IsDecided :
      (p : Fields)
      → is_text "awaiting_approval" (get "decision" p) ≡ false
      → Ends IsDecided (on_orchestrator_decision p s)
  unfolding on_orchestrator_decision
  on_orchestrator_decision-IsDecided p h = rw h (
      ground (
        arith, decide_completed-IsDecided, decide_blocked-IsDecided, decide_failed-IsDecided,
        close_unless_pending-IsDecided,
      ))

  pub on_run_decision-IsDecided :
      (r : Role) (p : Fields)
      → is_text "awaiting_approval" (get "decision" p) ≡ false
      → Ends IsDecided (on_run_decision r p s)
  unfolding on_run_decision on_operator_decision
  on_run_decision-IsDecided supervisor p h = on_supervisor_decision-IsDecided p
  on_run_decision-IsDecided operator_gateway p h = operator_resolved-IsDecided p _
  on_run_decision-IsDecided _ p h = on_orchestrator_decision-IsDecided p h

  abandon-IsDecided :
      (seq : ℕ) (ids : List String) (p : Fields) → Ends IsDecided (abandon seq ids p s)
  unfolding abandon close
  abandon-IsDecided seq ids p = ground arith

  abandon_ids-IsDecided :
      (seq : ℕ) (v : Value) (p : Fields) → Ends IsDecided (abandon_ids seq v p s)
  unfolding abandon_ids
  abandon_ids-IsDecided seq (arr xs) p = abandon-IsDecided seq (texts xs) p
  abandon_ids-IsDecided seq _ p = tt

  pub on_run_abandoned-IsDecided :
      (seq : ℕ) (p : Fields) → Ends IsDecided (on_run_abandoned seq p s)
  unfolding on_run_abandoned
  on_run_abandoned-IsDecided seq p = abandon_ids-IsDecided seq (get "attempt_ids" p) p
