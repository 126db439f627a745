-- ===== src/Evidence/Contract/Decisions/Quiet.antt =====
-- A branch that closes the run leaves nothing waiting.
use torq_cli_python.Prelude.{
  ℕ, String, ◌≡◌, ◌⊎◌, refl, true, false, ◌||◌, Option, none, some, List, [], ◌∷◌, arith,
}
use torq_cli_python.Json.{Value, Fields, null, str, arr, get, is_text}
use torq_cli_python.Dict.{Dict}
use torq_cli_python.Evidence.Names.{Role, orchestrator, supervisor, operator_gateway}
use torq_cli_python.Evidence.Payload.Actions.{texts}
use torq_cli_python.Evidence.Payload.Shape.{is_one_of}
use torq_cli_python.Evidence.Payload.Decisions.{validate_run_decision, plain_decision}
use torq_cli_python.Evidence.Contract.State.{
  Attempt, Resolution, State, is_empty, any_open, any_pending,
}
use torq_cli_python.Evidence.Contract.Outcome.{Ends}
use torq_cli_python.Evidence.Contract.Decisions.{
  on_run_decision, on_supervisor_decision, on_operator_decision, operator_resolved,
  on_orchestrator_decision, on_run_abandoned, abandon_ids, abandon, close, await_approval,
  decide_completed, decide_blocked, decide_failed, close_unless_pending, busy, abandon_open,
}

-- No attempt is open, no accepted command waits, no action is open, and the run is not terminating.
pub record Quiet (s : State) : Type 0 where
  pub attempts : any_open s.attempts ≡ false
  pub commands : any_pending s.commands ≡ false
  pub actions : is_empty s.open_actions ≡ true
  calm : s.run_terminating ≡ false

-- A decision leaves the attempts and the commands as they are, and closes a quiet run if any.
pub record Decides (s s' : State) : Type 0 where
  pub attempts : s'.attempts ≡ s.attempts
  pub ordinals : s'.ordinals ≡ s.ordinals
  pub commands : s'.commands ≡ s.commands
  pub decided : (s'.terminal_decision ≡ s.terminal_decision) ⊎ Quiet s'

abbrev pub Abandons : State → State → Type 0
Abandons s s' =
    (s'.attempts ≡ abandon_open s.attempts)
    × (s'.ordinals ≡ s.ordinals)
    × (s'.commands ≡ s.commands)
    × Quiet s'

any_open-abandon_open : (d : Dict Attempt) → any_open (abandon_open d) ≡ false
unfolding any_open abandon_open
any_open-abandon_open [] = refl
any_open-abandon_open ((k, a) ∷ d) = ground (arith, any_open-abandon_open d)

module _ (s : State) where
  close-Decides : busy s ≡ false → any_pending s.commands ≡ false → Decides s (close s)
  unfolding close busy
  close-Decides h k = ground arith

  close_unless_pending-Decides : busy s ≡ false → Ends (Decides s) (close_unless_pending s)
  unfolding close_unless_pending
  close_unless_pending-Decides h = ground (arith, close-Decides)

  on_supervisor_decision-Decides : (p : Fields) → Ends (Decides s) (on_supervisor_decision p s)
  unfolding on_supervisor_decision
  on_supervisor_decision-Decides p = ground (arith, close-Decides)

  operator_resolved-Decides :
      (p : Fields) (o : Option Resolution) → Ends (Decides s) (operator_resolved p s o)
  unfolding operator_resolved
  operator_resolved-Decides p none = tt
  operator_resolved-Decides p (some r) = ground (arith, close-Decides)

  await_approval-Decides : Ends (Decides s) (await_approval s)
  unfolding await_approval
  await_approval-Decides = ground arith

  decide_completed-Decides : Ends (Decides s) (decide_completed s)
  unfolding decide_completed
  decide_completed-Decides = ground (arith, close_unless_pending-Decides)

  decide_blocked-Decides : Ends (Decides s) (decide_blocked s)
  unfolding decide_blocked
  decide_blocked-Decides = ground (arith, close_unless_pending-Decides)

  decide_failed-Decides : Ends (Decides s) (decide_failed s)
  unfolding decide_failed
  decide_failed-Decides = ground (arith, close_unless_pending-Decides)

  abandon-Abandons :
      (seq : ℕ) (ids : List String) (p : Fields) → Ends (Abandons s) (abandon seq ids p s)
  unfolding abandon close
  abandon-Abandons seq ids p = ground (arith, any_open-abandon_open s.attempts)

  abandon_ids-Abandons :
      (seq : ℕ) (v : Value) (p : Fields) → Ends (Abandons s) (abandon_ids seq v p s)
  unfolding abandon_ids
  abandon_ids-Abandons seq (arr xs) p = abandon-Abandons seq (texts xs) p
  abandon_ids-Abandons seq _ p = tt

  pub on_run_abandoned-Abandons :
      (seq : ℕ) (p : Fields) → Ends (Abandons s) (on_run_abandoned seq p s)
  unfolding on_run_abandoned
  on_run_abandoned-Abandons seq p = abandon_ids-Abandons seq (get "attempt_ids" p) p

-- The four decisions that the payload's validator lets through.
four_decisions :
    (v : Value)
    → is_one_of ("awaiting_approval" ∷ "blocked" ∷ "completed" ∷ "failed" ∷ []) v ≡ true
    → (is_text "awaiting_approval" v
        || (is_text "completed" v || (is_text "blocked" v || is_text "failed" v)))
      ≡ true
four_decisions (str t) h = ground arith
four_decisions null h = cc
four_decisions v h = cc

plain-allowed :
    (r : Role) (p : Fields)
    → plain_decision p ≡ none
    → is_one_of ("awaiting_approval" ∷ "blocked" ∷ "completed" ∷ "failed" ∷ []) (get "decision" p)
      ≡ true
unfolding plain_decision
plain-allowed r p h = ground arith

module _ (s : State) where
  on_orchestrator_decision-Decides :
      (p : Fields) → plain_decision p ≡ none → Ends (Decides s) (on_orchestrator_decision p s)
  unfolding on_orchestrator_decision
  on_orchestrator_decision-Decides p h = ground (
    arith,
    four_decisions (get "decision" p) (plain-allowed orchestrator p h),
    await_approval-Decides s,
    decide_completed-Decides s,
    decide_blocked-Decides s,
    decide_failed-Decides s,
  )

  -- Whoever decides, with a payload that its validator passes.
  pub on_run_decision-Decides :
      (r : Role) (p : Fields)
      → validate_run_decision r p ≡ none
      → Ends (Decides s) (on_run_decision r p s)
  unfolding on_run_decision on_operator_decision validate_run_decision
  on_run_decision-Decides supervisor p h = on_supervisor_decision-Decides s p
  on_run_decision-Decides operator_gateway p h = operator_resolved-Decides s p _
  on_run_decision-Decides _ p h = on_orchestrator_decision-Decides p h
