-- ===== src/Evidence/Contract/Run/Tally.antt =====
-- Counting along an accepted list what its receipts do to one command: a number that a state has
-- for the command, and how much a receipt adds to it.
use torq_cli_python.Prelude.{ℕ, suc, ◌+◌, ◌≡◌, refl, ap, true, false, none, List, [], ◌∷◌, arith}
use torq_cli_python.Json.{Fields, fields}
use torq_cli_python.Evidence.Names.{
  Transition, run_planned, stage_attempt_created, stage_dispatch_started, stage_blocked,
  stage_rejected, stage_completed, stage_failed, stage_interrupted, repair_routed, action_opened,
  action_resolved, terminalization_started, run_decision, run_replanned, run_abandoned,
  command_accepted, command_rejected, command_unapplied, context_injected, Role,
}
use torq_cli_python.Evidence.World.{World}
use torq_cli_python.Evidence.Payload.Validate.{validate_transition}
use torq_cli_python.Evidence.Contract.State.{State, Receipt}
use torq_cli_python.Evidence.Contract.Outcome.{Outcome, go_on, Ends, Ends-map, Ends-go_on}
use torq_cli_python.Evidence.Contract.Frames.{
  SameAttempts, SameCommands, on_run_planned-frame, on_terminalization_started-frame,
  on_repair_routed-frame, on_attempt_created-frame, on_attempt-frame, on_action_opened-frame,
  on_action_resolved-frame,
}
use torq_cli_python.Evidence.Contract.Decisions.Quiet.{
  Decides, Abandons, on_run_decision-Decides, on_run_abandoned-Abandons,
}
use torq_cli_python.Evidence.Contract.Commands.{
  on_command, on_run_replanned, on_context_injected, on_command_unapplied,
}
use torq_cli_python.Evidence.Contract.Attempts.{attempt_payload}
use torq_cli_python.Evidence.Contract.Run.{apply, run}
use torq_cli_python.Evidence.Contract.Run.Steps.{Passed, step-Passed, run-cons}

-- What an acceptance, an injection and a giving-up add, read off the payload alone.
pub record Gains : Type 0 where
  pub accepted : Fields → ℕ
  pub injected : Fields → ℕ
  pub unapplied : Fields → ℕ

unfoldable pub gain : Gains → Transition → Fields → ℕ
gain g command_accepted p = g.accepted p
gain g context_injected p = g.injected p
gain g command_unapplied p = g.unapplied p
gain g _ p = 0

unfoldable pub total : Gains → List Receipt → ℕ
total g [] = 0
total g (r ∷ rs) = gain g r.transition (fields r.payload) + total g rs

-- A number that depends on the commands alone, and what the branches that change them add to it.
pub record Counts (m : State → ℕ) (g : Gains) : Type 0 where
  pub same : (s s' : State) → s'.commands ≡ s.commands → m s' ≡ m s
  pub accept :
      (s : State) (seq : ℕ) (p : Fields)
      → Ends (λ s'. m s' ≡ m s + g.accepted p) (on_command true seq p s)
  pub reject :
      (s : State) (seq : ℕ) (p : Fields) → Ends (λ s'. m s' ≡ m s + 0) (on_command false seq p s)
  pub replan :
      (s : State) (seq : ℕ) (p : Fields) → Ends (λ s'. m s' ≡ m s) (on_run_replanned seq p s)
  pub inject :
      (s : State) (p : Fields) → Ends (λ s'. m s' ≡ m s + g.injected p) (on_context_injected p s)
  pub unapply :
      (s : State) (seq : ℕ) (p : Fields)
      → Ends (λ s'. m s' ≡ m s + g.unapplied p) (on_command_unapplied seq p s)

module _ (m : State → ℕ) (g : Gains) (c : Counts m g) where
  module _ (s : State) where
    abbrev Adds : ℕ → State → Type 0
    Adds n s' = m s' ≡ m s + n

    unchanged : (s' : State) → m s' ≡ m s → Adds 0 s'
    unchanged s' e = omega arith

    by_commands : (o : Outcome) → Ends (λ s'. SameCommands s s') o → Ends (Adds 0) o
    by_commands o h =
        Ends-map (λ s'. SameCommands s s') (Adds 0) o
          (λ s' f. unchanged s' (c.same s s' f.commands)) h

    by_both : (o : Outcome) → Ends (λ s'. SameAttempts s s' × SameCommands s s') o → Ends (Adds 0) o
    by_both o h =
        Ends-map (λ s'. SameAttempts s s' × SameCommands s s') (Adds 0) o
          (λ s' f. unchanged s' (c.same s s' f.1.commands)) h

    apply-Adds :
        (w : World) (t : Transition) (seq : ℕ) (r : Role) (p : Fields)
        → validate_transition w t p r ≡ none
        → Ends (Adds (gain g t p)) (apply t seq r p s)
    unfolding apply validate_transition gain
    apply-Adds w run_planned seq r p v = by_both _ (on_run_planned-frame s p)
    apply-Adds w terminalization_started seq r p v = by_both _ (on_terminalization_started-frame s)
    apply-Adds w repair_routed seq r p v = by_both _ (on_repair_routed-frame s p)
    apply-Adds w command_accepted seq r p v = c.accept s seq p
    apply-Adds w command_rejected seq r p v = c.reject s seq p
    apply-Adds w run_replanned seq r p v =
        Ends-map (λ s'. m s' ≡ m s) (Adds 0) _ unchanged (c.replan s seq p)
    apply-Adds w context_injected seq r p v = c.inject s p
    apply-Adds w command_unapplied seq r p v = c.unapply s seq p
    apply-Adds w stage_attempt_created seq r p v =
        by_commands _ (on_attempt_created-frame s seq (attempt_payload p))
    apply-Adds w stage_dispatch_started seq r p v =
        by_commands _ (on_attempt-frame s stage_dispatch_started seq (attempt_payload p))
    apply-Adds w stage_blocked seq r p v =
        by_commands _ (on_attempt-frame s stage_blocked seq (attempt_payload p))
    apply-Adds w stage_rejected seq r p v =
        by_commands _ (on_attempt-frame s stage_rejected seq (attempt_payload p))
    apply-Adds w stage_completed seq r p v =
        by_commands _ (on_attempt-frame s stage_completed seq (attempt_payload p))
    apply-Adds w stage_failed seq r p v =
        by_commands _ (on_attempt-frame s stage_failed seq (attempt_payload p))
    apply-Adds w stage_interrupted seq r p v =
        by_commands _ (on_attempt-frame s stage_interrupted seq (attempt_payload p))
    apply-Adds w action_opened seq r p v = by_both _ (on_action_opened-frame s seq p)
    apply-Adds w action_resolved seq r p v = by_both _ (on_action_resolved-frame s seq p)
    apply-Adds w run_decision seq r p v =
        Ends-map (Decides s) (Adds 0) _ (λ s' f. unchanged s' (c.same s s' f.commands))
          (on_run_decision-Decides s r p v)
    apply-Adds w run_abandoned seq r p v =
        Ends-map (Abandons s) (Adds 0) _ (λ s' f. unchanged s' (c.same s s' f.2))
          (on_run_abandoned-Abandons s seq p)
    apply-Adds w _ seq r p v = unchanged s refl

  Passed-Adds :
      (w : World) (r : Receipt) (s s' : State)
      → Passed w r s s'
      → m s' ≡ m s + gain g r.transition (fields r.payload)
  Passed-Adds w r s s' h = rw h.mapping (
      Ends-go_on (Adds s (gain g r.transition h.payload)) _ s'
        (apply-Adds s w r.transition (suc h.seq) r.writer_role h.payload h.valid) h.applied)

  go_on-injective : (a b : State) → go_on a ≡ go_on b → b ≡ a
  go_on-injective a b e = cc

  -- Along an accepted list the number grows by what its receipts add.
  pub run-total :
      (w : World) (rs : List Receipt) (s s' : State)
      → run w rs s ≡ go_on s'
      → m s' ≡ m s + total g rs
  unfolding run total
  run-total w [] s s' h = rw (ap m (go_on-injective s s' h)) (omega arith)
  run-total w (r ∷ rs) s s' h =
      let (t, e, h') = run-cons w r rs s s' h in
      omega (arith, run-total w rs t s' h', Passed-Adds w r s t (step-Passed w r s t e))
