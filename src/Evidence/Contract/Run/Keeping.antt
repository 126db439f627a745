-- ===== src/Evidence/Contract/Run/Keeping.antt =====
-- A property of the attempts that every branch keeps holds after every accepted list of receipts.
use torq_cli_python.Prelude.{ℕ, suc, ◌≡◌, sym, subst, true, false, none, List, []}
use torq_cli_python.Json.{Fields}
use torq_cli_python.Dict.{Dict}
use torq_cli_python.Evidence.Names.{
  Transition, run_planned, stage_attempt_created, stage_dispatch_started, stage_blocked,
  stage_rejected, stage_completed, stage_failed, stage_interrupted, repair_routed, action_opened,
  action_resolved, terminalization_started, run_decision, run_replanned, run_abandoned,
  command_accepted, command_rejected, command_unapplied, context_injected, Role,
}
use torq_cli_python.Evidence.World.{World}
use torq_cli_python.Evidence.Payload.Validate.{validate_transition}
use torq_cli_python.Evidence.Contract.State.{State, Receipt, Attempt, initial}
use torq_cli_python.Evidence.Contract.Outcome.{Outcome, go_on, Ends, Ends-map, Ends-go_on}
use torq_cli_python.Evidence.Contract.Frames.{
  SameAttempts, SameCommands, on_run_planned-frame, on_terminalization_started-frame,
  on_repair_routed-frame, on_command-frame, on_run_replanned-frame, on_context_injected-frame,
  on_command_unapplied-frame, on_action_opened-frame, on_action_resolved-frame,
}
use torq_cli_python.Evidence.Contract.Decisions.{abandon_open}
use torq_cli_python.Evidence.Contract.Decisions.Quiet.{
  Decides, Abandons, on_run_decision-Decides, on_run_abandoned-Abandons,
}
use torq_cli_python.Evidence.Contract.Attempts.{
  AttemptPayload, attempt_payload, on_attempt_created, on_attempt,
}
use torq_cli_python.Evidence.Contract.Run.{apply, run}
use torq_cli_python.Evidence.Contract.Run.Steps.{run-keeps}

-- What the branches that change the attempts must keep.
pub record Kept (P : Dict Attempt → Type 0) : Type 0 where
  pub created :
      (s : State) (seq : ℕ) (p : AttemptPayload)
      → P s.attempts
      → Ends (λ s'. P s'.attempts) (on_attempt_created seq p s)
  pub moved :
      (s : State) (t : Transition) (seq : ℕ) (p : AttemptPayload)
      → P s.attempts
      → Ends (λ s'. P s'.attempts) (on_attempt t seq p s)
  pub abandoned : (d : Dict Attempt) → P d → P (abandon_open d)

module _ (P : Dict Attempt → Type 0) (c : Kept P) (s : State) (e : P s.attempts) where
  abbrev Keeps : State → Type 0
  Keeps s' = P s'.attempts

  same_attempts : (d : Dict Attempt) → d ≡ s.attempts → P d
  same_attempts d q = subst P (sym q) e

  by_attempts : (o : Outcome) → Ends (λ s'. SameAttempts s s') o → Ends Keeps o
  by_attempts o h =
      Ends-map (λ s'. SameAttempts s s') Keeps o (λ s' f. same_attempts s'.attempts f.attempts) h

  by_both : (o : Outcome) → Ends (λ s'. SameAttempts s s' × SameCommands s s') o → Ends Keeps o
  by_both o h =
      Ends-map (λ s'. SameAttempts s s' × SameCommands s s') Keeps o
        (λ s' f. same_attempts s'.attempts f.0.attempts) h

  apply-Keeps :
      (w : World) (t : Transition) (seq : ℕ) (r : Role) (p : Fields)
      → validate_transition w t p r ≡ none
      → Ends Keeps (apply t seq r p s)
  unfolding apply validate_transition
  apply-Keeps w run_planned seq r p v = by_both _ (on_run_planned-frame s p)
  apply-Keeps w terminalization_started seq r p v = by_both _ (on_terminalization_started-frame s)
  apply-Keeps w repair_routed seq r p v = by_both _ (on_repair_routed-frame s p)
  apply-Keeps w command_accepted seq r p v = by_attempts _ (on_command-frame s true seq p)
  apply-Keeps w command_rejected seq r p v = by_attempts _ (on_command-frame s false seq p)
  apply-Keeps w run_replanned seq r p v = by_attempts _ (on_run_replanned-frame s seq p)
  apply-Keeps w context_injected seq r p v = by_attempts _ (on_context_injected-frame s p)
  apply-Keeps w command_unapplied seq r p v = by_attempts _ (on_command_unapplied-frame s seq p)
  apply-Keeps w stage_attempt_created seq r p v = c.created s seq (attempt_payload p) e
  apply-Keeps w stage_dispatch_started seq r p v =
      c.moved s stage_dispatch_started seq (attempt_payload p) e
  apply-Keeps w stage_blocked seq r p v = c.moved s stage_blocked seq (attempt_payload p) e
  apply-Keeps w stage_rejected seq r p v = c.moved s stage_rejected seq (attempt_payload p) e
  apply-Keeps w stage_completed seq r p v = c.moved s stage_completed seq (attempt_payload p) e
  apply-Keeps w stage_failed seq r p v = c.moved s stage_failed seq (attempt_payload p) e
  apply-Keeps w stage_interrupted seq r p v = c.moved s stage_interrupted seq (attempt_payload p) e
  apply-Keeps w action_opened seq r p v = by_both _ (on_action_opened-frame s seq p)
  apply-Keeps w action_resolved seq r p v = by_both _ (on_action_resolved-frame s seq p)
  apply-Keeps w run_decision seq r p v =
      Ends-map (Decides s) Keeps _ (λ s' f. same_attempts s'.attempts f.attempts)
        (on_run_decision-Decides s r p v)
  apply-Keeps w run_abandoned seq r p v =
      Ends-map (Abandons s) Keeps _ (λ s' f. subst P (sym f.0) (c.abandoned s.attempts e))
        (on_run_abandoned-Abandons s seq p)
  apply-Keeps w _ seq r p v = e

pub run-Kept :
    (P : Dict Attempt → Type 0)
    → Kept P
    → P []
    → (w : World) (rs : List Receipt) (s : State) → run w rs initial ≡ go_on s
    → P s.attempts
run-Kept P c start w rs s h =
    run-keeps w (λ t. P t.attempts)
      (λ r t t' p e.
        Ends-go_on (Keeps P c t e) _ t'
          (apply-Keeps P c t e w r.transition (suc p.seq) r.writer_role p.payload p.valid)
          p.applied)
      rs initial s h start
