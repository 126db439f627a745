-- ===== src/Evidence/Contract/Run/Closing.antt =====
-- A decided run has nothing left waiting, and nothing follows its decision.
use torq_cli_python.Prelude.{
  ℕ, suc, String, ◌≡◌, ◌≢◌, ◌⊎◌, inl, inr, refl, sym, ◌∙◌, true, false, none, some, List, [], ◌∷◌,
  ◌++◌, arith,
}
use torq_cli_python.Json.{Fields, fields}
use torq_cli_python.Dict.{Dict, lookup}
use torq_cli_python.Evidence.Names.{
  Transition, run_planned, stage_attempt_created, stage_dispatch_started, stage_blocked,
  stage_rejected, stage_completed, stage_failed, stage_interrupted, repair_routed, action_opened,
  action_resolved, terminalization_started, run_decision, run_replanned, run_abandoned,
  command_accepted, command_rejected, command_unapplied, context_injected, Role,
}
use torq_cli_python.Evidence.World.{World}
use torq_cli_python.Evidence.Payload.Validate.{validate_transition}
use torq_cli_python.Evidence.Contract.State.{
  State, Receipt, Attempt, Command, initial, any_open, any_pending, is_open, is_pending,
}
use torq_cli_python.Evidence.Contract.Outcome.{Outcome, go_on, Ends, Ends-map, Ends-go_on}
use torq_cli_python.Evidence.Contract.Frames.{
  SameAttempts, SameCommands, on_run_planned-frame, on_terminalization_started-frame,
  on_repair_routed-frame, on_command-frame, on_run_replanned-frame, on_context_injected-frame,
  on_command_unapplied-frame, on_attempt_created-frame, on_attempt-frame, on_action_opened-frame,
  on_action_resolved-frame,
}
use torq_cli_python.Evidence.Contract.Decisions.Quiet.{
  Quiet, Decides, Abandons, on_run_decision-Decides, on_run_abandoned-Abandons,
}
use torq_cli_python.Evidence.Contract.Decisions.Deciding.{
  is_final, IsDecided, on_run_decision-IsDecided, on_run_abandoned-IsDecided,
}
use torq_cli_python.Evidence.Contract.Attempts.{attempt_payload}
use torq_cli_python.Evidence.Contract.Run.{apply, run}
use torq_cli_python.Evidence.Contract.Run.Steps.{Passed, step-Passed, run-cons, run-keeps}

-- A branch leaves the run undecided as it was, or leaves it quiet.
abbrev Closes : State → State → Type 0
Closes s s' = (s'.terminal_decision ≡ s.terminal_decision) ⊎ Quiet s'

module _ (s : State) where
  by_attempts : (o : Outcome) → Ends (λ s'. SameAttempts s s') o → Ends (Closes s) o
  by_attempts o h = Ends-map (λ s'. SameAttempts s s') (Closes s) o (λ s' f. inl f.decided) h

  by_commands : (o : Outcome) → Ends (λ s'. SameCommands s s') o → Ends (Closes s) o
  by_commands o h = Ends-map (λ s'. SameCommands s s') (Closes s) o (λ s' f. inl f.decided) h

  by_both : (o : Outcome) → Ends (λ s'. SameAttempts s s' × SameCommands s s') o → Ends (Closes s) o
  by_both o h =
      Ends-map (λ s'. SameAttempts s s' × SameCommands s s') (Closes s) o (λ s' f. inl f.0.decided)
        h

  apply-Closes :
      (w : World) (t : Transition) (seq : ℕ) (r : Role) (p : Fields)
      → validate_transition w t p r ≡ none
      → Ends (Closes s) (apply t seq r p s)
  unfolding apply validate_transition
  apply-Closes w run_planned seq r p v = by_both _ (on_run_planned-frame s p)
  apply-Closes w terminalization_started seq r p v = by_both _ (on_terminalization_started-frame s)
  apply-Closes w repair_routed seq r p v = by_both _ (on_repair_routed-frame s p)
  apply-Closes w command_accepted seq r p v = by_attempts _ (on_command-frame s true seq p)
  apply-Closes w command_rejected seq r p v = by_attempts _ (on_command-frame s false seq p)
  apply-Closes w run_replanned seq r p v = by_attempts _ (on_run_replanned-frame s seq p)
  apply-Closes w context_injected seq r p v = by_attempts _ (on_context_injected-frame s p)
  apply-Closes w command_unapplied seq r p v = by_attempts _ (on_command_unapplied-frame s seq p)
  apply-Closes w stage_attempt_created seq r p v =
      by_commands _ (on_attempt_created-frame s seq (attempt_payload p))
  apply-Closes w stage_dispatch_started seq r p v =
      by_commands _ (on_attempt-frame s stage_dispatch_started seq (attempt_payload p))
  apply-Closes w stage_blocked seq r p v =
      by_commands _ (on_attempt-frame s stage_blocked seq (attempt_payload p))
  apply-Closes w stage_rejected seq r p v =
      by_commands _ (on_attempt-frame s stage_rejected seq (attempt_payload p))
  apply-Closes w stage_completed seq r p v =
      by_commands _ (on_attempt-frame s stage_completed seq (attempt_payload p))
  apply-Closes w stage_failed seq r p v =
      by_commands _ (on_attempt-frame s stage_failed seq (attempt_payload p))
  apply-Closes w stage_interrupted seq r p v =
      by_commands _ (on_attempt-frame s stage_interrupted seq (attempt_payload p))
  apply-Closes w action_opened seq r p v = by_both _ (on_action_opened-frame s seq p)
  apply-Closes w action_resolved seq r p v = by_both _ (on_action_resolved-frame s seq p)
  apply-Closes w run_decision seq r p v =
      Ends-map (Decides s) (Closes s) _ (λ s' f. f.decided) (on_run_decision-Decides s r p v)
  apply-Closes w run_abandoned seq r p v =
      Ends-map (Abandons s) (Closes s) _ (λ s' f. inr f.3) (on_run_abandoned-Abandons s seq p)
  apply-Closes w _ seq r p v = inl refl

-- Once decided, quiet.
abbrev Settled : State → Type 0
Settled s = s.terminal_decision ≡ true → Quiet s

Passed-Settled : (w : World) (r : Receipt) (s s' : State) → Passed w r s s' → Settled s'
Passed-Settled w r s s' h d =
    elim (Ends-go_on (Closes s) _ s'
      (apply-Closes s w r.transition (suc h.seq) r.writer_role h.payload h.valid) h.applied) [
        | inl same ↦ let clash : true ≡ false = sym d ∙ same ∙ h.undecided in cc
        | inr q ↦ q
      ]

lookup-closed :
    (id : String) (a : Attempt) (d : Dict Attempt)
    → any_open d ≡ false
    → lookup id d ≡ some a
    → is_open a ≡ false
unfolding lookup any_open
lookup-closed id a [] h e = cc
lookup-closed id a ((k, b) ∷ d) h e = ground (arith, lookup-closed id a d)

pub lookup-settled :
    (id : String) (c : Command) (d : Dict Command)
    → any_pending d ≡ false
    → lookup id d ≡ some c
    → is_pending c ≡ false
unfolding lookup any_pending
lookup-settled id c [] h e = cc
lookup-settled id c ((k, b) ∷ d) h e = ground (arith, lookup-settled id c d)

-- Where a list of receipts is accepted and the run is decided after it, every attempt has ended,
-- every accepted command has been settled, and no action is open.
pub decided-quiet :
    (w : World) (rs : List Receipt) (s : State)
    → run w rs initial ≡ go_on s
    → s.terminal_decision ≡ true
    → ((id : String) (a : Attempt) → lookup id s.attempts ≡ some a → a.terminal ≢ none)
      × ((id : String) (c : Command)
          → lookup id s.commands ≡ some c
          → c.accepted ≡ true
          → c.finalized ≢ none)
      × (s.open_actions ≡ [])
decided-quiet w rs s h d =
    let q =
      run-keeps w Settled (λ r t t' p _. Passed-Settled w r t t' p) rs initial s h (λ e. cc) d in
    (
      λ id a e n. ground (arith, lookup-closed id a s.attempts q.attempts e),
      λ id c e b n. ground (arith, lookup-settled id c s.commands q.commands e),
      ground (arith, q.actions),
    )

apply-IsDecided :
    (s : State) (t : Transition) (seq : ℕ) (r : Role) (p : Fields)
    → is_final t p ≡ true
    → Ends IsDecided (apply t seq r p s)
unfolding apply
apply-IsDecided s run_decision seq r p h = on_run_decision-IsDecided s r p (ground arith)
apply-IsDecided s run_abandoned seq r p h = on_run_abandoned-IsDecided s seq p
apply-IsDecided s _ seq r p h = cc

-- In a list of receipts that the loop accepts, a receipt that decides the run is the last one: a
-- `run_abandoned`, or a `run_decision`, whoever writes it, whose decision is not to await an
-- approval.
pub decision-is_last :
    (w : World) (before : List Receipt) (r : Receipt) (after : List Receipt) (s s' : State)
    → run w (before ++ r ∷ after) s ≡ go_on s'
    → is_final r.transition (fields r.payload) ≡ true
    → after ≡ []
unfolding run
decision-is_last w [] r [] s s' h d = refl
decision-is_last w [] r (y ∷ ys) s s' h d =
    let (t, stepped, rest) = run-cons w r (y ∷ ys) s s' h in
    let passed = step-Passed w r s t stepped in
    let decided =
      Ends-go_on IsDecided _ t
        (apply-IsDecided s r.transition (suc passed.seq) r.writer_role passed.payload
          (rw passed.mapping at d))
        passed.applied in
    let (u, next, _) = run-cons w y ys t s' rest in
    let clash : true ≡ false = sym decided ∙ (step-Passed w y t u next).undecided in cc
decision-is_last w (x ∷ xs) r after s s' h d =
    let (t, stepped, rest) = run-cons w x (xs ++ r ∷ after) s s' h in
    decision-is_last w xs r after t s' rest d
