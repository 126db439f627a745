-- ===== src/Evidence/Contract/Whole/Tasks.antt =====
-- How the task contract and the lifecycle of a run meet in one store.
use torq_cli_python.Prelude.{
  ◌≡◌, ◌≢◌, refl, Bool, true, false, none, List, [], ◌∷◌, ◌++◌, map, any, eq_iff, Bool-cases, inl,
  inr, ||-eq_false,
}
use torq_cli_python.Dict.{lookup}
use torq_cli_python.Json.{Value, str, Fields, fields, get, is_text}
use torq_cli_python.Evidence.Names.{audit, other}
use torq_cli_python.Evidence.World.{World}
use torq_cli_python.Evidence.Contract.State.{State, Receipt, initial}
use torq_cli_python.Evidence.Contract.Outcome.{Outcome, go_on, stop}
use torq_cli_python.Evidence.Contract.Decisions.Deciding.{is_final}
use torq_cli_python.Evidence.Contract.Run.{run, validate_lifecycle}
use torq_cli_python.Evidence.Contract.Run.Steps.{run-cons}
use torq_cli_python.Evidence.Contract.Run.Closing.{decision-is_last}
use torq_cli_python.Evidence.Contract.Whole.{
  receipt_of, named, transition_names, validate_v2_receipt_contract,
}
use torq_cli_python.Audit.Shape.{and_then-eq_none}
use torq_cli_python.Audit.Task.Contract.{of_task, is_terminal, validate_task_receipt_contract}
use torq_cli_python.Audit.Task.Contract.Order.{accepted-terminal_is_last, accepted-is_audit}
use torq_cli_python.Audit.Decision.Contract.Lifecycle.{validate_decision_receipt_contract}

named-audit : (v : Value) → is_text "audit" v ≡ true → named transition_names other v ≡ audit
unfolding named transition_names lookup
named-audit (str s) h = let same_text : s ≡ "audit" = (eq_iff s "audit").0 h in rw same_text
named-audit _ h = cc

-- Whether a row decides a run.
abbrev pub is_deciding : Fields → Bool
is_deciding r = is_final (receipt_of r).transition (fields (get "payload" r))

final_of : (r : Receipt) → r.transition ≡ audit → is_final r.transition (fields r.payload) ≡ false
final_of r h = rw h

snoc_not_empty : (xs : List Fields) (r : Fields) → map receipt_of (xs ++ r ∷ []) ≢ []
snoc_not_empty [] r h = cc
snoc_not_empty (x ∷ xs) r h = cc

any-snoc :
    (xs : List Fields) (r : Fields)
    → any is_deciding xs ≡ false
    → is_deciding r ≡ false
    → any is_deciding (xs ++ r ∷ []) ≡ false
any-snoc [] r h g = rw g
any-snoc (x ∷ xs) r h g =
    let parts = ||-eq_false (is_deciding x) (any is_deciding xs) h in
    rw (parts.0, any-snoc xs r parts.1 g)

-- In rows that the loop accepts, no row that has one after it decides the run.
none_before :
    (w : World) (xs : List Fields) (r : Fields) (s s' : State)
    → run w (map receipt_of (xs ++ r ∷ [])) s ≡ go_on s'
    → any is_deciding xs ≡ false
none_before w [] r s s' h = refl
none_before w (x ∷ xs) r s s' h = elim (Bool-cases (is_deciding x)) [
  | inl decides ↦
      let alone =
        decision-is_last w [] (receipt_of x) (map receipt_of (xs ++ r ∷ [])) s s' h
          (unfold receipt_of in decides) in
      absurd (snoc_not_empty xs r alone)
  | inr quiet ↦
      let (t, _, rest) = run-cons w (receipt_of x) (map receipt_of (xs ++ r ∷ [])) s s' h in
      rw (quiet, none_before w xs r t s' rest)
]

lifecycle-run :
    (w : World) (sealed : Bool) (rs : List Receipt)
    → validate_lifecycle w sealed rs ≡ none
    → (s : State) × (run w rs initial ≡ go_on s)
unfolding validate_lifecycle
lifecycle-run w sealed rs h = go (run w rs initial) refl
  where
    go : (o : Outcome) → run w rs initial ≡ o → (s : State) × (run w rs initial ≡ go_on s)
    go (go_on s) e = (s, e)
    go (stop f) e = let clash = rw e at h in cc

-- A store whose task has ended holds no decision of a run: where the whole contract accepts the
-- rows and one of them is a terminal row of a task, none of the rows is a `run_abandoned`, or a
-- `run_decision` other than one to await an approval.
pub ended_task-undecided :
    (w : World) (sealed : Bool) (before : List Fields) (r : Fields) (after : List Fields)
    → validate_v2_receipt_contract w sealed (before ++ r ∷ after) ≡ none
    → of_task r ≡ true
    → is_terminal (fields (get "payload" r)) ≡ true
    → any is_deciding (before ++ r ∷ after) ≡ false
unfolding validate_v2_receipt_contract receipt_of
ended_task-undecided w sealed before r after h t e =
    let (accepted, others) =
      and_then-eq_none (validate_task_receipt_contract sealed (before ++ r ∷ after)) _ h in
    let last : after ≡ [] = accepted-terminal_is_last sealed before r after accepted t e in
    let is_audit =
      named-audit (get "transition" r) (accepted-is_audit sealed before r after accepted t) in
    let lifecycle =
      (and_then-eq_none
        (validate_decision_receipt_contract w.row_digest (before ++ r ∷ after) sealed) _
        others).1 in
    let (s, ran) = lifecycle-run w sealed (map receipt_of (before ++ r ∷ after)) lifecycle in
    rw last (
      any-snoc before r (none_before w before r initial s (rw last at ran))
        (final_of (receipt_of r) is_audit))
