-- ===== src/Evidence/Contract/Run/Lanes.antt =====
-- What the attempts of an accepted run say of the work in its lanes.
use torq_cli_python.Prelude.{
  ℕ, suc, String, ◌≡◌, ◌≤◌, refl, Bool, true, false, some, List, [], ◌∷◌, arith, eq_iff, elem, all,
  &&-eq_true, ◌==◌, Bool-cases, Option-cases, inl, inr,
}
use torq_cli_python.Json.{Fields, get, str, fields}
use torq_cli_python.Dict.{Dict, lookup}
use torq_cli_python.Evidence.Names.{
  Transition, stage_blocked, stage_rejected, stage_completed, run_decision, Role, orchestrator,
  same_transition,
}
use torq_cli_python.Evidence.World.{World}
use torq_cli_python.Evidence.Contract.State.{
  State, Receipt, Attempt, initial, is_open, latest, ended_as, latest_ended_as,
}
use torq_cli_python.Evidence.Contract.Outcome.{go_on}
use torq_cli_python.Evidence.Contract.Decisions.{
  abandon_open, on_run_decision, on_orchestrator_decision, decide_completed, all_completed,
}
use torq_cli_python.Evidence.Contract.Attempts.Honest.{
  Honest, Each, Each-lookup, Each-latest, latest-max, on_attempt_created-Honest, on_attempt-Honest,
}
use torq_cli_python.Evidence.Contract.Run.{apply, step, run}
use torq_cli_python.Evidence.Contract.Attempts.Single.{
  OneOpen, on_attempt_created-OneOpen, on_attempt-OneOpen,
}
use torq_cli_python.Evidence.Contract.Run.Keeping.{Kept, run-Kept}
use torq_cli_python.Evidence.Contract.Run.Steps.{step-Passed}

abandon_open-Honest : (d : Dict Attempt) → Each Honest d → Each Honest (abandon_open d)
unfolding abandon_open
abandon_open-Honest [] e = tt
abandon_open-Honest ((k, a) ∷ d) e = (ground (arith, e.0), abandon_open-Honest d e.1)

Honest-Kept : Kept (Each Honest)
Honest-Kept = record {
  created = λ s seq p e. on_attempt_created-Honest s e seq p;
  moved = λ s t seq p e. on_attempt-Honest s e t seq p;
  abandoned = abandon_open-Honest;
}

run-Honest :
    (w : World) (rs : List Receipt) (s : State)
    → run w rs initial ≡ go_on s
    → Each Honest s.attempts
run-Honest w rs s h = run-Kept (Each Honest) Honest-Kept tt w rs s h

-- In the state after an accepted list of receipts, every attempt that ended as completed or
-- rejected was dispatched, and every attempt that ended as blocked was not.
pub run-attempts_honest :
    (w : World) (rs : List Receipt) (s : State) (id : String) (a : Attempt)
    → run w rs initial ≡ go_on s
    → lookup id s.attempts ≡ some a
    → (a.terminal ≡ some stage_completed → a.dispatched ≡ true)
      × (a.terminal ≡ some stage_rejected → a.dispatched ≡ true)
      × (a.terminal ≡ some stage_blocked → a.dispatched ≡ false)
run-attempts_honest w rs s id a h l =
    let (x, y, z) = Each-lookup Honest id a s.attempts l (run-Honest w rs s h) in
    (λ e. x (rw e refl), λ e. y (rw e refl), λ e. z (rw e refl))

all-elem :
    (p : String → Bool) (x : String) (xs : List String)
    → all p xs ≡ true
    → elem x xs ≡ true
    → p x ≡ true
all-elem p x [] h m = cc
all-elem p x (y ∷ ys) h m = elim (Bool-cases (x == y)) [
  | inl e ↦ let same : x ≡ y = ground (arith, eq_iff x y) in rw same (&&-eq_true _ _ h).0
  | inr e ↦ all-elem p x ys (&&-eq_true _ _ h).1 (rw e at m)
]

decide_completed-lanes : (s s' : State) → decide_completed s ≡ go_on s' → all_completed s ≡ true
unfolding decide_completed
decide_completed-lanes s s' h = ground arith

apply-completed :
    (seq : ℕ) (t : Transition) (r : Role) (p : Fields) (s s' : State)
    → apply t seq r p s ≡ go_on s'
    → t ≡ run_decision
    → r ≡ orchestrator
    → get "decision" p ≡ str "completed"
    → decide_completed s ≡ go_on s'
unfolding apply on_run_decision on_orchestrator_decision
apply-completed seq t r p s s' h a b c =
    rw (a, b, apply, on_run_decision, on_orchestrator_decision, c) at h

same_transition_eq : (t u : Transition) → same_transition t u ≡ true → t ≡ u
same_transition_eq t u h = ground arith

ended_as-eq : (t : Transition) (a : Attempt) → ended_as t a ≡ true → a.terminal ≡ some t
ended_as-eq t a h = elim (Option-cases a.terminal) [
  | inl e ↦ let clash : false ≡ true = rw e at h in cc
  | inr (u, e) ↦ let same : u ≡ t = same_transition_eq u t (rw e at h) in rw (e, same)
]

latest_ended-some :
    (role : String) (d : Dict Attempt)
    → latest_ended_as stage_completed (latest role d) ≡ true
    → (a : Attempt) × (latest role d ≡ some a) × (ended_as stage_completed a ≡ true)
latest_ended-some role d h = elim (Option-cases (latest role d)) [
  | inl e ↦ let clash : false ≡ true = rw e at h in cc
  | inr (a, e) ↦ (a, e, rw e at h)
]

-- A decision that the run is completed leaves no required lane open.
required_completed :
    (w : World) (r : Receipt) (s s' : State)
    → step w r s ≡ go_on s'
    → r.transition ≡ run_decision
    → r.writer_role ≡ orchestrator
    → get "decision" (fields r.payload) ≡ str "completed"
    → all_completed s ≡ true
required_completed w r s s' k t o c =
    let p = step-Passed w r s s' k in
    let c' : get "decision" p.payload ≡ str "completed" = rw p.mapping at c in
    decide_completed-lanes s s'
      (apply-completed (suc p.seq) r.transition r.writer_role p.payload s s' p.applied t o c')

-- The role has an attempt; the one with the highest ordinal ended as completed, and was dispatched.
abbrev pub IsDone : State → String → Type 0
IsDone s role =
    (a : Attempt) × (latest role s.attempts ≡ some a)
    × (a.role ≡ role)
    × (a.terminal ≡ some stage_completed)
    × (a.dispatched ≡ true)
    × ((id : String) (b : Attempt)
        → lookup id s.attempts ≡ some b
        → b.role ≡ role
        → b.ordinal ≤ a.ordinal)

-- Where the orchestrator's decision that the run is completed is accepted after an accepted list
-- of receipts, each role that the catalog requires has an attempt; the one with the highest
-- ordinal ended as completed, and was dispatched.
pub completed-lanes-IsDone :
    (w : World) (rs : List Receipt) (r : Receipt) (s s' : State) (role : String)
    → run w rs initial ≡ go_on s
    → step w r s ≡ go_on s'
    → r.transition ≡ run_decision
    → r.writer_role ≡ orchestrator
    → get "decision" (fields r.payload) ≡ str "completed"
    → elem role s.required_roles ≡ true
    → IsDone s role
unfolding all_completed
completed-lanes-IsDone w rs r s s' role h k t o c m =
    let done =
      all-elem (λ x. latest_ended_as stage_completed (latest x s.attempts)) role s.required_roles
        (required_completed w r s s' k t o c) m in
    let (a, l, e) = latest_ended-some role s.attempts done in
    let (honest, same) = Each-latest Honest role a s.attempts l (run-Honest w rs s h) in
    (
      a,
      l,
      same,
      ended_as-eq stage_completed a e,
      honest.0 e,
      λ id b f g.
          Each-lookup (λ x. (x.role == role) ≡ true → x.ordinal ≤ a.ordinal) id b s.attempts f
            (latest-max role a s.attempts l) (ground (arith, eq_iff b.role role)),
    )

abandon_open-lookup :
    (d : Dict Attempt) (i : String) (a : Attempt)
    → lookup i (abandon_open d) ≡ some a
    → is_open a ≡ false
unfolding abandon_open lookup
abandon_open-lookup [] i a h = cc
abandon_open-lookup ((k, b) ∷ d) i a h = ground (arith, abandon_open-lookup d i a)

OneOpen-Kept : Kept OneOpen
OneOpen-Kept = record {
  created = λ s seq p o. on_attempt_created-OneOpen s o seq p;
  moved = λ s t seq p o. on_attempt-OneOpen s o t seq p;
  abandoned = λ d o i j a b l m e x y. ground (arith, abandon_open-lookup d i a l);
}

-- In the state after an accepted list of receipts, two open attempts of the same role are the
-- same attempt.
pub run-OneOpen :
    (w : World) (rs : List Receipt) (s : State) → run w rs initial ≡ go_on s → OneOpen s.attempts
unfolding lookup
run-OneOpen w rs s h = run-Kept OneOpen OneOpen-Kept (λ i j a b l m e x y. cc) w rs s h
