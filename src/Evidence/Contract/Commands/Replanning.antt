-- ===== src/Evidence/Contract/Commands/Replanning.antt =====
-- An injection for the lead after the revision of the plan that goes with its command.
use torq_cli_python.Prelude.{
  ℕ, ◌+◌, String, ◌≡◌, refl, true, false, Option, none, some, [], ◌∷◌, any, leb, eqb, arith,
  eq_refl,
}
use torq_cli_python.Json.{Fields, get, has, text, fields, number}
use torq_cli_python.Dict.{lookup, insert, lookup-insert}
use torq_cli_python.Evidence.Names.{context_injected}
use torq_cli_python.Evidence.Contract.State.{State, Attempt, Command, Effective}
use torq_cli_python.Evidence.Contract.Outcome.{go_on}
use torq_cli_python.Evidence.Contract.Commands.{
  on_run_replanned, on_context_injected, inject_command, inject_attempt, replan_command,
  replan_attempt, replan_refused, effective_of, same_attempt, differs, provenance_fields, finalize,
  targets, items, first_fields, same_effective,
}

-- The attempt that a revision of the plan names.
abbrev replanned_to : Fields → Effective
replanned_to q = effective_of (first_fields (items (get "affected_future_attempts" q)))

-- The attempt that an injection names.
abbrev pub injected_into : Fields → Effective
injected_into p = effective_of (fields (get "effective_attempt" p))

-- The injection repeats what the command was accepted with.
abbrev pub Repeats : Fields → Command → Type 0
Repeats p c =
    (eqb (number (get "accepted_sequence" p)) c.sequence ≡ true)
    × (any (differs p c.payload) ("artifact" ∷ "artifact_hash" ∷ "target_role" ∷ []) ≡ false)
    × (any (differs p c.payload) provenance_fields ≡ false)

-- The attempt may still take in a command: it is the one named, undispatched, and newer.
abbrev pub Eligible : Effective → Attempt → Command → Type 0
Eligible e a c =
    (same_attempt e a ≡ true) × (a.dispatched ≡ false) × (leb a.created_sequence c.sequence ≡ false)

same_effective_refl : (e : Effective) → same_effective (some e) (some e) ≡ true
unfolding same_effective
same_effective_refl e = ground (arith, eq_refl e.role, eq_refl e.attempt_id)

-- The state that a revision leaves.
replanned_state : ℕ → String → Fields → Command → State → State
replanned_state seq id q c s = record s {
  commands = insert id (record c { replanned = true }) s.commands;
  replanned_attempts = insert id (replanned_to q) s.replanned_attempts;
  current_plan_hash = some (text (get "new_plan_hash" q));
  plan_revision = s.plan_revision + 1;
  last_replan_sequence = some seq;
  effective = some (replanned_to q);
}

replan_attempt-eq :
    (seq : ℕ) (id : String) (q : Fields) (c : Command) (s s' : State) (o : Option Attempt)
    → replan_attempt seq id q (replanned_to q) c s o ≡ go_on s'
    → s' ≡ replanned_state seq id q c s
unfolding replan_attempt replanned_state
replan_attempt-eq seq id q c s s' none h = cc
replan_attempt-eq seq id q c s s' (some a) h = ground arith

replan_command-eq :
    (seq : ℕ) (id : String) (q : Fields) (c : Command) (s s' : State)
    → replan_command seq id q (replanned_to q) s (some c) ≡ go_on s'
    → (replan_refused q c s ≡ false) × (s' ≡ replanned_state seq id q c s)
unfolding replan_command
replan_command-eq seq id q c s s' h = (
  ground arith,
  replan_attempt-eq seq id q c s s' (lookup (replanned_to q).attempt_id s.attempts) (ground arith),
)

replan_refused-false :
    (q : Fields) (c : Command) (s : State)
    → replan_refused q c s ≡ false
    → (c.accepted ≡ true) × (targets "lead" c ≡ true) × (c.finalized ≡ none)
unfolding replan_refused
replan_refused-false q c s h = (ground arith, ground arith, ground arith)

inject_attempt-eq :
    (id : String) (e : Effective) (c : Command) (a : Attempt) (t : State)
    → targets "lead" c ≡ true
    → Eligible e a c
    → inject_attempt id e c t (some a)
      ≡ go_on (finalize context_injected id c (record t { effective = some e }))
unfolding inject_attempt
inject_attempt-eq id e c a t lead ok = rw (ok.0, ok.1, ok.2, lead)

-- The test for a mismatch compares the revision with what the loop's variable holds.
inject_command-eq :
    (id : String) (p : Fields) (c : Command) (a : Attempt) (e : Effective) (t : State)
    → c.accepted ≡ true
    → targets "lead" c ≡ true
    → c.finalized ≡ none
    → c.replanned ≡ true
    → Repeats p c
    → lookup id t.replanned_attempts ≡ some e
    → t.effective ≡ some e
    → lookup (injected_into p).attempt_id t.attempts ≡ some a
    → Eligible (injected_into p) a c
    → inject_command id p t (some c)
      ≡ go_on (finalize context_injected id c (record t { effective = some (injected_into p) }))
unfolding inject_command
inject_command-eq id p c a e t acc lead fin rep r o f m ok =
    simp (acc, fin, r.0, r.1, r.2, lead, rep, o, f, same_effective_refl, m)
      (inject_attempt-eq id (injected_into p) c a t lead ok)

-- After a revision of the plan for a command, an injection that repeats the command's acceptance
-- is accepted into any undispatched attempt newer than the command, whichever attempt the
-- revision named.
pub replan-inject_other :
    (s s' : State) (seq : ℕ) (q p : Fields) (c : Command) (a : Attempt)
    → on_run_replanned seq q s ≡ go_on s'
    → text (get "command_id" q) ≡ text (get "command_id" p)
    → has "command_id" p ≡ true
    → lookup (text (get "command_id" p)) s.commands ≡ some c
    → Repeats p c
    → lookup (injected_into p).attempt_id s.attempts ≡ some a
    → Eligible (injected_into p) a c
    → on_context_injected p s'
      ≡ go_on (
          finalize context_injected
            (text (get "command_id" p))
            (record c { replanned = true })
            (record s' { effective = some (injected_into p) }))
unfolding on_run_replanned on_context_injected replanned_state
replan-inject_other s s' seq q p c a h same k l r m ok =
    let at_command : replan_command seq (text (get "command_id" p)) q (replanned_to q) s (some c)
        ≡ go_on s' =
      rw (same, l) at h in
    let (free, state) = replan_command-eq seq (text (get "command_id" p)) q c s s' at_command in
    let (acc, lead, fin) = replan_refused-false q c s free in
    rw (k, state)
      (rw (lookup-insert, eq_refl)
        (inject_command-eq (text (get "command_id" p)) p (record c { replanned = true }) a
          (replanned_to q) (replanned_state seq (text (get "command_id" p)) q c s) acc lead fin refl
          r (rw (lookup-insert, eq_refl)) refl m ok))
