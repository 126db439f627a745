-- ===== src/Evidence/Contract/Commands/Settling.antt =====
-- How often a command has been settled: applied to an attempt, or given up.
use torq_cli_python.Prelude.{
  ℕ, ◌+◌, String, ◌≡◌, refl, Bool, true, false, ◌&&◌, not, Option, none, some, ◌==◌, if◌then◌else◌,
  eq_iff, arith,
}
use torq_cli_python.Json
use torq_cli_python.Json.{Value, Fields, has, get, text, fields}
use torq_cli_python.Dict.{Dict, lookup, insert, lookup-insert}
use torq_cli_python.Evidence.Names.{context_injected, command_unapplied}
use torq_cli_python.Evidence.Contract.State.{Attempt, Effective, Command, State, is_some}
use torq_cli_python.Evidence.Contract.Outcome.{Ends, Ends-stop_if_thrice}
use torq_cli_python.Evidence.Contract.Commands.{
  on_command, on_run_replanned, on_context_injected, on_command_unapplied, replan_command,
  replan_refused, plan_moved, replan_attempt, inject_command, inject_attempt, unapply_command,
  effective_of,
}

-- 1 for a settled command, 0 for one that waits or is not known.
abbrev pub count_of : Option Command → ℕ
count_of none = 0
count_of (some c) = if is_some c.finalized then 1 else 0

unfoldable pub settled_in : String → State → ℕ
settled_in id s = count_of (lookup id s.commands)

abbrev pub one_if : Bool → ℕ
one_if true = 1
one_if false = 0

settled-insert :
    (id key : String) (c : Command) (d : Dict Command)
    → count_of (lookup id (insert key c d))
      ≡ (if key == id then count_of (some c) else count_of (lookup id d))
settled-insert id key c d = rw lookup-insert (ground arith)

settled-known :
    (id key : String) (c : Command) (d : Dict Command)
    → lookup key d ≡ some c
    → (key == id) ≡ true
    → count_of (lookup id d) ≡ count_of (some c)
settled-known id key c d e h = ground (arith, eq_iff key id)

module _ (id : String) (s : State) where
  pub on_command-settled :
      (accepted : Bool) (seq : ℕ) (p : Fields)
      → Ends (λ s'. settled_in id s' ≡ settled_in id s) (on_command accepted seq p s)
  unfolding on_command settled_in
  on_command-settled accepted seq p =
      let key = text (get "command_id" p) in
      let c : Command = record {
        accepted = accepted;
        sequence = seq;
        payload = p;
        finalized = none;
        replanned = false;
      } in
      ground (arith, eq_iff key id, settled-insert id key c s.commands)

  replan_command-settled :
      (seq : ℕ) (key : String) (p : Fields) (e : Effective) (o : Option Command)
      → lookup key s.commands ≡ o
      → Ends (λ s'. settled_in id s' ≡ settled_in id s) (replan_command seq key p e s o)
  unfolding replan_command replan_attempt settled_in
  replan_command-settled seq key p e none q = tt
  replan_command-settled seq key p e (some c) q =
      Ends-stop_if_thrice _ (replan_refused p c s) (not (has "previous_replan_sequence" p))
        (plan_moved p s) _ _ _ (replan_attempt seq key p e c s (lookup e.attempt_id s.attempts))
        (go (lookup e.attempt_id s.attempts))
    where
      go :
          (a : Option Attempt)
          → Ends (λ s'. settled_in id s' ≡ settled_in id s) (replan_attempt seq key p e c s a)
      go none = tt
      go (some a) = ground (
        arith,
        settled-insert id key (record c { replanned = true }) s.commands,
        settled-known id key c s.commands q,
      )

  inject_attempt-settled :
      (key : String) (e : Effective) (c : Command)
      → lookup key s.commands ≡ some c
      → (a : Option Attempt) → is_some c.finalized ≡ false
      → Ends
          (λ s'. settled_in id s' ≡ settled_in id s + one_if (key == id))
          (inject_attempt key e c s a)
  unfolding inject_attempt settled_in
  inject_attempt-settled key e c q none w = tt
  inject_attempt-settled key e c q (some a) w = ground (
    arith,
    settled-insert id key (record c { finalized = some context_injected }) s.commands,
    settled-known id key c s.commands q,
  )

  inject_command-settled :
      (key : String) (p : Fields) (o : Option Command)
      → lookup key s.commands ≡ o
      → Ends
          (λ s'. settled_in id s' ≡ settled_in id s + one_if (key == id))
          (inject_command key p s o)
  unfolding inject_command settled_in
  inject_command-settled key p none q = tt
  inject_command-settled key p (some c) q =
      let e = effective_of (fields (get "effective_attempt" p)) in
      ground (arith, inject_attempt-settled key e c q (lookup e.attempt_id s.attempts))

  unapply_command-settled :
      (seq : ℕ) (key : String) (p : Fields) (o : Option Command)
      → lookup key s.commands ≡ o
      → Ends
          (λ s'. settled_in id s' ≡ settled_in id s + one_if (key == id))
          (unapply_command seq key p s o)
  unfolding settled_in unapply_command
  unapply_command-settled seq key p none q = tt
  unapply_command-settled seq key p (some c) q = ground (
    arith,
    settled-insert id key (record c { finalized = some command_unapplied }) s.commands,
    settled-known id key c s.commands q,
  )

module _ (id : String) (s : State) where
  pub on_run_replanned-settled :
      (seq : ℕ) (p : Fields)
      → Ends (λ s'. settled_in id s' ≡ settled_in id s) (on_run_replanned seq p s)
  unfolding on_run_replanned
  on_run_replanned-settled seq p =
      replan_command-settled id s seq (text (get "command_id" p)) p _
        (lookup (text (get "command_id" p)) s.commands) refl

  pub on_context_injected-settled :
      (p : Fields)
      → Ends
          (λ s'.
            settled_in id s'
            ≡ settled_in id s
              + one_if (Json.has "command_id" p && (text (get "command_id" p) == id)))
          (on_context_injected p s)
  unfolding on_context_injected
  on_context_injected-settled p = ground (
    arith,
    inject_command-settled id s (text (get "command_id" p)) p
        (lookup (text (get "command_id" p)) s.commands),
  )

  pub on_command_unapplied-settled :
      (seq : ℕ) (p : Fields)
      → Ends
          (λ s'. settled_in id s' ≡ settled_in id s + one_if (text (get "command_id" p) == id))
          (on_command_unapplied seq p s)
  unfolding on_command_unapplied
  on_command_unapplied-settled seq p =
      unapply_command-settled id s seq (text (get "command_id" p)) p
        (lookup (text (get "command_id" p)) s.commands) refl

pub settled-same :
    (id : String) (s s' : State) → s'.commands ≡ s.commands → settled_in id s' ≡ settled_in id s
unfolding settled_in
settled-same id s s' e = rw e
