-- ===== src/Evidence/Contract/Commands/Accepting.antt =====
-- How often a command has been accepted.
use torq_cli_python.Prelude.{
  ℕ, ◌+◌, String, ◌≡◌, refl, Bool, true, false, ◌&&◌, not, Option, none, some, ◌==◌, eq_iff, arith,
}
use torq_cli_python.Json.{Fields, has, get, text, fields}
use torq_cli_python.Dict.{Dict, lookup, insert, lookup-insert}
use torq_cli_python.Evidence.Names.{context_injected, command_unapplied}
use torq_cli_python.Evidence.Contract.State.{Attempt, Effective, Command, State}
use torq_cli_python.Evidence.Contract.Outcome.{Ends, Ends-stop_if_thrice}
use torq_cli_python.Evidence.Contract.Commands.{
  on_command, on_run_replanned, on_context_injected, on_command_unapplied, replan_command,
  replan_refused, plan_moved, replan_attempt, inject_command, inject_attempt, unapply_command,
  effective_of,
}
use torq_cli_python.Evidence.Contract.Commands.Settling.{one_if}

-- 1 for a command that was accepted, 0 for one that was rejected or is not known.
unfoldable pub accepts_of : Option Command → ℕ
accepts_of none = 0
accepts_of (some c) = one_if c.accepted

unfoldable pub accepted_in : String → State → ℕ
unfolding accepts_of
accepted_in id s = accepts_of (lookup id s.commands)

-- Storing a known command again, accepted as it was, changes no count.
accepted-update :
    (id key : String) (c c' : Command) (d : Dict Command)
    → lookup key d ≡ some c
    → c'.accepted ≡ c.accepted
    → accepts_of (lookup id (insert key c' d)) ≡ accepts_of (lookup id d)
unfolding accepts_of
accepted-update id key c c' d e h = rw lookup-insert (ground (arith, eq_iff key id))

module _ (id : String) (s : State) where
  abbrev Same : State → Type 0
  Same s' = accepted_in id s' ≡ accepted_in id s

  pub on_command-accepted :
      (accepted : Bool) (seq : ℕ) (p : Fields)
      → Ends
          (λ s'.
            accepted_in id s'
            ≡ accepted_in id s + one_if (accepted && (text (get "command_id" p) == id)))
          (on_command accepted seq p s)
  unfolding on_command accepted_in
  on_command-accepted accepted seq p =
      let key = text (get "command_id" p) in
      let c : Command = record {
        accepted = accepted;
        sequence = seq;
        payload = p;
        finalized = none;
        replanned = false;
      } in
      ground (arith, eq_iff key id, lookup-insert key id c s.commands)

  replan_attempt-accepted :
      (seq : ℕ) (key : String) (p : Fields) (e : Effective) (c : Command)
      → lookup key s.commands ≡ some c
      → (a : Option Attempt) → Ends Same (replan_attempt seq key p e c s a)
  unfolding replan_attempt accepted_in
  replan_attempt-accepted seq key p e c q none = tt
  replan_attempt-accepted seq key p e c q (some a) =
      ground (arith, accepted-update id key c (record c { replanned = true }) s.commands q refl)

  replan_command-accepted :
      (seq : ℕ) (key : String) (p : Fields) (e : Effective) (o : Option Command)
      → lookup key s.commands ≡ o
      → Ends Same (replan_command seq key p e s o)
  unfolding replan_command
  replan_command-accepted seq key p e none q = tt
  replan_command-accepted seq key p e (some c) q =
      Ends-stop_if_thrice Same (replan_refused p c s) (not (has "previous_replan_sequence" p))
        (plan_moved p s) _ _ _ (replan_attempt seq key p e c s (lookup e.attempt_id s.attempts))
        (replan_attempt-accepted seq key p e c q (lookup e.attempt_id s.attempts))

  inject_attempt-accepted :
      (key : String) (e : Effective) (c : Command)
      → lookup key s.commands ≡ some c
      → (a : Option Attempt) → Ends Same (inject_attempt key e c s a)
  unfolding inject_attempt accepted_in
  inject_attempt-accepted key e c q none = tt
  inject_attempt-accepted key e c q (some a) = ground (
    arith,
    accepted-update id key c (record c { finalized = some context_injected }) s.commands q refl,
  )

  inject_command-accepted :
      (key : String) (p : Fields) (o : Option Command)
      → lookup key s.commands ≡ o
      → Ends Same (inject_command key p s o)
  unfolding inject_command
  inject_command-accepted key p none q = tt
  inject_command-accepted key p (some c) q =
      let e = effective_of (fields (get "effective_attempt" p)) in
      ground (arith, inject_attempt-accepted key e c q (lookup e.attempt_id s.attempts))

  unapply_command-accepted :
      (seq : ℕ) (key : String) (p : Fields) (o : Option Command)
      → lookup key s.commands ≡ o
      → Ends Same (unapply_command seq key p s o)
  unfolding accepted_in unapply_command
  unapply_command-accepted seq key p none q = tt
  unapply_command-accepted seq key p (some c) q = ground (
    arith,
    accepted-update id key c (record c { finalized = some command_unapplied }) s.commands q refl,
  )

module _ (id : String) (s : State) where
  pub on_run_replanned-accepted :
      (seq : ℕ) (p : Fields)
      → Ends (λ s'. accepted_in id s' ≡ accepted_in id s) (on_run_replanned seq p s)
  unfolding on_run_replanned
  on_run_replanned-accepted seq p =
      replan_command-accepted id s seq _ p _ (lookup (text (get "command_id" p)) s.commands) refl

  pub on_context_injected-accepted :
      (p : Fields) → Ends (λ s'. accepted_in id s' ≡ accepted_in id s) (on_context_injected p s)
  unfolding on_context_injected
  on_context_injected-accepted p = ground (
    arith,
    inject_command-accepted id s (text (get "command_id" p)) p
        (lookup (text (get "command_id" p)) s.commands),
  )

  pub on_command_unapplied-accepted :
      (seq : ℕ) (p : Fields)
      → Ends (λ s'. accepted_in id s' ≡ accepted_in id s) (on_command_unapplied seq p s)
  unfolding on_command_unapplied
  on_command_unapplied-accepted seq p =
      unapply_command-accepted id s seq _ p (lookup (text (get "command_id" p)) s.commands) refl

pub accepted-same :
    (id : String) (s s' : State) → s'.commands ≡ s.commands → accepted_in id s' ≡ accepted_in id s
unfolding accepted_in
accepted-same id s s' e = rw e
