-- ===== src/Evidence/Contract/Run/Settled.antt =====
-- Every accepted command is settled once: applied to an attempt, or given up.
use torq_cli_python.Prelude.{
  ℕ, ◌+◌, ◌≤◌, ◌<◌, String, ◌≡◌, refl, ◌∙◌, Bool, true, false, ◌&&◌, Option, none, some, List, ◌==◌,
  arith,
}
use torq_cli_python.Json
use torq_cli_python.Json.{Value, null, bool, int, neg, str, arr, obj, Fields, get, text, fields}
use torq_cli_python.Dict.{lookup}
use torq_cli_python.Evidence.World.{World}
use torq_cli_python.Evidence.Contract.State.{State, Receipt, Command, initial, any_pending}
use torq_cli_python.Evidence.Contract.Outcome.{Outcome, go_on, Ends, Ends-map}
use torq_cli_python.Evidence.Contract.Commands.Settling.{
  settled_in, one_if, count_of, settled-same, on_command-settled, on_run_replanned-settled,
  on_context_injected-settled, on_command_unapplied-settled,
}
use torq_cli_python.Evidence.Contract.Run.{run, validate_lifecycle}
use torq_cli_python.Evidence.Contract.Commands.Accepting.{
  accepts_of, accepted_in, accepted-same, on_command-accepted, on_run_replanned-accepted,
  on_context_injected-accepted, on_command_unapplied-accepted,
}
use torq_cli_python.Evidence.Contract.Run.Tally.{Gains, Counts, total, gain, run-total}
use torq_cli_python.Evidence.Contract.Run.Steps.{lifecycle-accepted}
use torq_cli_python.Evidence.Contract.Run.Closing.{lookup-settled}

names_command : String → Fields → ℕ
names_command id p = one_if (text (get "command_id" p) == id)

-- Applied to an attempt, or given up: `context_injected` counts where it names a command.
settling : String → Gains
unfolding names_command
settling id = record {
  accepted = λ p. 0;
  injected = λ p. one_if (Json.has "command_id" p && (text (get "command_id" p) == id));
  unapplied = names_command id;
}

accepting : String → Gains
unfolding names_command
accepting id = record { accepted = names_command id; injected = λ p. 0; unapplied = λ p. 0 }

-- How many receipts of a list settle the command, and how many accept it.
pub settlements : String → List Receipt → ℕ
unfolding total gain settling
settlements id rs = total (settling id) rs

pub acceptances : String → List Receipt → ℕ
unfolding total gain accepting
acceptances id rs = total (accepting id) rs

plus_zero :
    (P : State → ℕ) (s : State) (o : Outcome)
    → Ends (λ s'. P s' ≡ P s) o
    → Ends (λ s'. P s' ≡ P s + 0) o
plus_zero P s o h = Ends-map (λ s'. P s' ≡ P s) (λ s'. P s' ≡ P s + 0) o (λ s' e. omega arith) h

settled-Counts : (id : String) → Counts (settled_in id) (settling id)
unfolding settling
settled-Counts id = record {
  same = settled-same id;
  accept = λ s seq p. plus_zero (settled_in id) s _ (on_command-settled id s true seq p);
  reject = λ s seq p. plus_zero (settled_in id) s _ (on_command-settled id s false seq p);
  replan = on_run_replanned-settled id;
  inject = on_context_injected-settled id;
  unapply = on_command_unapplied-settled id;
}

accepted-Counts : (id : String) → Counts (accepted_in id) (accepting id)
unfolding accepting
accepted-Counts id = record {
  same = accepted-same id;
  accept = λ s seq p. on_command-accepted id s true seq p;
  reject = λ s seq p. on_command-accepted id s false seq p;
  replan = on_run_replanned-accepted id;
  inject = λ s p. plus_zero (accepted_in id) s _ (on_context_injected-accepted id s p);
  unapply = λ s seq p. plus_zero (accepted_in id) s _ (on_command_unapplied-accepted id s seq p);
}

module _ (w : World) (rs : List Receipt) (s : State) (id : String)
    (h : run w rs initial ≡ go_on s) where
  settlements-eq : settlements id rs ≡ settled_in id s
  unfolding settlements settled_in lookup
  settlements-eq =
      omega (arith, run-total (settled_in id) (settling id) (settled-Counts id) w rs initial s h)

  acceptances-eq : acceptances id rs ≡ accepted_in id s
  unfolding acceptances accepted_in lookup
  acceptances-eq =
      omega (arith, run-total (accepted_in id) (accepting id) (accepted-Counts id) w rs initial s h)

-- An accepted command that does not wait has been settled.
one_settlement :
    (id : String) (s : State)
    → any_pending s.commands ≡ false
    → 0 < accepted_in id s
    → settled_in id s ≡ 1
unfolding accepted_in settled_in
one_settlement id s h k = go (lookup id s.commands) refl k
  where
    go : (o : Option Command) → lookup id s.commands ≡ o → 0 < accepts_of o → count_of o ≡ 1
    go none e k = absurd (omega arith)
    go (some c) e k = ground (arith, lookup-settled id c s.commands h e)

count_of-le : (o : Option Command) → count_of o ≤ 1
count_of-le none = omega arith
count_of-le (some c) = ground arith

accepts_of-le : (o : Option Command) → accepts_of o ≤ 1
unfolding accepts_of
accepts_of-le none = omega arith
accepts_of-le (some c) = ground arith

-- In an accepted list of receipts every command is accepted at most once and settled at most once;
-- if the list is sealed, every command that it accepts is settled exactly once.
pub sealed-settled_once :
    (w : World) (sealed : Bool) (rs : List Receipt) (id : String)
    → validate_lifecycle w sealed rs ≡ none
    → (acceptances id rs ≤ 1)
      × (settlements id rs ≤ 1)
      × (sealed ≡ true → 0 < acceptances id rs → settlements id rs ≡ 1)
unfolding accepted_in settled_in
sealed-settled_once w sealed rs id v =
    let (s, h, quiet) = lifecycle-accepted w sealed rs v in
    let a = acceptances-eq w rs s id h in
    let b = settlements-eq w rs s id h in
    (
      rw a (accepts_of-le (lookup id s.commands)),
      rw b (count_of-le (lookup id s.commands)),
      λ e k. b ∙ one_settlement id s (quiet e).2 (rw a at k),
    )
