-- ===== src/Audit/Task/Contract/Live.antt =====
-- A task that has not ended can always be ended: an interruption seals it.
use mathlib.Core.List.Memᴰ.{head}
use torq_cli_python.Prelude.{
  length-snoc, ℕ, suc, ◌≡◌, refl, String, Bool, true, false, ◌&&◌, Option, none, some, List, [],
  ◌∷◌, ◌++◌, arith, eqb, if◌then◌else◌, ||-eq_false, eq_refl,
}
use torq_cli_python.Json.{Value, bool, int, str, obj, Fields, no_fields, field, get, value_eq}
use torq_cli_python.Evidence.Finding.{Finding}
use torq_cli_python.Evidence.Payload.Shape.{is_one_of, positive_int}
use torq_cli_python.Audit.Shape.{identifier, reason_code}
use torq_cli_python.Audit.Task.Payload.{accepted-identifier, validate_task_audit_payload}
use torq_cli_python.Audit.Task.Contract.{
  Row, collected, collect, of_task, row_of, receipt_finding, is_terminal, is_failure, unlike, last,
  count_terminal, end_finding, started_finding, rows_finding, validate_task_receipt_contract,
}
use torq_cli_python.Audit.Task.Contract.Snoc.{
  nonterminal-parts, first-snoc, count-snoc, count_terminal-snoc, any-snoc, last-snoc,
  preceding-snoc,
}
use torq_cli_python.Audit.Task.Contract.Collecting.{
  last-mem, collect-IsChecked, collect-nonterminal, collect-snoc,
}

-- An interruption of the task `id`, caused by the receipt `cause`.
abbrev interruption_body : String → ℕ → Fields
interruption_body id cause = field "task_contract" (str "torq-candidate-task-v1") (
    field "event" (str "task_interrupted") (
      field "task_id" (str id) (
        field "provider_dispatch" (bool false) (
          field "phase" (str "generating") (
            field "reason_code" (str "operator_interrupt") (
              field "caused_by_sequence" (int cause)
                (field "termination" (str "unknown") no_fields)))))))

abbrev interrupting : String → ℕ → ℕ → Fields
interrupting id cause n = field "transition" (str "audit") (
    field "run_id" (str id) (
      field "sequence" (int (suc n))
        (field "payload" (obj (interruption_body id cause)) no_fields)))

abbrev interruption_row : String → ℕ → ℕ → Row
interruption_row id cause n = row_of (interrupting id cause n)

interruption-accepted :
    (id : String) (cause n : ℕ)
    → identifier (str id) ≡ true
    → receipt_finding (interrupting id (suc cause) n) (interruption_body id (suc cause)) ≡ none
unfolding receipt_finding validate_task_audit_payload reason_code positive_int value_eq
interruption-accepted id cause n h = ground (arith, eq_refl id)

open_start-not_failure :
    (v : Value)
    → is_one_of ("candidate_ready" ∷ "task_failed" ∷ "task_interrupted" ∷ "task_cancelled" ∷ []) v
      ≡ false
    → is_one_of ("task_failed" ∷ "task_interrupted" ∷ "task_cancelled" ∷ []) v ≡ false
open_start-not_failure (str s) h = (||-eq_false _ _ h).1
open_start-not_failure _ h = refl

end-interrupted :
    (start : Row) (rest : List Row) (id : String) (n : ℕ)
    → end_finding true start
        (rest ++ interruption_row id (last start rest).sequence n ∷ [])
        (interruption_row id (last start rest).sequence n)
      ≡ none
unfolding end_finding value_eq
end-interrupted start rest id n =
    rw (preceding-snoc start (interruption_row id (last start rest).sequence n) rest) (ground arith)

past_first :
    (a : Bool) (f : Finding) (o : Option Finding) → (if a then some f else o) ≡ none → a ≡ false
past_first a f o h = ground arith

past_second :
    (a b : Bool) (o p : Option Finding) → (if a && b then o else p) ≡ none → b ≡ false → p ≡ none
past_second a b o p h e = ground arith

task_id-text : (v : Value) → identifier v ≡ true → (id : String) × (v ≡ str id)
unfolding identifier
task_id-text (str s) h = (s, refl)
task_id-text _ h = cc

module _ (start : Row) (rest : List Row) (id : String) (n : ℕ) where
  abbrev sealing : Row
  sealing = interruption_row id (last start rest).sequence n

  started-interrupted :
      count_terminal (start ∷ rest) ≡ 0
      → started_finding false start rest ≡ none
      → started_finding true start (rest ++ sealing ∷ []) ≡ none
  unfolding started_finding
  started-interrupted c h =
      rw
        (
          count-snoc "task_start_accepted" sealing (start ∷ rest) refl,
          count-snoc "candidate_generated" sealing (start ∷ rest) refl,
          count-snoc "candidate_check_completed" sealing (start ∷ rest) refl,
          count_terminal-snoc sealing (start ∷ rest) refl c,
          first-snoc "candidate_generated" sealing (start ∷ rest) refl,
          first-snoc "candidate_check_completed" sealing (start ∷ rest) refl,
          last-snoc start sealing rest,
          end-interrupted start rest id n,
        )
        (ground arith)

  sealing-same_task : get "task_id" start.body ≡ str id → unlike "task_id" sealing start ≡ false
  unfolding value_eq
  sealing-same_task e = rw (e, eq_refl id)

  not_single :
      (n : ℕ) (b : Bool) (f g : Option Finding) → (if eqb (suc (suc n)) 1 && b then f else g) ≡ g
  not_single n b f g = ground arith

  rows-interrupted :
      get "task_id" start.body ≡ str id
      → count_terminal (start ∷ rest) ≡ 0
      → rows_finding false (start ∷ rest) ≡ none
      → rows_finding true (start ∷ (rest ++ sealing ∷ [])) ≡ none
  unfolding rows_finding
  rows-interrupted e c h =
      let same_task = past_first _ _ _ h in
      let not_failure =
        open_start-not_failure (get "event" start.body) (nonterminal-parts start rest c).0 in
      let started = past_second _ (is_failure start) _ _ (rw same_task at h) not_failure in
      rw
        (
          any-snoc (λ r. unlike "task_id" r start) sealing (start ∷ rest) (sealing-same_task e)
              same_task,
          length-snoc sealing rest,
          not_single,
        )
        (started-interrupted c started)

-- The list can be sealed by one more receipt of its task.
abbrev pub IsSealable : List Fields → Type 0
IsSealable rs =
    (r : Fields) × (of_task r ≡ true) × (validate_task_receipt_contract true (rs ++ r ∷ []) ≡ none)

-- A task is never stuck: where the task contract accepts a list that is not sealed, with at least
-- one row of a task and a last row that is not terminal, one more receipt of the task ends it so
-- that the contract accepts the list as sealed.
pub open-IsSealable :
    (rs : List Fields) (start : Row) (rest : List Row)
    → collect false rs ≡ collected (start ∷ rest)
    → validate_task_receipt_contract false rs ≡ none
    → is_terminal (last start rest).body ≡ false
    → IsSealable rs
unfolding validate_task_receipt_contract
open-IsSealable rs start rest found h e =
    let none_ended = collect-nonterminal rs start rest found e in
    let checked = collect-IsChecked rs (start ∷ rest) start found (head refl) in
    let (cause, positive) =
      (collect-IsChecked rs (start ∷ rest) (last start rest) found
        (last-mem start rest)).positive in
    let identified = accepted-identifier start.body checked.task checked.payload in
    let (id, named) = task_id-text (get "task_id" start.body) identified in
    let r = interrupting id (last start rest).sequence 0 in
    let accepted = interruption-accepted id cause 0 (rw named at identified) in
    (
      r,
      refl,
      rw (collect-snoc r rs (start ∷ rest) refl (rw positive accepted) found none_ended)
          (rows-interrupted start rest id 0 named none_ended (rw found at h)),
    )
