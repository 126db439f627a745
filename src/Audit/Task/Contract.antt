-- ===== src/Audit/Task/Contract.antt =====
-- `validate_task_receipt_contract`: the receipts are the rows as they were read, Python mappings.
pub mod Order
pub mod Ready
pub mod Snoc
pub mod Collecting
pub mod Live
pub mod Sealed
pub mod Sample
mod Tests
use torq_cli_python.Prelude.{
  ℕ, zero, suc, String, Bool, true, false, ◌&&◌, ◌||◌, not, Option, none, some, List, [], ◌∷◌, any,
  length, leb, ltb, eqb, if◌then◌else◌,
}
use torq_cli_python.Json.{
  Value, null, int, obj, Fields, get, value_eq, is_text, is_true, is_false, is_null, number, fields,
}
use torq_cli_python.Evidence.Finding.{
  Finding, task_receipt_after_terminal, task_transition_invalid, task_run_id_mismatch,
  task_sequence_link_invalid, task_id_mismatch, task_terminal_link_invalid,
  task_start_order_invalid, task_terminal_duplicate, task_event_duplicate,
  task_generated_link_invalid, task_check_link_invalid, task_ready_prerequisite_missing,
  task_ready_link_invalid, task_terminal_missing,
}
use torq_cli_python.Evidence.Payload.Shape.{first_finding, positive_int, is_one_of, is_obj}
use torq_cli_python.Audit.Task.Payload.{is_task, validate_task_audit_payload}

-- An entry of `task_rows`.
pub record Row : Type 0 where
  pub sequence : ℕ
  pub body : Fields

abbrev pub is_event : String → Row → Bool
is_event e r = is_text e (get "event" r.body)

-- `payload.get("event") in TERMINAL_TASK_EVENTS`
abbrev pub is_terminal : Fields → Bool
is_terminal p =
    is_one_of ("candidate_ready" ∷ "task_failed" ∷ "task_interrupted" ∷ "task_cancelled" ∷ [])
      (get "event" p)

abbrev pub is_failure : Row → Bool
is_failure r =
    is_one_of ("task_failed" ∷ "task_interrupted" ∷ "task_cancelled" ∷ []) (get "event" r.body)

-- `body.get(key) != other.get(key)`
abbrev pub unlike : String → Row → Row → Bool
unlike k r q = not (value_eq (get k r.body) (get k q.body))

-- `body.get(key) != sequence`
abbrev pub is_not : String → Row → ℕ → Bool
is_not k r n = not (value_eq (get k r.body) (int n))

pub data Collected : Type 0 where
  refused : Finding → Collected
  collected : List Row → Collected

abbrev pub and_row : Row → Collected → Collected
and_row r (refused f) = refused f
and_row r (collected rs) = collected (r ∷ rs)

-- The checks on one receipt of the task.
pub receipt_finding : Fields → Fields → Option Finding
receipt_finding r p =
    if not (is_text "audit" (get "transition" r))
    then some task_transition_invalid
    else if not (value_eq (get "run_id" r) (get "task_id" p))
    then some task_run_id_mismatch
    else if not (positive_int (get "sequence" r))
    then some task_sequence_link_invalid
    else validate_task_audit_payload p

-- The receipt is one of the task's.
abbrev pub of_task : Fields → Bool
of_task r = is_obj (get "payload" r) && is_task (fields (get "payload" r))

abbrev pub row_of : Fields → Row
row_of r = record { sequence = number (get "sequence" r); body = fields (get "payload" r) }

abbrev pub unless_refused : Option Finding → Collected → Collected
unless_refused (some f) c = refused f
unless_refused none c = c

-- The first loop; `ended` is `terminal_sequence is not None`.
pub collect : Bool → List Fields → Collected
unfolding receipt_finding
collect ended [] = collected []
collect true (r ∷ rs) = refused task_receipt_after_terminal
collect false (r ∷ rs) =
    let rest = collect false rs in
    let later = collect (is_terminal (fields (get "payload" r))) rs in
    if of_task r
    then unless_refused (receipt_finding r (fields (get "payload" r))) (and_row (row_of r) later)
    else rest

-- `events.count(event)`
pub count : String → List Row → ℕ
count e [] = 0
count e (r ∷ rs) = let n = count e rs in if is_event e r then suc n else n

pub count_terminal : List Row → ℕ
count_terminal [] = 0
count_terminal (r ∷ rs) = let n = count_terminal rs in if is_terminal r.body then suc n else n

-- `next((...), None)`: the first row of this event.
pub first : String → List Row → Option Row
first e [] = none
first e (r ∷ rs) = if is_event e r then some r else first e rs

-- `task_rows[-1]` of a row and the rows after it.
pub last : Row → List Row → Row
last r [] = r
last r (q ∷ rs) = last q rs

-- `task_rows[-2][0] if len(task_rows) > 1 else None`
pub preceding : Row → List Row → Value
preceding r [] = null
preceding r (q ∷ []) = int r.sequence
preceding r (q ∷ p ∷ rs) = preceding q (p ∷ rs)

-- A task that ends before it starts.
early_unlinked : Row → Bool
early_unlinked r =
    not (is_null (get "caused_by_sequence" r.body))
    || (not (is_text "reserved" (get "phase" r.body))
        || (not (is_false (get "provider_dispatch" r.body))
            || not (is_text "not_started" (get "termination" r.body))))

pub generated_unlinked : Row → Option Row → Bool
generated_unlinked start none = false
generated_unlinked start (some g) =
    leb g.sequence start.sequence
    || (is_not "start_sequence" g start.sequence
        || (unlike "plan_hash" g start
            || (unlike "input_hash" g start
                || (unlike "provider" g start || unlike "model" g start))))

pub check_unlinked : Option Row → Option Row → Bool
check_unlinked g none = false
check_unlinked none (some c) = true
check_unlinked (some g) (some c) =
    leb c.sequence g.sequence
    || (is_not "generated_sequence" c g.sequence || unlike "candidate_manifest_hash" c g)

-- `terminal.get("source_recheck_hash") != start.get("base_manifest_hash")`
abbrev pub source_moved : Row → Row → Bool
source_moved t start =
    not (value_eq (get "source_recheck_hash" t.body) (get "base_manifest_hash" start.body))

pub ready_unlinked : Row → Row → Row → Row → Bool
ready_unlinked start g c t =
    is_not "exit_code" c 0
    || (not (is_true (get "output_complete" c.body))
        || (not (is_text "confirmed_empty" (get "termination" c.body))
            || (is_not "start_sequence" t start.sequence
                || (is_not "generated_sequence" t g.sequence
                    || (is_not "check_sequence" t c.sequence
                        || (unlike "plan_hash" t start
                            || (unlike "base_manifest_hash" t start
                                || (unlike "input_hash" t start
                                    || (unlike "candidate_manifest_hash" t g
                                        || source_moved t start)))))))))

-- What a terminal `candidate_ready` requires.
pub ready_link_finding : Row → Row → Option Row → Option Row → Option Finding
unfolding ready_unlinked
ready_link_finding start t (some g) (some c) =
    if ready_unlinked start g c t then some task_ready_link_invalid else none
ready_link_finding start t _ _ = some task_ready_prerequisite_missing

-- The tests on the last row.
pub end_finding : Bool → Row → List Row → Row → Option Finding
unfolding ready_link_finding preceding first
end_finding sealed start rest t =
    if is_event "candidate_ready" t
    then ready_link_finding start t (first "candidate_generated" (start ∷ rest))
        (first "candidate_check_completed" (start ∷ rest))
    else if is_failure t
    then if value_eq (get "caused_by_sequence" t.body) (preceding start rest)
      then none
      else some task_terminal_link_invalid
    else if sealed
    then some task_terminal_missing
    else none

-- The tests on the rows of a task that started.
pub started_finding : Bool → Row → List Row → Option Finding
unfolding count count_terminal first last end_finding generated_unlinked check_unlinked
started_finding sealed start rest =
    if not (is_event "task_start_accepted" start)
      || not (eqb (count "task_start_accepted" (start ∷ rest)) 1)
    then some task_start_order_invalid
    else if ltb 1 (count_terminal (start ∷ rest))
    then some task_terminal_duplicate
    else if ltb 1 (count "candidate_generated" (start ∷ rest))
        || ltb 1 (count "candidate_check_completed" (start ∷ rest))
    then some task_event_duplicate
    else if generated_unlinked start (first "candidate_generated" (start ∷ rest))
    then some task_generated_link_invalid
    else if check_unlinked (first "candidate_generated" (start ∷ rest))
        (first "candidate_check_completed" (start ∷ rest))
    then some task_check_link_invalid
    else end_finding sealed start rest (last start rest)

pub rows_finding : Bool → List Row → Option Finding
unfolding early_unlinked started_finding
rows_finding sealed [] = none
rows_finding sealed (start ∷ rest) =
    if any (λ r. unlike "task_id" r start) (start ∷ rest)
    then some task_id_mismatch
    else if eqb (length (start ∷ rest)) 1 && is_failure start
    then if early_unlinked start then some task_terminal_link_invalid else none
    else started_finding sealed start rest

abbrev pub of_collected : Bool → Collected → Option Finding
of_collected sealed (refused f) = some f
of_collected sealed (collected rs) = rows_finding sealed rs

unfoldable pub validate_task_receipt_contract : Bool → List Fields → Option Finding
unfolding collect rows_finding
validate_task_receipt_contract sealed rs = of_collected sealed (collect false rs)
