-- ===== src/Audit/Decision/Contract/Lifecycle.antt =====
-- The tests after the loop of `validate_decision_receipt_contract`.
use torq_cli_python.Prelude.{
  ℕ, String, Bool, true, false, ◌&&◌, ◌||◌, not, Option, none, some, List, [], ◌∷◌, any, length,
  ltb, eqb, if◌then◌else◌,
}
use torq_cli_python.Json.{Value, int, Fields, get, value_eq, number, fields}
use torq_cli_python.Evidence.Finding.{
  Finding, candidate_review_lifecycle_invalid, candidate_review_run_id_mismatch,
  candidate_apply_context_changed, candidate_apply_begin_invalid, candidate_apply_after_terminal,
  candidate_apply_terminal_invalid, candidate_apply_run_id_mismatch,
  candidate_apply_prepared_order_invalid, candidate_apply_started_order_invalid,
  candidate_apply_progress_order_invalid, candidate_apply_progress_link_invalid,
  candidate_apply_rollback_order_invalid, candidate_apply_rollback_progress_invalid,
  candidate_apply_recovery_link_invalid, candidate_apply_terminal_link_invalid,
  candidate_apply_lifecycle_invalid,
}
use torq_cli_python.Evidence.Payload.Shape.{is_one_of}
use torq_cli_python.Audit.Shape.{and_then}
use torq_cli_python.Audit.Task.Contract.{Row, is_event, unlike}
use torq_cli_python.Audit.Decision.Contract.{
  Found, rejected, found, find, row_run_id, detail, detail_is_not, rows_of,
}
use torq_cli_python.Audit.Decision.Contract.Progress.{
  first_sequence, staged_bad, written_bad, started_unlinked, any_written_unlinked,
}
use torq_cli_python.Audit.Decision.Contract.Rollback.{
  rollback_unlinked, rollback_bad, recovery_unlinked,
}

-- `events[-1]` of a row and the rows after it.
unfoldable pub last_row : Row → List Row → Row
last_row r [] = r
last_row r (q ∷ rs) = last_row q rs

-- The events that end an application.
abbrev pub is_final : Row → Bool
is_final r =
    is_one_of ("apply_rejected" ∷ "candidate_applied" ∷ "apply_rolled_back" ∷ [])
      (get "event" r.body)

-- `any(event in terminal for event in events[:-1])`
unfoldable pub final_before_last : Row → List Row → Bool
final_before_last r [] = false
final_before_last r (q ∷ rs) = is_final r || final_before_last q rs

-- `{key: payload[key] for key in common} != common`
abbrev pub context_changed : Row → Row → Bool
context_changed r q =
    unlike "apply_contract" q r
    || (unlike "application_id" q r
        || (unlike "request_digest" q r
            || (unlike "candidate" q r || (unlike "acceptance" q r || unlike "actor" q r))))

-- The events that an application without an end may stop at.
abbrev may_stop : Row → Bool
may_stop r =
    is_one_of
      ("apply_recovery_required" ∷ "apply_prepared" ∷ "apply_started" ∷ "apply_file_staged"
        ∷ "apply_file_written" ∷ "apply_rollback_started" ∷ "apply_rollback_file_staged"
        ∷ "apply_rollback_file_restored" ∷ [])
      (get "event" r.body)

-- `apply[0][1]["candidate"].get(key)`
abbrev pub candidate_field : String → Row → Value
candidate_field k r = get k (fields (get "candidate" r.body))

-- What `candidate_applied` requires of its detail, with the start and the written rows.
unfoldable pub applied_unlinked : Row → Row → Option ℕ → List Row → Row → Bool
applied_unlinked begin prepared none written last = true
applied_unlinked begin prepared (some start) written last =
    detail_is_not "started_sequence" last (int start)
    || (detail_is_not "journal_hash" last (get "journal_hash" (detail prepared))
        || (detail_is_not "operation_count" last (get "operation_count" (detail prepared))
            || (not (value_eq (int (length written)) (get "operation_count" (detail prepared)))
                || detail_is_not "result_scope_manifest_hash" last
                    (candidate_field "candidate_scope_manifest_hash" begin))))

-- What `apply_rolled_back` requires of its detail, with the rollback's start and rows.
unfoldable pub rolled_back_unlinked : Row → Row → List Row → List Row → List Row → Row → Bool
rolled_back_unlinked begin prepared [] staged restored last = true
rolled_back_unlinked begin prepared (r ∷ rs) staged restored last =
    detail_is_not "prepared_sequence" last (int prepared.sequence)
    || (detail_is_not "journal_hash" last (get "journal_hash" (detail prepared))
        || (not (eqb (length restored) (length staged))
            || detail_is_not "restored_scope_manifest_hash" last
                (candidate_field "base_scope_manifest_hash" begin)))

-- The tests on the last row, with the rows of the application.
unfoldable pub last_finding : Row → Row → List Row → Row → Option Finding
unfolding applied_unlinked rolled_back_unlinked
last_finding begin prepared all_rows last =
    if is_event "candidate_applied" last
    then if applied_unlinked begin prepared (first_sequence (rows_of "apply_started" all_rows))
        (rows_of "apply_file_written" all_rows) last
      then some candidate_apply_terminal_link_invalid
      else none
    else if is_event "apply_rolled_back" last
    then if rolled_back_unlinked begin prepared (rows_of "apply_rollback_started" all_rows)
        (rows_of "apply_rollback_file_staged" all_rows)
        (rows_of "apply_rollback_file_restored" all_rows) last
      then some candidate_apply_terminal_link_invalid
      else none
    else if may_stop last
    then none
    else some candidate_apply_lifecycle_invalid

-- `if rollback_rows:`, with the sequence of the first.
abbrev pub in_rollback : List Row → (ℕ → Bool) → Bool
in_rollback [] test = false
in_rollback (r ∷ rs) test = test r.sequence

module _ (hexdigest : Fields → String) (receipts : List Fields) where
  -- The tests on an application that was prepared: its first row, the prepared row and the rest.
  unfoldable pub prepared_finding : Row → Row → List Row → Option Finding
  unfolding last_finding
  prepared_finding begin prepared rest =
      let all_rows = begin ∷ prepared ∷ rest in
      let started = rows_of "apply_started" all_rows in
      let staged = rows_of "apply_file_staged" all_rows in
      let written = rows_of "apply_file_written" all_rows in
      let rollbacks = rows_of "apply_rollback_started" all_rows in
      let restaged = rows_of "apply_rollback_file_staged" all_rows in
      let restored = rows_of "apply_rollback_file_restored" all_rows in
      let operations = number (get "operation_count" (detail prepared)) in
      if ltb 1 (length started) || started_unlinked hexdigest receipts prepared rest started
      then some candidate_apply_started_order_invalid
      else if staged_bad operations (first_sequence started) staged
          || written_bad operations (first_sequence started) written
      then some candidate_apply_progress_order_invalid
      else if any_written_unlinked hexdigest receipts staged written
      then some candidate_apply_progress_link_invalid
      else if ltb 1 (length rollbacks) || rollback_unlinked begin (prepared ∷ rest)
      then some candidate_apply_rollback_order_invalid
      else if in_rollback rollbacks (λ n. rollback_bad hexdigest receipts n restaged restored)
      then some candidate_apply_rollback_progress_invalid
      else if is_event "apply_recovery_required" begin || recovery_unlinked begin (prepared ∷ rest)
      then some candidate_apply_recovery_link_invalid
      else last_finding begin prepared all_rows (last_row prepared rest)

  -- The tests from the second row on.
  unfoldable pub steps_finding : Bool → Row → List Row → Option Finding
  unfolding prepared_finding
  steps_finding true begin [] = some candidate_apply_terminal_invalid
  steps_finding false begin [] = none
  steps_finding sealed begin (second ∷ rest) =
      if is_event "apply_rejected" second
      then if eqb (length rest) 0 then none else some candidate_apply_after_terminal
      else if not (is_event "apply_prepared" second)
          || not (eqb (length (rows_of "apply_prepared" (begin ∷ second ∷ rest))) 1)
      then some candidate_apply_prepared_order_invalid
      else if is_event "apply_rejected" (last_row second rest)
      then if eqb (length rest) 1 then none else some candidate_apply_after_terminal
      else prepared_finding begin second rest

  -- The tests on the rows of an application.
  unfoldable pub apply_finding : Bool → List Row → Option Finding
  unfolding final_before_last steps_finding
  apply_finding sealed [] = none
  apply_finding sealed (begin ∷ rest) =
      if any (context_changed begin) (begin ∷ rest)
      then some candidate_apply_context_changed
      else if not (is_event "apply_authority_created" begin)
          || not (eqb (length (rows_of "apply_authority_created" (begin ∷ rest))) 1)
      then some candidate_apply_begin_invalid
      else if final_before_last begin rest
      then some candidate_apply_after_terminal
      else if sealed && not (is_final (last_row begin rest))
      then some candidate_apply_terminal_invalid
      else if any
          (λ r. not (value_eq (row_run_id receipts r.sequence) (get "application_id" begin.body)))
          (begin ∷ rest)
      then some candidate_apply_run_id_mismatch
      else steps_finding sealed begin rest

  -- The tests on the rows of a review.
  pub review_finding : List Row → Option Finding
  review_finding [] = none
  review_finding (r ∷ []) =
      if value_eq (row_run_id receipts r.sequence) (get "decision_id" r.body)
      then none
      else some candidate_review_run_id_mismatch
  review_finding (r ∷ q ∷ rs) = some candidate_review_lifecycle_invalid

  abbrev pub of_found : Bool → Found → Option Finding
  of_found sealed (rejected f) = some f
  of_found sealed (found reviews applies) =
      and_then (review_finding reviews) (apply_finding sealed applies)

  unfoldable pub validate_decision_receipt_contract : Bool → Option Finding
  unfolding apply_finding review_finding
  validate_decision_receipt_contract sealed = of_found sealed (find receipts)
