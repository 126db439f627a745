-- ===== src/Audit/Decision/Contract/Tests.antt =====
-- An application of one file, completed and rolled back.
use torq_cli_python.Prelude.{ℕ, ◌≡◌, refl, String, true, none, List, [], ◌∷◌}
use torq_cli_python.Json.{Value, Fields, field, no_fields, str, int, obj, value_eq, count_fields}
use torq_cli_python.Evidence.Payload.Shape.{sha256, positive_int, nonnegative_int, opaque_id}
use torq_cli_python.Audit.Shape.{digests, reason_code}
use torq_cli_python.Audit.Task.Contract.{Row, row_of}
use torq_cli_python.Audit.Decision.Review.{
  decision_artifact, validate_candidate_ref, validate_decision_ref, is_actor, is_artifact_ref,
  validate_review_payload,
}
use torq_cli_python.Audit.Decision.Apply.{validate_apply_payload}
use torq_cli_python.Audit.Decision.Contract.{
  found, find, rows_of, in_order, distinct_paths, row_at, row_run_id, receipt_at,
}
use torq_cli_python.Audit.Decision.Contract.Progress.{
  staged_bad, written_bad, any_written_unlinked, started_unlinked, hash_at,
}
use torq_cli_python.Audit.Decision.Contract.Rollback.{
  rollback_bad, rollback_unlinked, recovery_unlinked, restored_unlinked,
}
use torq_cli_python.Audit.Decision.Contract.Lifecycle.{
  last_row, validate_decision_receipt_contract, apply_finding, steps_finding, prepared_finding,
}
use torq_cli_python.Audit.Decision.Contract.Applied.{IsApplied, completed-IsApplied}
use torq_cli_python.Audit.Decision.Contract.RolledBack.{IsRestored, rolled_back-IsRestored}
use torq_cli_python.Audit.Decision.Contract.Final.{accepted-final_is_last}

abbrev digest : Value
digest = str "sha256:0123456789abcdef0123456789abcdef0123456789abcdef0123456789abcdef"

abbrev digests_of : List String → Fields → Fields
digests_of [] rest = rest
digests_of (k ∷ ks) rest = field k digest (digests_of ks rest)

abbrev candidate : Fields
candidate = field "task_id" (str "task-1") (
    field "ready_sequence" (int 4) (
      field "check_sequence" (int 3) (
        digests_of
          ("ready_receipt_hash" ∷ "terminal_manifest_hash" ∷ "plan_hash"
            ∷ "base_scope_manifest_hash" ∷ "input_hash" ∷ "candidate_scope_manifest_hash"
            ∷ "check_receipt_hash" ∷ "review_hash" ∷ [])
          no_fields)))

abbrev acceptance : Fields
acceptance = field "decision_id" (str "decision-1") (
    field "decision_sequence" (int 1)
      (digests_of ("decision_receipt_hash" ∷ "terminal_manifest_hash" ∷ []) no_fields))

abbrev receipt : ℕ → String → Fields → Fields
receipt n event detail = field "transition" (str "audit") (
    field "run_id" (str "apply-1") (
      field "sequence" (int n) (
        field "receipt_hash" digest (
          field "payload"
            (obj (
              field "apply_contract" (str "torq-candidate-apply-v1") (
                field "event" (str event) (
                  field "application_id" (str "apply-1") (
                    field "request_digest" digest (
                      field "candidate" (obj candidate) (
                        field "acceptance" (obj acceptance) (
                          field "actor"
                            (obj (
                              field "subject_id" (str "operator")
                                (field "assurance" (str "local_operator_session") no_fields)))
                            (field "detail" (obj detail) no_fields)))))))))
            no_fields))))

abbrev begin : Fields
begin = receipt 1 "apply_authority_created" (field "installation_id" (str "host-1") no_fields)

abbrev prepared : Fields
prepared = receipt 2 "apply_prepared" (
    field "journal_artifact"
      (obj (
        field "artifact" (str "apply/journal.json")
          (digests_of ("artifact_hash" ∷ "content_hash" ∷ []) no_fields)))
      (field "operation_count" (int 1)
        (digests_of ("journal_hash" ∷ "primary_identity_hash" ∷ []) no_fields)))

abbrev started : Fields
started =
    receipt 3 "apply_started"
      (field "prepared_sequence" (int 2) (field "prepared_receipt_hash" digest no_fields))

abbrev file : Fields → Fields
file rest = field "operation_index" (int 0) (field "path" (str "src/app.py") rest)

abbrev identity : Fields
identity =
    field "staged_identity" (obj (field "volume" (int 1) (field "file_id" (int 7) no_fields)))
      no_fields

abbrev staged : Fields
staged =
    receipt 4 "apply_file_staged"
      (file (field "started_sequence" (int 3) (field "result_hash" digest identity)))

abbrev written : Fields
written = receipt 5 "apply_file_written" (
    file (
      field "started_sequence" (int 3) (
        field "staged_sequence" (int 4)
          (digests_of ("staged_receipt_hash" ∷ "result_hash" ∷ []) no_fields))))

abbrev applied : Fields
applied = receipt 6 "candidate_applied" (
    field "started_sequence" (int 3) (
      field "operation_count" (int 1)
        (digests_of ("journal_hash" ∷ "result_scope_manifest_hash" ∷ []) no_fields)))

abbrev undoing : Fields
undoing =
    receipt 6 "apply_rollback_started"
      (field "caused_by_sequence" (int 5) (field "reason_code" (str "write_failed") no_fields))

abbrev restaged : Fields
restaged =
    receipt 7 "apply_rollback_file_staged"
      (file (field "rollback_started_sequence" (int 6) (field "base_hash" digest identity)))

abbrev restored : Fields
restored = receipt 8 "apply_rollback_file_restored" (
    file (
      field "rollback_started_sequence" (int 6) (
        field "staged_sequence" (int 7)
          (digests_of ("base_hash" ∷ "staged_receipt_hash" ∷ []) no_fields))))

abbrev rolled_back : Fields
rolled_back = receipt 9 "apply_rolled_back" (
    field "prepared_sequence" (int 2)
      (digests_of ("journal_hash" ∷ "restored_scope_manifest_hash" ∷ []) no_fields))

abbrev hexdigest : Fields → String
hexdigest row = ""

abbrev completed : List Fields
completed = begin ∷ prepared ∷ started ∷ staged ∷ written ∷ applied ∷ []

abbrev undone : List Fields
undone =
    begin ∷ prepared ∷ started ∷ staged ∷ written ∷ undoing ∷ restaged ∷ restored ∷ rolled_back ∷ []

abbrev no_rows : List Row
no_rows = []

abbrev rows_before : List Row
rows_before = row_of begin ∷ row_of prepared ∷ row_of started ∷ row_of staged ∷ row_of written ∷ []

abbrev completed_rest : List Row
completed_rest = row_of started ∷ row_of staged ∷ row_of written ∷ row_of applied ∷ []

abbrev undone_rest : List Row
undone_rest =
    row_of started
    ∷ row_of staged
    ∷ row_of written
    ∷ row_of undoing
    ∷ row_of restaged
    ∷ row_of restored
    ∷ row_of rolled_back
    ∷ []

completed_found : find completed ≡ found no_rows (row_of begin ∷ row_of prepared ∷ completed_rest)
unfolding find validate_apply_payload validate_review_payload positive_int nonnegative_int sha256
    digests opaque_id decision_artifact validate_candidate_ref validate_decision_ref is_actor
    is_artifact_ref
completed_found = refl

undone_found : find undone ≡ found no_rows (row_of begin ∷ row_of prepared ∷ undone_rest)
unfolding find validate_apply_payload validate_review_payload positive_int nonnegative_int sha256
    digests opaque_id decision_artifact validate_candidate_ref validate_decision_ref is_actor
    is_artifact_ref reason_code
undone_found = refl

completed_accepted : validate_decision_receipt_contract hexdigest completed true ≡ none
unfolding validate_decision_receipt_contract apply_finding steps_finding prepared_finding value_eq
    count_fields row_run_id rows_of in_order distinct_paths row_at receipt_at staged_bad written_bad
    any_written_unlinked started_unlinked hash_at rollback_unlinked recovery_unlinked last_row
completed_accepted = rw completed_found

undone_accepted : validate_decision_receipt_contract hexdigest undone true ≡ none
unfolding validate_decision_receipt_contract apply_finding steps_finding prepared_finding value_eq
    count_fields row_run_id rows_of in_order distinct_paths row_at receipt_at staged_bad written_bad
    any_written_unlinked started_unlinked hash_at rollback_unlinked recovery_unlinked rollback_bad
    restored_unlinked last_row
undone_accepted = rw undone_found

completed-IsApplied_example : IsApplied (row_of begin) (row_of prepared) completed_rest
unfolding last_row
completed-IsApplied_example =
    completed-IsApplied hexdigest completed true no_rows (row_of begin) (row_of prepared)
      completed_rest completed_found completed_accepted refl

rolled_back-IsRestored_example :
    IsRestored (row_of begin) (row_of rolled_back) (row_of restaged ∷ []) (row_of restored ∷ [])
unfolding last_row rows_of
rolled_back-IsRestored_example =
    rolled_back-IsRestored hexdigest undone true no_rows (row_of begin) (row_of prepared)
      undone_rest undone_found undone_accepted refl

accepted-final_is_last_example : no_rows ≡ []
accepted-final_is_last_example =
    accepted-final_is_last hexdigest completed true no_rows rows_before (row_of applied) no_rows
      completed_found completed_accepted refl
