-- ===== src/Audit/Decision/Apply.antt =====
-- `validate_apply_payload`.
use torq_cli_python.Prelude.{
  String, Bool, false, ◌&&◌, ◌||◌, not, Option, none, some, List, [], ◌∷◌, elem, if◌then◌else◌,
}
use torq_cli_python.Dict.{Dict, lookup}
use torq_cli_python.Json.{Value, str, obj, Fields, get, has, is_str, is_null, is_text}
use torq_cli_python.Evidence.Finding.{
  Finding, candidate_apply_payload_invalid, candidate_apply_identity_invalid,
  candidate_apply_detail_invalid,
}
use torq_cli_python.Evidence.Payload.Shape.{
  positive_int, nonnegative_int, opaque_id, sha256, exact_keys,
}
use torq_cli_python.Audit.Shape.{reason_code}
use torq_cli_python.Audit.Decision.Review.{
  validate_candidate_ref, validate_decision_ref, is_actor, is_artifact_ref,
}

-- `payload.get("apply_contract") == APPLY_CONTRACT`
abbrev pub is_apply : Fields → Bool
is_apply p = is_text "torq-candidate-apply-v1" (get "apply_contract" p)

-- `COMMON_APPLY`
apply_keys : List String
apply_keys =
    "apply_contract" ∷ "event" ∷ "application_id" ∷ "request_digest" ∷ "candidate" ∷ "acceptance"
    ∷ "actor" ∷ "detail" ∷ []

-- `_APPLY_DETAILS`
apply_details : Dict (List String)
apply_details =
    ("apply_authority_created", "installation_id" ∷ [])
    ∷ ("apply_rejected", "reason_code" ∷ [])
    ∷ (
      "apply_prepared",
      "journal_artifact" ∷ "journal_hash" ∷ "primary_identity_hash" ∷ "operation_count" ∷ [],
    )
    ∷ ("apply_started", "prepared_sequence" ∷ "prepared_receipt_hash" ∷ [])
    ∷ (
      "apply_file_staged",
      "started_sequence" ∷ "operation_index" ∷ "path" ∷ "result_hash" ∷ "staged_identity" ∷ [],
    )
    ∷ (
      "apply_file_written",
      "started_sequence" ∷ "staged_sequence" ∷ "staged_receipt_hash" ∷ "operation_index" ∷ "path"
          ∷ "result_hash" ∷ [],
    )
    ∷ ("apply_rollback_started", "caused_by_sequence" ∷ "reason_code" ∷ [])
    ∷ (
      "apply_rollback_file_staged",
      "rollback_started_sequence" ∷ "operation_index" ∷ "path" ∷ "base_hash" ∷ "staged_identity"
          ∷ [],
    )
    ∷ (
      "apply_rollback_file_restored",
      "rollback_started_sequence" ∷ "operation_index" ∷ "path" ∷ "base_hash" ∷ "staged_sequence"
          ∷ "staged_receipt_hash" ∷ [],
    )
    ∷ ("apply_recovery_required", "caused_by_sequence" ∷ "reason_code" ∷ [])
    ∷ (
      "candidate_applied",
      "started_sequence" ∷ "journal_hash" ∷ "result_scope_manifest_hash" ∷ "operation_count" ∷ [],
    )
    ∷ (
      "apply_rolled_back",
      "prepared_sequence" ∷ "journal_hash" ∷ "restored_scope_manifest_hash" ∷ [],
    )
    ∷ []

-- `key in detail and not test(detail.get(key))`
abbrev has_bad : (Value → Bool) → String → Fields → Bool
has_bad test k d = has k d && not (test (get k d))

-- A staged identity: two numbers of the file system.
is_identity : Value → Bool
is_identity (obj i) =
    exact_keys ("volume" ∷ "file_id" ∷ []) i
    && (nonnegative_int (get "volume" i) && nonnegative_int (get "file_id" i))
is_identity _ = false

is_reason : Fields → Bool
is_reason d = reason_code (get "reason_code" d)

is_prepared : Fields → Bool
is_prepared d =
    is_artifact_ref (get "journal_artifact" d)
    && (sha256 (get "journal_hash" d)
        && (sha256 (get "primary_identity_hash" d) && positive_int (get "operation_count" d)))

is_progress : Fields → Bool
is_progress d = nonnegative_int (get "operation_index" d) && is_str (get "path" d)

is_rollback_progress : Fields → Bool
is_rollback_progress d =
    positive_int (get "rollback_started_sequence" d)
    && (is_null (get "base_hash" d) || sha256 (get "base_hash" d))

is_staged_link : Fields → Bool
is_staged_link d = positive_int (get "staged_sequence" d) && sha256 (get "staged_receipt_hash" d)

-- `event in events and not test(detail)`
abbrev fails : List String → String → Bool → Bool
fails events event test = elem event events && not test

-- Each test of the events' details; they share one finding.
pub bad_detail : String → Fields → Bool
unfolding is_identity is_reason is_prepared is_progress is_rollback_progress is_staged_link
bad_detail event d =
    fails ("apply_authority_created" ∷ []) event (opaque_id (get "installation_id" d))
    || (fails ("apply_rejected" ∷ "apply_rollback_started" ∷ "apply_recovery_required" ∷ []) event
          (is_reason d)
        || (fails ("apply_prepared" ∷ []) event (is_prepared d)
            || (has_bad positive_int "prepared_sequence" d
                || (has_bad positive_int "started_sequence" d
                    || (has_bad positive_int "caused_by_sequence" d
                        || (has_bad sha256 "prepared_receipt_hash" d
                            || (has_bad sha256 "journal_hash" d
                                || (has_bad sha256 "result_scope_manifest_hash" d
                                    || (has_bad sha256 "restored_scope_manifest_hash" d
                                        || (fails
                                              ("apply_file_staged" ∷ "apply_file_written"
                                                ∷ "apply_rollback_file_staged"
                                                ∷ "apply_rollback_file_restored" ∷ [])
                                              event (is_progress d)
                                            || (fails
                                                  ("apply_file_staged" ∷ "apply_file_written" ∷ [])
                                                  event (sha256 (get "result_hash" d))
                                                || (fails
                                                      ("apply_rollback_file_staged"
                                                        ∷ "apply_rollback_file_restored" ∷ [])
                                                      event (is_rollback_progress d)
                                                    || (has_bad is_identity "staged_identity" d
                                                        || (fails
                                                            ("apply_file_written"
                                                            ∷ "apply_rollback_file_restored" ∷ [])
                                                            event (is_staged_link d)
                                                            || has_bad positive_int
                                                            "operation_count" d))))))))))))))

-- The keys of the event's detail; none where the event is not one of them.
detail_keys : Value → Option (List String)
unfolding apply_details lookup
detail_keys (str s) = lookup s apply_details
detail_keys _ = none

apply_detail : Value → Value → Option (List String) → Option Finding
unfolding bad_detail
apply_detail (str event) (obj d) (some ks) =
    if not (exact_keys ks d) || bad_detail event d
    then some candidate_apply_detail_invalid
    else none
apply_detail event d _ = some candidate_apply_detail_invalid

unfoldable pub validate_apply_payload : Fields → Option Finding
unfolding apply_keys apply_detail detail_keys
validate_apply_payload p =
    if not (is_apply p)
    then none
    else if not (exact_keys apply_keys p) || not (opaque_id (get "application_id" p))
    then some candidate_apply_payload_invalid
    else if not (sha256 (get "request_digest" p))
        || (not (validate_candidate_ref (get "candidate" p))
            || (not (validate_decision_ref (get "acceptance" p)) || not (is_actor (get "actor" p))))
    then some candidate_apply_identity_invalid
    else apply_detail (get "event" p) (get "detail" p) (detail_keys (get "event" p))
