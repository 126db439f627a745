-- ===== src/Audit/Decision/Review.antt =====
-- `validate_review_payload`, and the references that reviews and applications share. `_identifier`
-- is `opaque_id`, `_digest` is `sha256` and `_positive` is `positive_int`.
use torq_cli_python.Prelude.{
  ℕ, String, Bool, false, ◌&&◌, ◌||◌, not, Option, none, some, List, [], ◌∷◌, eqb, if◌then◌else◌,
}
use torq_cli_python.Json.{Value, str, obj, Fields, get, is_text}
use torq_cli_python.Evidence.Finding.{
  Finding, candidate_review_payload_invalid, candidate_review_identity_invalid,
  candidate_review_detail_invalid, candidate_accept_detail_invalid,
  candidate_correction_detail_invalid, candidate_review_event_invalid,
}
use torq_cli_python.Evidence.Payload.Shape.{
  codes, head_tail, is_alnum, positive_int, opaque_id, sha256, exact_keys,
}
use torq_cli_python.Audit.Shape.{digests, dots_part}

-- `/`
is_solidus : ℕ → Bool
is_solidus c = eqb c 47

-- `/`, `.`, `_`, `-`
is_path_char : ℕ → Bool
is_path_char c = is_alnum c || (eqb c 47 || (eqb c 46 || (eqb c 95 || eqb c 45)))

-- `_artifact`
unfoldable pub decision_artifact : Value → Bool
unfolding head_tail is_path_char is_solidus dots_part
decision_artifact (str s) =
    head_tail is_alnum is_path_char 255 (codes s) && not (dots_part is_solidus 0 (codes s))
decision_artifact _ = false

candidate_hashes : List String
candidate_hashes =
    "ready_receipt_hash" ∷ "terminal_manifest_hash" ∷ "plan_hash" ∷ "base_scope_manifest_hash"
    ∷ "input_hash" ∷ "candidate_scope_manifest_hash" ∷ "check_receipt_hash" ∷ "review_hash" ∷ []

-- `validate_candidate_ref`
unfoldable pub validate_candidate_ref : Value → Bool
unfolding candidate_hashes
validate_candidate_ref (obj c) =
    exact_keys ("task_id" ∷ "ready_sequence" ∷ "check_sequence" ∷ candidate_hashes) c
    && (opaque_id (get "task_id" c)
        && (positive_int (get "ready_sequence" c)
            && (positive_int (get "check_sequence" c) && digests candidate_hashes c)))
validate_candidate_ref _ = false

-- `validate_decision_ref`
unfoldable pub validate_decision_ref : Value → Bool
validate_decision_ref (obj d) =
    exact_keys
      ("decision_id" ∷ "decision_sequence" ∷ "decision_receipt_hash" ∷ "terminal_manifest_hash"
        ∷ [])
      d
    && (opaque_id (get "decision_id" d)
        && (positive_int (get "decision_sequence" d)
            && (sha256 (get "decision_receipt_hash" d) && sha256 (get "terminal_manifest_hash" d))))
validate_decision_ref _ = false

-- `_actor`
unfoldable pub is_actor : Value → Bool
is_actor (obj a) =
    exact_keys ("subject_id" ∷ "assurance" ∷ []) a
    && (opaque_id (get "subject_id" a) && is_text "local_operator_session" (get "assurance" a))
is_actor _ = false

-- `_artifact_ref`
unfoldable pub is_artifact_ref : Value → Bool
is_artifact_ref (obj r) =
    exact_keys ("artifact" ∷ "artifact_hash" ∷ "content_hash" ∷ []) r
    && (decision_artifact (get "artifact" r)
        && (sha256 (get "artifact_hash" r) && sha256 (get "content_hash" r)))
is_artifact_ref _ = false

-- `payload.get("review_contract") == REVIEW_CONTRACT`
abbrev pub is_review : Fields → Bool
is_review p = is_text "torq-candidate-review-v1" (get "review_contract" p)

-- `COMMON_REVIEW`
review_keys : List String
review_keys =
    "review_contract" ∷ "event" ∷ "decision_id" ∷ "request_digest" ∷ "candidate" ∷ "actor"
    ∷ "detail" ∷ []

accepted_detail : Fields → Bool
accepted_detail d =
    exact_keys ("review_artifact" ∷ "source_scope_hash" ∷ []) d
    && (is_artifact_ref (get "review_artifact" d) && sha256 (get "source_scope_hash" d))

correction_detail : Fields → Bool
correction_detail d =
    exact_keys ("correction_revision" ∷ "correction_hash" ∷ "child_plan_hash" ∷ []) d
    && (positive_int (get "correction_revision" d)
        && (sha256 (get "correction_hash" d) && sha256 (get "child_plan_hash" d)))

review_detail : Value → Value → Option Finding
unfolding accepted_detail correction_detail
review_detail event (obj d) =
    if is_text "candidate_accepted" event
    then if accepted_detail d then none else some candidate_accept_detail_invalid
    else if is_text "correction_requested" event
    then if correction_detail d then none else some candidate_correction_detail_invalid
    else some candidate_review_event_invalid
review_detail event _ = some candidate_review_detail_invalid

unfoldable pub validate_review_payload : Fields → Option Finding
unfolding review_keys review_detail
validate_review_payload p =
    if not (is_review p)
    then none
    else if not (exact_keys review_keys p) || not (opaque_id (get "decision_id" p))
    then some candidate_review_payload_invalid
    else if not (sha256 (get "request_digest" p))
        || (not (validate_candidate_ref (get "candidate" p)) || not (is_actor (get "actor" p)))
    then some candidate_review_identity_invalid
    else review_detail (get "event" p) (get "detail" p)
