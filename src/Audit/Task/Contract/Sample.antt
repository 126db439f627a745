-- ===== src/Audit/Task/Contract/Sample.antt =====
-- One task from its start to a ready candidate, as rows.
use torq_cli_python.Prelude.{ℕ, String, Bool, true, false, List, [], ◌∷◌, ◌++◌}
use torq_cli_python.Json.{Value, Fields, field, no_fields, str, int, obj, bool}

abbrev digest : Value
digest = str "sha256:0123456789abcdef0123456789abcdef0123456789abcdef0123456789abcdef"

abbrev digests_of : List String → Fields → Fields
digests_of [] rest = rest
digests_of (k ∷ ks) rest = field k digest (digests_of ks rest)

abbrev receipt : ℕ → String → Bool → Fields → Fields
receipt n event sent rest = field "transition" (str "audit") (
    field "run_id" (str "task-1") (
      field "sequence" (int n) (
        field "payload"
          (obj (
            field "task_contract" (str "torq-candidate-task-v1") (
              field "event" (str event)
                (field "task_id" (str "task-1") (field "provider_dispatch" (bool sent) rest)))))
          no_fields)))

abbrev evidence : String → Fields → Fields
evidence path rest =
    field "artifact" (str path) (digests_of ("artifact_hash" ∷ "artifact_content_hash" ∷ []) rest)

abbrev model : Fields → Fields
model rest = field "provider" (str "acme") (field "model" (str "acme-1") rest)

abbrev stopped : Fields
stopped = field "termination" (str "confirmed_empty") no_fields

abbrev pub started : Fields
started = receipt 1 "task_start_accepted" false (
    digests_of ("request_digest" ∷ "plan_hash" ∷ "base_manifest_hash" ∷ "input_hash" ∷ [])
      (evidence "tasks/request.json" (model no_fields)))

abbrev pub generated : Fields
generated = receipt 2 "candidate_generated" true (
    field "start_sequence" (int 1) (
      digests_of ("plan_hash" ∷ "input_hash" ∷ "candidate_manifest_hash" ∷ "raw_response_hash" ∷ [])
        (evidence "tasks/candidate.json" (model stopped))))

abbrev pub checked_row : Fields
checked_row = receipt 3 "candidate_check_completed" false (
    field "generated_sequence" (int 2) (
      field "check_profile_id" (str "structural-v1") (
        field "check_profile_version" (str "1.0.0") (
          field "exit_code" (int 0) (
            field "output_complete" (bool true) (
              digests_of
                ("candidate_manifest_hash" ∷ "helper_hash" ∷ "argv_hash" ∷ "output_hash" ∷ [])
                (evidence "tasks/check.json" stopped)))))))

abbrev pub ready : Fields
ready = receipt 4 "candidate_ready" false (
    field "start_sequence" (int 1) (
      field "generated_sequence" (int 2) (
        field "check_sequence" (int 3) (
          digests_of
            ("plan_hash" ∷ "base_manifest_hash" ∷ "input_hash" ∷ "candidate_manifest_hash"
              ∷ "source_recheck_hash" ∷ [])
            no_fields))))

abbrev pub labour : List Fields
labour = started ∷ generated ∷ checked_row ∷ []

abbrev pub task : List Fields
task = labour ++ ready ∷ []
