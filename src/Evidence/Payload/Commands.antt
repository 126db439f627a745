-- ===== src/Evidence/Payload/Commands.antt =====
-- The payloads of operator commands: accepted, rejected, applied to an attempt, and unapplied.
use torq_cli_python.Prelude.{
  String, Bool, ◌&&◌, ◌||◌, not, Option, none, some, List, [], ◌∷◌, any, if◌then◌else◌,
}
use torq_cli_python.Json.{
  Value, Fields, get, has, is_str, is_text, is_true, is_false, is_null, fields,
}
use torq_cli_python.Evidence.Finding.{
  Finding, command_accept_invalid, command_extraction_invalid, command_target_invalid,
  command_boundary_invalid, command_rejection_invalid, command_effective_attempt_invalid,
  command_unapplied_invalid, raised,
}
use torq_cli_python.Evidence.Payload.Shape.{
  first_finding, positive_int, nonnegative_int, nonempty_str, opaque_id, artifact_path, media_type,
  bounded_label, max_source_name_len, redaction_names, bounded_content_bytes, sha256, label,
  extra_keys, exact_keys, is_one_of, is_obj, unhashable, lane_order,
}
use torq_cli_python.Evidence.Payload.Plans.{effective_keys}

abbrev command_accepted_keys : List String
command_accepted_keys =
    "command_id" ∷ "command_type" ∷ "context_id" ∷ "target_role" ∷ "route" ∷ "artifact"
    ∷ "artifact_hash" ∷ "media_type" ∷ "source_name" ∷ "content_bytes" ∷ "redactions" ∷ "extraction"
    ∷ "direct_route_confirmed" ∷ "earliest_eligible_attempt" ∷ "provider_dispatch" ∷ []

command_rejected_keys : List String
command_rejected_keys =
    "command_id" ∷ "command_type" ∷ "target_role" ∷ "finding" ∷ "media_type" ∷ "source_name"
    ∷ "earliest_eligible_attempt" ∷ "content_bytes" ∷ "provider_dispatch" ∷ []

context_injected_keys : List String
context_injected_keys =
    "command_id" ∷ "command_type" ∷ "context_id" ∷ "target_role" ∷ "route" ∷ "artifact"
    ∷ "artifact_hash" ∷ "media_type" ∷ "source_name" ∷ "content_bytes" ∷ "redactions" ∷ "extraction"
    ∷ "direct_route_confirmed" ∷ "accepted_sequence" ∷ "effective_attempt" ∷ "provider_dispatch"
    ∷ []

command_unapplied_keys : List String
command_unapplied_keys =
    "command_id" ∷ "accepted_sequence" ∷ "target_role" ∷ "reason" ∷ "last_covered_sequence"
    ∷ "provider_dispatch" ∷ []

-- A present field must have its shape.
bad_field : String → (Value → Bool) → Fields → Bool
bad_field k shape p = has k p && not (shape (get k p))

-- `not _command_values_ok(payload)`
unfoldable pub bad_command_values : Fields → Bool
unfolding bad_field
bad_command_values p =
    bad_field "command_id" opaque_id p
    || (bad_field "context_id" opaque_id p
        || (bad_field "artifact" artifact_path p
            || (bad_field "media_type" media_type p
                || (bad_field "source_name" (λ v. is_null v || bounded_label max_source_name_len v)
                      p
                    || (bad_field "redactions" redaction_names p
                        || bad_field "content_bytes" bounded_content_bytes p)))))

missing_text : List String → Fields → Bool
missing_text ks p = any (λ k. not (nonempty_str (get k p))) ks

extraction_keys : List String
extraction_keys = "contract_version" ∷ "extractor" ∷ "source_bytes" ∷ "extracted_bytes" ∷ []

command_types : List String
command_types = "context" ∷ "artifact" ∷ []

-- The extraction record of an artifact command.
extraction_checks : Fields → List (Bool × Finding)
unfolding extraction_keys
extraction_checks p =
    let artifact = is_text "artifact" (get "command_type" p) in
    let e = fields (get "extraction" p) in
    (artifact && not (is_obj (get "extraction" p)), command_extraction_invalid)
    ∷ (artifact && not (exact_keys extraction_keys e), command_extraction_invalid)
    ∷ (artifact && unhashable (get "contract_version" e), raised)
    ∷ (
      artifact && not (is_one_of ("1.0.0" ∷ "1.1.0" ∷ []) (get "contract_version" e)),
      command_extraction_invalid,
    )
    ∷ (artifact && not (label (get "extractor" e)), command_extraction_invalid)
    ∷ (artifact && not (positive_int (get "source_bytes" e)), command_extraction_invalid)
    ∷ (artifact && not (positive_int (get "extracted_bytes" e)), command_extraction_invalid)
    ∷ (
      is_text "context" (get "command_type" p) && not (is_null (get "extraction" p)),
      command_extraction_invalid,
    )
    ∷ []

accepted_head : Fields → Option Finding
unfolding missing_text
accepted_head p = first_finding (
    (extra_keys command_accepted_keys p, command_accept_invalid)
    ∷ (
      missing_text
          ("command_id" ∷ "command_type" ∷ "context_id" ∷ "target_role" ∷ "route" ∷ "artifact"
            ∷ "artifact_hash" ∷ "media_type" ∷ [])
          p,
      command_accept_invalid,
    )
    ∷ (bad_command_values p, command_accept_invalid)
    ∷ (not (sha256 (get "artifact_hash" p)), command_accept_invalid)
    ∷ (not (is_one_of command_types (get "command_type" p)), command_accept_invalid)
    ∷ [])

accepted_tail : Fields → Option Finding
accepted_tail p =
    let boundary = get "earliest_eligible_attempt" p in
    first_finding (
      (not (is_one_of ("lead" ∷ lane_order) (get "target_role" p)), command_target_invalid)
      ∷ (
        not (is_one_of ("lead_replan" ∷ "direct_lane" ∷ []) (get "route" p)),
        command_accept_invalid,
      )
      ∷ (not (is_true (get "direct_route_confirmed" p)), command_accept_invalid)
      ∷ (not (is_obj boundary), command_boundary_invalid)
      ∷ (not (exact_keys ("kind" ∷ []) (fields boundary)), command_boundary_invalid)
      ∷ (
        not (is_text "attempt_created_after_acknowledgement" (get "kind" (fields boundary))),
        command_boundary_invalid,
      )
      ∷ (not (nonnegative_int (get "content_bytes" p)), command_accept_invalid)
      ∷ (not (is_false (get "provider_dispatch" p)), command_accept_invalid)
      ∷ [])

abbrev or_else : Option Finding → Option Finding → Option Finding
or_else (some f) rest = some f
or_else none rest = rest

unfoldable pub validate_command_accepted : Fields → Option Finding
unfolding accepted_head extraction_checks accepted_tail command_types
validate_command_accepted p =
    or_else (accepted_head p) (or_else (first_finding (extraction_checks p)) (accepted_tail p))

-- An echoed field of a rejection is absent, null or a bounded label.
bad_echo : Fields → Bool
bad_echo p =
    any (λ k. has k p && (not (is_null (get k p)) && not (label (get k p))))
      ("media_type" ∷ "source_name" ∷ "target_role" ∷ [])

pub validate_command_rejected : Fields → Option Finding
unfolding command_rejected_keys command_types bad_echo
validate_command_rejected p = first_finding (
    (extra_keys command_rejected_keys p, command_rejection_invalid)
    ∷ (not (opaque_id (get "command_id" p)), command_rejection_invalid)
    ∷ (unhashable (get "command_type" p), raised)
    ∷ (not (is_one_of command_types (get "command_type" p)), command_rejection_invalid)
    ∷ (not (label (get "finding" p)), command_rejection_invalid)
    ∷ (not (is_null (get "earliest_eligible_attempt" p)), command_rejection_invalid)
    ∷ (not (is_false (get "provider_dispatch" p)), command_rejection_invalid)
    ∷ (not (nonnegative_int (get "content_bytes" p)), command_rejection_invalid)
    ∷ (bad_echo p, command_rejection_invalid)
    ∷ [])

-- A context injection that names a command; one that names none is not looked at here.
unfoldable pub validate_context_injected : Fields → Option Finding
unfolding context_injected_keys missing_text
validate_context_injected p =
    let effective = fields (get "effective_attempt" p) in
    let bad = command_effective_attempt_invalid in
    if has "command_id" p
    then first_finding (
        (extra_keys context_injected_keys p, bad)
        ∷ (
          missing_text
              ("command_id" ∷ "context_id" ∷ "target_role" ∷ "artifact" ∷ "artifact_hash"
                ∷ "media_type" ∷ [])
              p,
          bad,
        )
        ∷ (bad_command_values p, bad)
        ∷ (not (sha256 (get "artifact_hash" p)), bad)
        ∷ (not (positive_int (get "accepted_sequence" p)), bad)
        ∷ (not (is_obj (get "effective_attempt" p)), bad)
        ∷ (not (exact_keys effective_keys effective), bad)
        ∷ (not (is_str (get "role" effective)), bad)
        ∷ (not (is_str (get "attempt_id" effective)), bad)
        ∷ (not (positive_int (get "attempt_ordinal" effective)), bad)
        ∷ (not (positive_int (get "attempt_created_sequence" effective)), bad)
        ∷ (not (is_false (get "provider_dispatch" p)), bad)
        ∷ [])
    else none

pub validate_command_unapplied : Fields → Option Finding
unfolding command_unapplied_keys
validate_command_unapplied p =
    let target = get "target_role" p in
    let bad = command_unapplied_invalid in
    first_finding (
      (extra_keys command_unapplied_keys p, bad)
      ∷ (not (opaque_id (get "command_id" p)), bad)
      ∷ (not (positive_int (get "accepted_sequence" p)), bad)
      ∷ (unhashable (get "reason" p), raised)
      ∷ (
        not (is_one_of ("no_eligible_future_attempt" ∷ "run_terminating" ∷ []) (get "reason" p)),
        bad,
      )
      ∷ (not (positive_int (get "last_covered_sequence" p)), bad)
      ∷ (not (is_false (get "provider_dispatch" p)), bad)
      ∷ (unhashable target, raised)
      ∷ (not (is_null target) && not (is_one_of ("lead" ∷ lane_order) target), bad)
      ∷ [])
