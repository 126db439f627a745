-- ===== src/Evidence/Tests.antt =====
-- The authority matrix and the floor at concrete receipts.
use torq_cli_python.Prelude.{◌≡◌, ◌↔◌, ◌⊎◌, ◌≤◌, false, none, some}
use torq_cli_python.Json.{Value, Fields, field, no_fields, str, int, obj, arr, item, no_items}
use torq_cli_python.Evidence.Names.{run_decision, orchestrator, derived}
use torq_cli_python.Evidence.Rules.{transition_authority_finding}
use torq_cli_python.Evidence.Rules.Authority.{Allowed, AuditEvent, authority_iff}
use torq_cli_python.Evidence.Payload.Floor.{oversized_value, max_receipt_items, max_receipt_depth}
use torq_cli_python.Evidence.Payload.Floor.Bounds.{nodes, levels, AllShort, floor_iff}

abbrev completed : Fields
completed = field "decision" (str "completed") no_fields

authority_iff_example :
    (transition_authority_finding (some orchestrator) (some run_decision) derived completed false
      ≡ none)
    ↔ (Allowed orchestrator run_decision derived completed
        ⊎ AuditEvent orchestrator run_decision derived)
authority_iff_example = authority_iff orchestrator run_decision derived completed

abbrev nested : Value
nested = obj (field "roles" (arr (item (str "g1d") (item (int 2) no_items))) completed)

floor_iff_example :
    (oversized_value nested ≡ false)
    ↔ ((nodes nested ≤ max_receipt_items) × (levels nested ≤ max_receipt_depth) × AllShort nested)
floor_iff_example = floor_iff nested
