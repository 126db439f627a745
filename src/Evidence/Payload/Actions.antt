-- ===== src/Evidence/Payload/Actions.antt =====
-- The payloads of operator actions.
use torq_cli_python.Prelude.{
  String, Bool, true, ◌&&◌, ◌||◌, not, Option, none, some, List, [], ◌∷◌, leb, elem, any,
  if◌then◌else◌,
}
use torq_cli_python.Json.{
  Value, arr, obj, str, Items, no_items, item, Fields, no_fields, field, get, count_items,
}
use torq_cli_python.Evidence.Finding.{
  Finding, action_opened_invalid, action_outcome_map_invalid, action_resolved_invalid, raised,
}
use torq_cli_python.Evidence.Payload.Shape.{
  first_finding, positive_int, opaque_id, label, extra_keys, exact_keys, is_one_of, unhashable,
  all_items,
}

action_opened_keys : List String
action_opened_keys =
    "action_id" ∷ "type" ∷ "scope" ∷ "target" ∷ "summary" ∷ "allowed_resolutions" ∷ "outcome_map"
    ∷ "caused_by_sequence" ∷ "provider_dispatch" ∷ []

action_resolved_keys : List String
action_resolved_keys =
    "action_id" ∷ "resolution" ∷ "resolver_identity" ∷ "opened_sequence" ∷ "provider_dispatch" ∷ []

-- `any(not _bounded_label(payload.get(field)) for field in required)`
unlabelled : List String → Fields → Bool
unlabelled ks p = any (λ k. not (label (get k p))) ks

-- The texts of a list.
pub texts : Items → List String
texts no_items = []
texts (item (str s) xs) = s ∷ texts xs
texts (item _ xs) = texts xs

-- `len(set(texts)) == len(texts)`
pub distinct_texts : List String → Bool
distinct_texts [] = true
distinct_texts (s ∷ ss) = not (elem s ss) && distinct_texts ss

-- `any(value not in {...} for value in outcome_map.values())`
outcome_values : Fields → Option Finding
outcome_values no_fields = none
outcome_values (field k v fs) =
    if unhashable v
    then some raised
    else if is_one_of ("completed" ∷ "blocked" ∷ "failed" ∷ []) v
    then outcome_values fs
    else some action_outcome_map_invalid

outcome_finding : Items → Value → Option Finding
outcome_finding allowed (obj outcomes) =
    if exact_keys (texts allowed) outcomes
    then outcome_values outcomes
    else some action_outcome_map_invalid
outcome_finding allowed _ = some action_outcome_map_invalid

allowed_finding : Value → Value → Option Finding
allowed_finding (arr no_items) outcomes = some action_outcome_map_invalid
allowed_finding (arr (item v xs)) outcomes =
    if leb (count_items (item v xs)) 8
      && (all_items opaque_id (item v xs) && distinct_texts (texts (item v xs)))
    then outcome_finding (item v xs) outcomes
    else some action_outcome_map_invalid
allowed_finding _ outcomes = some action_outcome_map_invalid

unfoldable pub validate_action_opened : Fields → Option Finding
unfolding action_opened_keys unlabelled texts distinct_texts outcome_values outcome_finding
    allowed_finding
validate_action_opened p =
    if extra_keys action_opened_keys p
      || (unlabelled ("action_id" ∷ "type" ∷ "scope" ∷ "target" ∷ "summary" ∷ []) p
          || not (positive_int (get "caused_by_sequence" p)))
    then some action_opened_invalid
    else allowed_finding (get "allowed_resolutions" p) (get "outcome_map" p)

pub validate_action_resolved : Fields → Option Finding
unfolding action_resolved_keys unlabelled
validate_action_resolved p = first_finding (
    (extra_keys action_resolved_keys p, action_resolved_invalid)
    ∷ (
      unlabelled ("action_id" ∷ "resolution" ∷ "resolver_identity" ∷ []) p,
      action_resolved_invalid,
    )
    ∷ (not (positive_int (get "opened_sequence" p)), action_resolved_invalid)
    ∷ [])
