-- ===== src/Evidence/Payload/Plans.antt =====
-- The payloads of run plans and their revisions, with the identities of run_plan.py.
use Prim.Native.String.{◌++◌ as concat}
use torq_cli_python.Prelude.{
  ℕ, String, Bool, true, false, ◌&&◌, ◌||◌, not, Option, none, some, List, [], ◌∷◌, ◌==◌, eqb,
  if◌then◌else◌,
}
use torq_cli_python.Json.{
  Value, int, str, arr, obj, Items, no_items, item, Fields, no_fields, field, get, has, is_str,
  is_true, is_false, is_bool, is_null, is_text, text, number, count_items,
}
use torq_cli_python.Evidence.Finding.{
  Finding, lane_catalog_invalid, lane_catalog_order_invalid, lane_catalog_required_invalid,
  run_plan_contract_invalid, run_plan_hash_invalid, run_replanned_invalid,
  run_replanned_hash_invalid, raised,
}
use torq_cli_python.Evidence.World.{World}
use torq_cli_python.Evidence.Payload.Shape.{
  first_finding, positive_int, opaque_id, sha256, extra_keys, exact_keys, is_one_of,
  conditional_lanes, lane_order,
}

abbrev plan_contract : String
plan_contract = "torq-run-plan-v1"

abbrev revision_contract : String
revision_contract = "torq-run-plan-revision-v1"

-- `str(value)`
abbrev render : World → Value → String
render w (str s) = s
render w v = w.render v

-- `plan_hash`
pub plan_hash : World → Fields → String
plan_hash w body = concat "sha256:" (w.hexdigest body)

-- `initial_plan_body`
initial_plan_body : String → String → Items → Items → Fields
initial_plan_body profile strategy roles catalog = field "schema_version" (str plan_contract) (
    field "profile_id" (str profile) (
      field "strategy_id" (str strategy)
        (field "planned_roles" (arr roles) (field "lane_catalog" (arr catalog) no_fields))))

-- `revision_body`
revision_body : ℕ → String → String → ℕ → Items → Fields
revision_body revision previous command accepted affected =
    field "schema_version" (str revision_contract) (
      field "plan_revision" (int revision) (
        field "previous_plan_hash" (str previous) (
          field "reason" (str "operator_context") (
            field "command_id" (str command) (
              field "accepted_sequence" (int accepted)
                (field "affected_future_attempts" (arr affected) no_fields))))))

run_planned_keys : List String
run_planned_keys =
    "mode" ∷ "profile_id" ∷ "strategy_id" ∷ "planned_roles" ∷ "lane_catalog" ∷ "plan_contract"
    ∷ "plan_hash" ∷ "rate_table_version" ∷ "rate_table_hash" ∷ []

-- `[lane.get("role") for lane in catalog if isinstance(lane, Mapping)]`
lane_roles : Items → List Value
lane_roles no_items = []
lane_roles (item (obj lane) xs) = get "role" lane ∷ lane_roles xs
lane_roles (item _ xs) = lane_roles xs

same_texts : List Value → List String → Bool
same_texts [] [] = true
same_texts (v ∷ vs) (s ∷ ss) = is_text s v && same_texts vs ss
same_texts _ _ = false

-- A lane must say whether it is required; outside a dry run every core lane is.
bad_lane : Bool → Value → Bool
bad_lane dry (obj lane) =
    not (is_bool (get "required" lane))
    || (not dry
        && (not (is_one_of conditional_lanes (get "role" lane))
            && not (is_true (get "required" lane))))
bad_lane dry _ = true

any_item : (Value → Bool) → Items → Bool
any_item p no_items = false
any_item p (item v xs) = p v || any_item p xs

-- `[str(role) for role in roles]`; a value that cannot be iterated raises.
render_items : World → Items → Items
render_items w no_items = no_items
render_items w (item v xs) = item (str (render w v)) (render_items w xs)

characters : String → Items
characters String.[] = no_items
characters (String.◌∷◌ c s) = item (str (String.◌∷◌ c String.[])) (characters s)

key_items : Fields → Items
key_items no_fields = no_items
key_items (field k v fs) = item (str k) (key_items fs)

planned_roles : World → Value → Option Items
planned_roles w (arr xs) = some (render_items w xs)
planned_roles w (str s) = some (characters s)
planned_roles w (obj fs) = some (key_items fs)
planned_roles w _ = none

-- `payload.get(key, default)`
get_default : String → Value → Fields → Value
get_default k d p = if has k p then get k p else d

-- `[dict(row) for row in catalog if isinstance(row, Mapping)]`
mapping_items : Items → Items
mapping_items no_items = no_items
mapping_items (item (obj fs) xs) = item (obj fs) (mapping_items xs)
mapping_items (item _ xs) = mapping_items xs

hash_finding : World → Fields → Items → Option Items → Option Finding
hash_finding w p catalog none = some raised
hash_finding w p catalog (some roles) =
    let body =
      initial_plan_body (render w (get_default "profile_id" (str "") p))
        (render w (get_default "strategy_id" (str "") p)) roles (mapping_items catalog) in
    if is_text (plan_hash w body) (get "plan_hash" p) then none else some run_plan_hash_invalid

plan_finding : World → Fields → Items → Option Finding
plan_finding w p catalog =
    let contract = get "plan_contract" p in
    let digest = get "plan_hash" p in
    if is_null contract
    then (if is_null digest then none else some run_plan_contract_invalid)
    else if is_null digest || (not (is_text plan_contract contract) || not (sha256 digest))
    then some run_plan_contract_invalid
    else hash_finding w p catalog (planned_roles w (get_default "planned_roles" (arr no_items) p))

catalog_finding : World → Fields → Value → Option Finding
catalog_finding w p (arr catalog) =
    if not (eqb (count_items catalog) 6)
    then some lane_catalog_invalid
    else if not (same_texts (lane_roles catalog) lane_order)
    then some lane_catalog_order_invalid
    else if any_item (bad_lane (is_text "dry_run" (get "mode" p))) catalog
    then some lane_catalog_required_invalid
    else plan_finding w p catalog
catalog_finding w p _ = some lane_catalog_invalid

unfoldable pub validate_run_planned : World → Fields → Option Finding
unfolding catalog_finding plan_finding hash_finding plan_hash initial_plan_body planned_roles
    render_items characters key_items mapping_items get_default bad_lane any_item lane_roles
    same_texts run_planned_keys
validate_run_planned w p =
    if extra_keys run_planned_keys p
    then some lane_catalog_invalid
    else catalog_finding w p (get "lane_catalog" p)

run_replanned_keys : List String
run_replanned_keys =
    "command_id" ∷ "plan_contract" ∷ "plan_revision" ∷ "previous_replan_sequence"
    ∷ "accepted_sequence" ∷ "reason" ∷ "old_plan_hash" ∷ "new_plan_hash"
    ∷ "affected_future_attempts" ∷ "provider_dispatch" ∷ []

abbrev pub effective_keys : List String
effective_keys = "role" ∷ "attempt_id" ∷ "attempt_ordinal" ∷ "attempt_created_sequence" ∷ []

revision_finding : World → Fields → Fields → Option Finding
revision_finding w p candidate =
    let body =
      revision_body (number (get "plan_revision" p)) (text (get "old_plan_hash" p))
        (text (get "command_id" p)) (number (get "accepted_sequence" p))
        (item (obj candidate) no_items) in
    first_finding (
      (not (exact_keys effective_keys candidate), run_replanned_invalid)
      ∷ (not (is_one_of lane_order (get "role" candidate)), run_replanned_invalid)
      ∷ (not (is_str (get "attempt_id" candidate)), run_replanned_invalid)
      ∷ (not (positive_int (get "attempt_ordinal" candidate)), run_replanned_invalid)
      ∷ (not (positive_int (get "attempt_created_sequence" candidate)), run_replanned_invalid)
      ∷ (not (is_text (plan_hash w body) (get "new_plan_hash" p)), run_replanned_hash_invalid)
      ∷ [])

-- The one future attempt that a revision names.
candidate_finding : World → Fields → Value → Option Finding
candidate_finding w p (arr (item (obj candidate) no_items)) = revision_finding w p candidate
candidate_finding w p _ = some run_replanned_invalid

replan_fields : Fields → Option Finding
replan_fields p = first_finding (
    (extra_keys run_replanned_keys p, run_replanned_invalid)
    ∷ (not (opaque_id (get "command_id" p)), run_replanned_invalid)
    ∷ (not (is_text plan_contract (get "plan_contract" p)), run_replanned_invalid)
    ∷ (not (positive_int (get "plan_revision" p)), run_replanned_invalid)
    ∷ (
      not (is_null (get "previous_replan_sequence" p))
          && not (positive_int (get "previous_replan_sequence" p)),
      run_replanned_invalid,
    )
    ∷ (not (positive_int (get "accepted_sequence" p)), run_replanned_invalid)
    ∷ (not (is_text "operator_context" (get "reason" p)), run_replanned_invalid)
    ∷ (not (sha256 (get "old_plan_hash" p)), run_replanned_invalid)
    ∷ (not (sha256 (get "new_plan_hash" p)), run_replanned_invalid)
    ∷ (text (get "old_plan_hash" p) == text (get "new_plan_hash" p), run_replanned_invalid)
    ∷ (not (is_false (get "provider_dispatch" p)), run_replanned_invalid)
    ∷ [])

-- The tests on the list of attempts and on the dispatch flag return the same finding, so their
-- order does not show.
pub validate_run_replanned : World → Fields → Option Finding
unfolding candidate_finding revision_finding replan_fields revision_body plan_hash
    run_replanned_keys
validate_run_replanned w p = elim (replan_fields p) [
  | some f ↦ some f
  | none ↦ candidate_finding w p (get "affected_future_attempts" p)
]
