-- ===== src/Audit/Decision/Contract.antt =====
-- `validate_decision_receipt_contract`: the rows of reviews and applications, and how they follow
-- one another. Where the source compares with a computed digest, `hexdigest` stands for
-- `hashlib.sha256(json.dumps(row)).hexdigest()`.
pub mod Progress
pub mod Rollback
pub mod Lifecycle
pub mod Steps
pub mod Applied
pub mod RolledBack
pub mod Final
mod Tests
use torq_cli_python.Prelude.{
  ℕ, suc, ◌+◌, ◌==◌, String, Bool, true, false, ◌&&◌, ◌||◌, not, Option, none, some, List, [], ◌∷◌,
  any, all, length, ltb, eqb, elem, if◌then◌else◌,
}
use torq_cli_python.Json.{
  Value, null, int, str, obj, Fields, get, value_eq, is_text, number, text, fields,
}
use torq_cli_python.Evidence.Finding.{
  Finding, candidate_review_receipt_invalid, candidate_review_lifecycle_invalid,
  candidate_review_run_id_mismatch, candidate_apply_receipt_invalid,
}
use torq_cli_python.Evidence.Payload.Shape.{positive_int, is_one_of, is_obj}
use torq_cli_python.Audit.Task.Contract.{Row, is_event, row_of}
use torq_cli_python.Audit.Decision.Review.{is_review, validate_review_payload}
use torq_cli_python.Audit.Decision.Apply.{is_apply, validate_apply_payload}

-- The lists `review` and `apply`.
pub data Found : Type 0 where
  rejected : Finding → Found
  found : (reviews : List Row) → (applies : List Row) → Found

abbrev pub unless_rejected : Option Finding → Found → Found
unless_rejected (some f) rest = rejected f
unless_rejected none rest = rest

abbrev pub with_review : Bool → Row → Found → Found
with_review b r (rejected f) = rejected f
with_review b r (found rs qs) = found (if b then r ∷ rs else rs) qs

abbrev pub with_apply : Bool → Row → Found → Found
with_apply b r (rejected f) = rejected f
with_apply b r (found rs qs) = found rs (if b then r ∷ qs else qs)

-- `row.get("transition") != "audit" or not _positive(sequence)`
abbrev misplaced : Fields → Bool
misplaced r = not (is_text "audit" (get "transition" r)) || not (positive_int (get "sequence" r))

pub review_row : Fields → Fields → Option Finding
review_row r p =
    if not (is_review p)
    then none
    else if misplaced r
    then some candidate_review_receipt_invalid
    else validate_review_payload p

pub apply_row : Fields → Fields → Option Finding
apply_row r p =
    if not (is_apply p)
    then none
    else if misplaced r
    then some candidate_apply_receipt_invalid
    else validate_apply_payload p

-- The loop over the receipts.
unfoldable pub find : List Fields → Found
unfolding review_row apply_row
find [] = found [] []
find (r ∷ rs) =
    let rest = find rs in
    let p = fields (get "payload" r) in
    if is_obj (get "payload" r)
    then unless_rejected (review_row r p) (
        unless_rejected (apply_row r p)
          (with_review (is_review p) (row_of r) (with_apply (is_apply p) (row_of r) rest)))
    else rest

-- `next((row for row in receipts if row.get("sequence") == sequence), None)`
pub receipt_at : ℕ → List Fields → Option Fields
receipt_at n [] = none
receipt_at n (r ∷ rs) =
    let rest = receipt_at n rs in if value_eq (get "sequence" r) (int n) then some r else rest

-- `row_run_id`
pub row_run_id : List Fields → ℕ → Value
unfolding receipt_at
row_run_id rs n = elim (receipt_at n rs) [ none ↦ null | some r ↦ get "run_id" r ]

-- `body["detail"]`
abbrev pub detail : Row → Fields
detail r = fields (get "detail" r.body)

-- `body["detail"].get(key) != value`
abbrev pub detail_is_not : String → Row → Value → Bool
detail_is_not k r v = not (value_eq (get k (detail r)) v)

-- `body["detail"]["operation_index"]`
abbrev pub index : Row → ℕ
index r = number (get "operation_index" (detail r))

abbrev pub path : Row → String
path r = text (get "path" (detail r))

-- `[row for row in apply if body["event"] == event]`
unfoldable pub rows_of : String → List Row → List Row
rows_of e [] = []
rows_of e (r ∷ rs) = let rest = rows_of e rs in if is_event e r then r ∷ rest else rest

-- `[index of row for row in rows] == list(range(n, n + len(rows)))`
unfoldable pub in_order : ℕ → List Row → Bool
in_order n [] = true
in_order n (r ∷ rs) = let rest = in_order (n + 1) rs in eqb (index r) n && rest

has_path : String → List Row → Bool
has_path p [] = false
has_path p (r ∷ rs) = path r == p || has_path p rs

-- `len(set(paths)) == len(paths)`
unfoldable pub distinct_paths : List Row → Bool
unfolding has_path
distinct_paths [] = true
distinct_paths (r ∷ rs) = not (has_path (path r) rs) && distinct_paths rs

-- `rows_by_index.get(index)`, for rows of distinct indices
unfoldable pub row_at : ℕ → List Row → Option Row
row_at n [] = none
row_at n (r ∷ rs) = let rest = row_at n rs in if eqb (index r) n then some r else rest
