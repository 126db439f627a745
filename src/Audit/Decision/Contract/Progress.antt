-- ===== src/Audit/Decision/Contract/Progress.antt =====
-- How the files of an application are staged and written.
use Prim.Native.String.{◌++◌ as concat}
use torq_cli_python.Prelude.{
  ℕ, String, Bool, true, false, ◌||◌, not, Option, none, some, List, [], ◌∷◌, any, length, ltb,
  if◌then◌else◌,
}
use torq_cli_python.Json.{Value, null, int, str, Fields, get, is_str}
use torq_cli_python.Audit.Task.Contract.{Row, is_event}
use torq_cli_python.Audit.Decision.Contract.{
  detail, detail_is_not, index, in_order, distinct_paths, row_at, receipt_at,
}

-- `started_sequence`
abbrev pub first_sequence : List Row → Option ℕ
first_sequence [] = none
first_sequence (r ∷ rs) = some r.sequence

-- `any(body["detail"].get(key) != value for row in rows)`
abbrev pub any_is_not : String → Value → List Row → Bool
any_is_not k v rows = any (λ r. detail_is_not k r v) rows

-- The tests on the staged rows, with the count of operations and the sequence of the start.
unfoldable pub staged_bad : ℕ → Option ℕ → List Row → Bool
staged_bad operations start rows =
    not (in_order 0 rows)
    || (ltb operations (length rows)
        || (elim start [
          | none ↦ ltb 0 (length rows)
          | some n ↦ any_is_not "started_sequence" (int n) rows
        ]
            || not (distinct_paths rows)))

-- The tests on the written rows, where there are any.
unfoldable pub written_bad : ℕ → Option ℕ → List Row → Bool
written_bad operations start [] = false
written_bad operations none rows = true
written_bad operations (some n) rows =
    not (in_order 0 rows)
    || (any_is_not "started_sequence" (int n) rows
        || (not (distinct_paths rows) || ltb operations (length rows)))

module _ (hexdigest : Fields → String) (receipts : List Fields) where
  -- `_receipt_hash`
  receipt_hash : Fields → Value
  receipt_hash r =
      if is_str (get "receipt_hash" r)
      then get "receipt_hash" r
      else str (concat "sha256:" (hexdigest r))

  -- `next((_receipt_hash(row) for row in receipts if row.get("sequence") == sequence), None)`
  unfoldable pub hash_at : ℕ → Value
  unfolding receipt_hash
  hash_at n = elim (receipt_at n receipts) [ none ↦ null | some r ↦ receipt_hash r ]

  -- `started_rows[0]` does not start the prepared application, which is the second row.
  unfoldable pub started_unlinked : Row → List Row → List Row → Bool
  started_unlinked prepared rest [] = false
  started_unlinked prepared [] (s ∷ ss) = true
  started_unlinked prepared (third ∷ rest) (s ∷ ss) =
      not (is_event "apply_started" third)
      || (detail_is_not "prepared_sequence" s (int prepared.sequence)
          || detail_is_not "prepared_receipt_hash" s (hash_at prepared.sequence))

  -- A written row against the staged row of its index.
  unfoldable pub written_unlinked : Row → Option Row → Bool
  written_unlinked r none = true
  written_unlinked r (some s) =
      detail_is_not "staged_sequence" r (int s.sequence)
      || (detail_is_not "staged_receipt_hash" r (hash_at s.sequence)
          || detail_is_not "result_hash" r (get "result_hash" (detail s)))

  unfoldable pub any_written_unlinked : List Row → List Row → Bool
  unfolding written_unlinked
  any_written_unlinked staged rows = any (λ r. written_unlinked r (row_at (index r) staged)) rows
