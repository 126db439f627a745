-- ===== src/Audit/Decision/Contract/Rollback.antt =====
-- How the files of an application are restored, and what a recovery names.
use torq_cli_python.Prelude.{
  ℕ, String, Bool, true, false, ◌&&◌, ◌||◌, not, Option, none, some, List, [], ◌∷◌, map, any, leb,
  eqb, ◌++◌, if◌then◌else◌,
}
use torq_cli_python.Json.{int, Fields, get}
use torq_cli_python.Evidence.Payload.Shape.{is_one_of}
use torq_cli_python.Audit.Task.Contract.{Row, is_event}
use torq_cli_python.Audit.Decision.Contract.{detail, detail_is_not, index, row_at}
use torq_cli_python.Audit.Decision.Contract.Progress.{any_is_not, hash_at}

abbrev has_number : ℕ → List ℕ → Bool
has_number n ns = any (λ m. eqb n m) ns

-- `len(indices) == len(set(indices))`
unfoldable pub distinct_numbers : List ℕ → Bool
distinct_numbers [] = true
distinct_numbers (n ∷ ns) = not (has_number n ns) && distinct_numbers ns

-- `indices == sorted(indices, reverse=True)`
pub descending : List ℕ → Bool
descending [] = true
descending (n ∷ []) = true
descending (n ∷ m ∷ ns) = leb m n && descending (m ∷ ns)

-- `numbers == others[: len(numbers)]`
unfoldable pub is_prefix : List ℕ → List ℕ → Bool
is_prefix [] ms = true
is_prefix (n ∷ ns) [] = false
is_prefix (n ∷ ns) (m ∷ ms) = eqb n m && is_prefix ns ms

abbrev pub indices : List Row → List ℕ
indices rows = map index rows

abbrev may_follow_rollback : Row → Bool
may_follow_rollback r =
    is_one_of
      ("apply_rollback_file_staged" ∷ "apply_rollback_file_restored" ∷ "apply_recovery_required"
        ∷ "apply_rolled_back" ∷ [])
      (get "event" r.body)

-- The rollback's start names the row before it, and only rows of the rollback follow; the first
-- argument is the row before the list.
unfoldable pub rollback_unlinked : Row → List Row → Bool
rollback_unlinked before [] = false
rollback_unlinked before (r ∷ rs) =
    let rest = rollback_unlinked r rs in
    if is_event "apply_rollback_started" r
    then detail_is_not "caused_by_sequence" r (int before.sequence)
      || any (λ q. not (may_follow_rollback q)) rs
    else rest

module _ (hexdigest : Fields → String) (receipts : List Fields) where
  -- A restored row against the staged row of its index.
  unfoldable pub restored_unlinked : Row → Option Row → Bool
  restored_unlinked r none = true
  restored_unlinked r (some s) =
      detail_is_not "staged_sequence" r (int s.sequence)
      || (detail_is_not "staged_receipt_hash" r (hash_at hexdigest receipts s.sequence)
          || (detail_is_not "path" r (get "path" (detail s))
              || detail_is_not "base_hash" r (get "base_hash" (detail s))))

  -- The tests on the rows of a rollback that started at a sequence.
  unfoldable pub rollback_bad : ℕ → List Row → List Row → Bool
  unfolding distinct_numbers descending is_prefix restored_unlinked
  rollback_bad start staged restored =
      not (distinct_numbers (indices staged))
      || (any_is_not "rollback_started_sequence" (int start) (staged ++ restored)
          || (not (descending (indices staged))
              || (any (λ r. restored_unlinked r (row_at (index r) staged)) restored
                  || (not (distinct_numbers (indices restored))
                      || not (is_prefix (indices restored) (indices staged))))))

-- `apply_recovery_required` names the row before it; the first argument is the row before the list.
unfoldable pub recovery_unlinked : Row → List Row → Bool
recovery_unlinked before [] = false
recovery_unlinked before (r ∷ rs) =
    (is_event "apply_recovery_required" r
      && detail_is_not "caused_by_sequence" r (int before.sequence))
    || recovery_unlinked r rs
