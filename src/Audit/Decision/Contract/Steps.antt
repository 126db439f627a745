-- ===== src/Audit/Decision/Contract/Steps.antt =====
-- The tests that an accepted application has passed.
use torq_cli_python.Prelude.{
  ℕ, suc, String, ◌≡◌, inl, inr, Bool, false, Option, none, some, List, [], ◌∷◌, arith, length, eqb,
  if◌then◌else◌, Bool-cases, ||-eq_false,
}
use torq_cli_python.Json.{Fields, get, number}
use torq_cli_python.Evidence.Finding.{Finding}
use torq_cli_python.Audit.Shape.{and_then-eq_none, past}
use torq_cli_python.Audit.Task.Contract.{Row, is_event}
use torq_cli_python.Audit.Decision.Contract.{found, find, detail, rows_of}
use torq_cli_python.Audit.Decision.Contract.Progress.{
  first_sequence, staged_bad, written_bad, any_written_unlinked,
}
use torq_cli_python.Audit.Decision.Contract.Rollback.{rollback_bad}
use torq_cli_python.Audit.Decision.Contract.Lifecycle.{
  last_row, in_rollback, last_finding, prepared_finding, steps_finding, apply_finding,
  review_finding, validate_decision_receipt_contract,
}

no_refusal : (n : ℕ) (f : Finding) → ¬ ((if eqb (suc n) 0 then none else some f) ≡ none)
no_refusal n f h = ground arith

past_else : (b : Bool) (o p : Option Finding) → (if b then o else p) ≡ none → b ≡ false → p ≡ none
past_else b o p h e = rw e at h

not_rejected :
    (hexdigest : Fields → String) (receipts : List Fields) (begin prepared : Row) (rest : List Row)
    (sealed : Bool)
    → steps_finding hexdigest receipts sealed begin (prepared ∷ rest) ≡ none
    → is_event "apply_rejected" (last_row prepared rest) ≡ false
    → is_event "apply_rejected" prepared ≡ false
unfolding steps_finding last_row
not_rejected hexdigest receipts begin prepared [] sealed h n = n
not_rejected hexdigest receipts begin prepared (q ∷ rest) sealed h n =
    elim (Bool-cases (is_event "apply_rejected" prepared)) [
      | inl rejected ↦ absurd (no_refusal (length rest) _ (rw rejected at h))
      | inr other ↦ other
    ]

module _ (hexdigest : Fields → String) (receipts : List Fields) (begin prepared : Row)
    (rest : List Row) where
  abbrev rows : String → List Row
  rows e = rows_of e (begin ∷ prepared ∷ rest)

  abbrev operations : ℕ
  operations = number (get "operation_count" (detail prepared))

  abbrev start : Option ℕ
  start = first_sequence (rows "apply_started")

  -- What the tests on a prepared application found in order.
  pub record Passed : Type 0 where
    pub staging : staged_bad operations start (rows "apply_file_staged") ≡ false
    pub writing : written_bad operations start (rows "apply_file_written") ≡ false
    pub links :
        any_written_unlinked hexdigest receipts
          (rows "apply_file_staged")
          (rows "apply_file_written")
        ≡ false
    pub rollback :
        in_rollback (rows "apply_rollback_started") (λ n.
          rollback_bad hexdigest receipts n
            (rows "apply_rollback_file_staged")
            (rows "apply_rollback_file_restored"))
        ≡ false
    pub ending :
        last_finding begin prepared (begin ∷ prepared ∷ rest) (last_row prepared rest) ≡ none

  pub prepared_finding-Passed :
      prepared_finding hexdigest receipts begin prepared rest ≡ none → Passed
  unfolding prepared_finding
  prepared_finding-Passed h =
      let started = past _ _ _ h in
      let progress = past _ _ _ started.1 in
      let linked = past _ _ _ progress.1 in
      let ordered = past _ _ _ linked.1 in
      let undone = past _ _ _ ordered.1 in
      let recovered = past _ _ _ undone.1 in
      record {
        staging = (||-eq_false _ _ progress.0).0;
        writing = (||-eq_false _ _ progress.0).1;
        links = linked.0;
        rollback = undone.0;
        ending = recovered.1;
      }

  -- An accepted application that goes past its preparation is prepared, unless it was rejected.
  pub steps_finding-Passed :
      (sealed : Bool)
      → steps_finding hexdigest receipts sealed begin (prepared ∷ rest) ≡ none
      → is_event "apply_rejected" (last_row prepared rest) ≡ false
      → Passed
  unfolding steps_finding last_row
  steps_finding-Passed sealed h n =
      let second = not_rejected hexdigest receipts begin prepared rest sealed h n in
      let is_prepared = past _ _ _ (rw second at h) in
      prepared_finding-Passed (past_else _ _ _ is_prepared.1 n)

apply_finding-steps :
    (hexdigest : Fields → String) (receipts : List Fields) (sealed : Bool) (begin : Row)
    (rest : List Row)
    → apply_finding hexdigest receipts sealed (begin ∷ rest) ≡ none
    → steps_finding hexdigest receipts sealed begin rest ≡ none
unfolding apply_finding
apply_finding-steps hexdigest receipts sealed begin rest h = ground arith

-- An accepted application has passed the tests of the lifecycle.
pub accepted-Passed :
    (hexdigest : Fields → String) (receipts : List Fields) (sealed : Bool) (reviews : List Row)
    (begin prepared : Row) (rest : List Row)
    → find receipts ≡ found reviews (begin ∷ prepared ∷ rest)
    → validate_decision_receipt_contract hexdigest receipts sealed ≡ none
    → is_event "apply_rejected" (last_row prepared rest) ≡ false
    → Passed hexdigest receipts begin prepared rest
unfolding validate_decision_receipt_contract apply_finding
accepted-Passed hexdigest receipts sealed reviews begin prepared rest e h n =
    let accepted =
      and_then-eq_none (review_finding hexdigest receipts reviews)
        (apply_finding hexdigest receipts sealed (begin ∷ prepared ∷ rest)) (rw e at h) in
    steps_finding-Passed hexdigest receipts begin prepared rest sealed
      (apply_finding-steps hexdigest receipts sealed begin (prepared ∷ rest) accepted.1) n
