-- ===== src/Audit/Task/Contract/Sealed.antt =====
-- A sealed task has ended.
use torq_cli_python.Prelude.{
  ◌≡◌, inl, inr, true, false, ◌&&◌, none, List, [], ◌∷◌, arith, eqb, length, suc, Bool-cases,
}
use torq_cli_python.Json.{Value, str, Fields, get, is_text}
use torq_cli_python.Evidence.Payload.Shape.{is_one_of}
use torq_cli_python.Audit.Task.Contract.{
  Row, collected, collect, is_terminal, is_event, is_failure, last, end_finding, rows_finding,
  validate_task_receipt_contract,
}
use torq_cli_python.Audit.Task.Contract.Ready.{past_two, not_single, started_finding-Passed}

ready-terminal :
    (v : Value)
    → is_text "candidate_ready" v ≡ true
    → is_one_of ("candidate_ready" ∷ "task_failed" ∷ "task_interrupted" ∷ "task_cancelled" ∷ []) v
      ≡ true
ready-terminal (str s) h = ground arith
ready-terminal _ h = cc

failure-terminal :
    (v : Value)
    → is_one_of ("task_failed" ∷ "task_interrupted" ∷ "task_cancelled" ∷ []) v ≡ true
    → is_one_of ("candidate_ready" ∷ "task_failed" ∷ "task_interrupted" ∷ "task_cancelled" ∷ []) v
      ≡ true
failure-terminal (str s) h = ground arith
failure-terminal _ h = cc

end_finding-terminal :
    (start : Row) (rest : List Row) (t : Row)
    → end_finding true start rest t ≡ none
    → is_terminal t.body ≡ true
unfolding end_finding
end_finding-terminal start rest t h = elim (Bool-cases (is_event "candidate_ready" t)) [
  | inl ready ↦ ready-terminal (get "event" t.body) ready
  | inr unready ↦ elim (Bool-cases (is_failure t)) [
    | inl failure ↦ failure-terminal (get "event" t.body) failure
    | inr going ↦ let refused = rw (unready, going) at h in cc
  ]
]

rows_finding-terminal :
    (start : Row) (rest : List Row)
    → rows_finding true (start ∷ rest) ≡ none
    → is_terminal (last start rest).body ≡ true
unfolding rows_finding last
rows_finding-terminal start [] h = elim (Bool-cases (is_failure start)) [
  | inl failure ↦ failure-terminal (get "event" start.body) failure
  | inr other ↦
      end_finding-terminal start [] start
        (started_finding-Passed true start [] (past_two _ _ _ _ _ h other)).ending
]
rows_finding-terminal start (q ∷ rest) h =
    end_finding-terminal start (q ∷ rest) (last start (q ∷ rest))
      (started_finding-Passed true start (q ∷ rest) (
        past_two _ (eqb (suc (suc (length rest))) 1 && is_failure start) _ _ _ h
          (not_single (length rest) (is_failure start)))).ending

-- Where the task contract accepts a sealed list of receipts with at least one row of a task, the
-- last row of the task is terminal: a ready candidate, a failure, an interruption or a
-- cancellation.
pub sealed-is_terminal :
    (rs : List Fields) (start : Row) (rest : List Row)
    → collect false rs ≡ collected (start ∷ rest)
    → validate_task_receipt_contract true rs ≡ none
    → is_terminal (last start rest).body ≡ true
unfolding validate_task_receipt_contract
sealed-is_terminal rs start rest found h = rows_finding-terminal start rest (rw found at h)
