-- ===== src/Audit/Task/Contract/Order.antt =====
-- Where a task's terminal receipt stands, and what a ready candidate rests on.
use torq_cli_python.Prelude.{
  arith, ◌≡◌, refl, inl, inr, Bool, true, false, Option, none, some, List, [], ◌∷◌, ◌++◌,
  Bool-cases,
}
use torq_cli_python.Json.{is_text, Fields, get, fields}
use torq_cli_python.Evidence.Finding.{Finding}
use torq_cli_python.Audit.Task.Contract.{
  of_collected, Row, Collected, refused, collected, collect, of_task, row_of, receipt_finding,
  is_terminal, unless_refused, and_row, validate_task_receipt_contract,
}

-- After a terminal receipt nothing is collected but the empty list.
collect-ended : (rs : List Fields) (rows : List Row) → collect true rs ≡ collected rows → rs ≡ []
unfolding collect
collect-ended [] rows h = refl
collect-ended (r ∷ rs) rows h = cc

and_row-eq :
    (r : Row) (c : Collected) (rows : List Row)
    → and_row r c ≡ collected rows
    → (rest : List Row) × (c ≡ collected rest) × (rows ≡ r ∷ rest)
and_row-eq r (refused f) rows h = cc
and_row-eq r (collected rs) rows h = (rs, refl, cc)

unless_refused-eq :
    (o : Option Finding) (c : Collected) (rows : List Row)
    → unless_refused o c ≡ collected rows
    → (o ≡ none) × (c ≡ collected rows)
unless_refused-eq none c rows h = (refl, h)
unless_refused-eq (some f) c rows h = cc

-- A collected list of receipts is taken apart at its first receipt.
pub collect-task :
    (r : Fields) (rs : List Fields) (rows : List Row)
    → of_task r ≡ true
    → collect false (r ∷ rs) ≡ collected rows
    → (receipt_finding r (fields (get "payload" r)) ≡ none)
      × ((rest : List Row) × (collect (is_terminal (fields (get "payload" r))) rs ≡ collected rest)
          × (rows ≡ row_of r ∷ rest))
unfolding collect
collect-task r rs rows t h =
    let found = unless_refused-eq _ _ _ (rw t at h) in (found.0, and_row-eq _ _ _ found.1)

pub collect-other :
    (r : Fields) (rs : List Fields) (rows : List Row)
    → of_task r ≡ false
    → collect false (r ∷ rs) ≡ collected rows
    → collect false rs ≡ collected rows
unfolding collect
collect-other r rs rows t h = rw t at h

collected-ne :
    (r : Fields) (rs : List Fields) {rows : List Row} → ¬ (collect true (r ∷ rs) ≡ collected rows)
unfolding collect
collected-ne r rs h = cc

terminal_is_last :
    (before : List Fields) (r : Fields) (after : List Fields) (ended : Bool) (rows : List Row)
    → collect ended (before ++ r ∷ after) ≡ collected rows
    → of_task r ≡ true
    → is_terminal (fields (get "payload" r)) ≡ true
    → after ≡ []
terminal_is_last [] r after true rows h t e = absurd (collected-ne _ _ h)
terminal_is_last [] r after false rows h t e =
    let (ok, (rest, later, shape)) = collect-task r after rows t h in
    collect-ended after rest (rw e at later)
terminal_is_last (q ∷ before) r after true rows h t e = absurd (collected-ne _ _ h)
terminal_is_last (q ∷ before) r after false rows h t e = elim (Bool-cases (of_task q)) [
  | inl mine ↦
      let (ok, (rest, later, shape)) = collect-task q (before ++ r ∷ after) rows mine h in
      terminal_is_last before r after _ rest later t e
  | inr other ↦ terminal_is_last before r after false rows (collect-other q _ rows other h) t e
]

pub of_collected-eq :
    (sealed : Bool) (c : Collected)
    → of_collected sealed c ≡ none
    → (rows : List Row) × (c ≡ collected rows)
of_collected-eq sealed (refused f) h = cc
of_collected-eq sealed (collected rows) h = (rows, refl)

-- Each receipt of the task in a collected list has passed the checks on it.
pub collected-passed :
    (before : List Fields) (r : Fields) (after : List Fields) (ended : Bool) (rows : List Row)
    → collect ended (before ++ r ∷ after) ≡ collected rows
    → of_task r ≡ true
    → receipt_finding r (fields (get "payload" r)) ≡ none
collected-passed [] r after true rows h t = absurd (collected-ne _ _ h)
collected-passed [] r after false rows h t = (collect-task r after rows t h).0
collected-passed (q ∷ before) r after true rows h t = absurd (collected-ne _ _ h)
collected-passed (q ∷ before) r after false rows h t = elim (Bool-cases (of_task q)) [
  | inl mine ↦
      let (passed, (rest, later, shape)) = collect-task q (before ++ r ∷ after) rows mine h in
      collected-passed before r after _ rest later t
  | inr others ↦ collected-passed before r after false rows (collect-other q _ rows others h) t
]

-- Each receipt of an accepted task is an audit.
pub accepted-is_audit :
    (sealed : Bool) (before : List Fields) (r : Fields) (after : List Fields)
    → validate_task_receipt_contract sealed (before ++ r ∷ after) ≡ none
    → of_task r ≡ true
    → is_text "audit" (get "transition" r) ≡ true
unfolding validate_task_receipt_contract receipt_finding
accepted-is_audit sealed before r after h t =
    let (rows, found) = of_collected-eq sealed (collect false (before ++ r ∷ after)) h in
    let passed = collected-passed before r after false rows found t in ground arith

-- In a list that the task contract accepts, a receipt of the task whose event is terminal is the
-- last receipt of the list: no receipt, of the task or not, stands after it.
pub accepted-terminal_is_last :
    (sealed : Bool) (before : List Fields) (r : Fields) (after : List Fields)
    → validate_task_receipt_contract sealed (before ++ r ∷ after) ≡ none
    → of_task r ≡ true
    → is_terminal (fields (get "payload" r)) ≡ true
    → after ≡ []
unfolding validate_task_receipt_contract
accepted-terminal_is_last sealed before r after h t e =
    let (rows, found) = of_collected-eq sealed (collect false (before ++ r ∷ after)) h in
    terminal_is_last before r after false rows found t e
