-- ===== src/Audit/Task/Contract/Collecting.antt =====
-- What the first loop of the task contract leaves of the receipts it collects.
use mathlib.Core.List.Memᴰ.{Memᴰ, head, tail}
use torq_cli_python.Prelude.{
  ℕ, zero, suc, ◌≡◌, refl, sym, subst, inl, inr, true, false, none, List, [], ◌∷◌, ◌++◌, arith,
  &&-eq_true, Bool-cases,
}
use torq_cli_python.Json.{number, Value, int, Fields, get, fields}
use torq_cli_python.Evidence.Payload.Shape.{positive_int}
use torq_cli_python.Audit.Task.Payload.{is_task, validate_task_audit_payload}
use torq_cli_python.Audit.Task.Contract.{
  Row, collected, collect, of_task, row_of, receipt_finding, is_terminal, last, count_terminal,
}
use torq_cli_python.Audit.Task.Contract.Order.{collect-task, collect-other}
use torq_cli_python.Audit.Task.Contract.Snoc.{nonterminal-parts}

pub last-mem : (r : Row) (xs : List Row) → Memᴰ (last r xs) (r ∷ xs)
unfolding last
last-mem r [] = head refl
last-mem r (x ∷ xs) = tail (last-mem x xs)

-- What the checks on a receipt leave of its row.
pub record IsChecked (q : Row) : Type 0 where
  pub task : is_task q.body ≡ true
  pub payload : validate_task_audit_payload q.body ≡ none
  pub positive : (n : ℕ) × (q.sequence ≡ suc n)

positive_int-suc : (v : Value) → positive_int v ≡ true → (n : ℕ) × (number v ≡ suc n)
unfolding positive_int
positive_int-suc (int zero) h = cc
positive_int-suc (int (suc n)) h = (n, refl)
positive_int-suc _ h = cc

receipt-IsChecked :
    (r : Fields)
    → of_task r ≡ true
    → receipt_finding r (fields (get "payload" r)) ≡ none
    → IsChecked (row_of r)
unfolding receipt_finding
receipt-IsChecked r t h = record {
  task = (&&-eq_true _ (is_task (fields (get "payload" r))) t).1;
  payload = ground arith;
  positive = positive_int-suc (get "sequence" r) (ground arith);
}

collect-ended_rows :
    (rs : List Fields) (rows : List Row) → collect true rs ≡ collected rows → rows ≡ []
unfolding collect
collect-ended_rows [] rows h = cc
collect-ended_rows (r ∷ rs) rows h = cc

-- A collected list is empty, or it drops its first receipt, or collects it.
data Step (r : Fields) (rs : List Fields) (rows : List Row) : Type 0 where
  skips : collect false rs ≡ collected rows → Step r rs rows
  ends :
      IsChecked (row_of r)
      → is_terminal (fields (get "payload" r)) ≡ true
      → rows ≡ row_of r ∷ []
      → Step r rs rows
  goes_on :
      IsChecked (row_of r)
      → is_terminal (fields (get "payload" r)) ≡ false
      → (rest : List Row) → collect false rs ≡ collected rest
      → rows ≡ row_of r ∷ rest
      → Step r rs rows

collect-Step :
    (r : Fields) (rs : List Fields) (rows : List Row)
    → collect false (r ∷ rs) ≡ collected rows
    → Step r rs rows
collect-Step r rs rows h = elim (Bool-cases (of_task r)) [
  | inr other ↦ skips (collect-other r rs rows other h)
  | inl mine ↦
      let (passed, (rest, later, shape)) = collect-task r rs rows mine h in
      let checked = receipt-IsChecked r mine passed in
      elim (Bool-cases (is_terminal (fields (get "payload" r)))) [
        | inl end ↦
            let none_left = collect-ended_rows rs rest (rw end at later) in
            ends checked end (rw none_left at shape)
        | inr open_still ↦ goes_on checked open_still rest (rw open_still at later) shape
      ]
]

collect-nil : (rows : List Row) → collect false [] ≡ collected rows → rows ≡ []
unfolding collect
collect-nil rows h = cc

pub collect-IsChecked :
    (rs : List Fields) (rows : List Row) (q : Row)
    → collect false rs ≡ collected rows
    → Memᴰ q rows
    → IsChecked q
collect-IsChecked [] rows q h m = elim (subst (Memᴰ q) (collect-nil rows h) m) [ ]
collect-IsChecked (r ∷ rs) rows q h m = elim (collect-Step r rs rows h) [
  | skips later ↦ collect-IsChecked rs rows q later m
  | ends checked end shape ↦ elim (subst (Memᴰ q) shape m) [
    | head e ↦ subst IsChecked (sym e) checked
    | tail n ↦ elim n [ ]
  ]
  | goes_on checked more rest later shape ↦ elim (subst (Memᴰ q) shape m) [
    | head e ↦ subst IsChecked (sym e) checked
    | tail n ↦ collect-IsChecked rs rest q later n
  ]
]

-- The rows of a collected list are not terminal, where the last is not.
pub collect-nonterminal :
    (rs : List Fields) (start : Row) (rest : List Row)
    → collect false rs ≡ collected (start ∷ rest)
    → is_terminal (last start rest).body ≡ false
    → count_terminal (start ∷ rest) ≡ 0
unfolding last count_terminal
collect-nonterminal [] start rest h e = let nothing = collect-nil (start ∷ rest) h in cc
collect-nonterminal (r ∷ rs) start [] h e = rw e
collect-nonterminal (r ∷ rs) start (x ∷ xs) h e = elim (collect-Step r rs (start ∷ x ∷ xs) h) [
  | skips later ↦ collect-nonterminal rs start (x ∷ xs) later e
  | ends checked end shape ↦ cc
  | goes_on checked more rest later shape ↦
      let same_start : start ≡ row_of r = cc in
      let same_rest : x ∷ xs ≡ rest = cc in
      rw (same_start, more) (collect-nonterminal rs x xs (rw (← same_rest) at later) e)
]

-- One more receipt of the task at the end of an unended list is one more row.
pub collect-snoc :
    (r : Fields) (rs : List Fields) (rows : List Row)
    → of_task r ≡ true
    → receipt_finding r (fields (get "payload" r)) ≡ none
    → collect false rs ≡ collected rows
    → count_terminal rows ≡ 0
    → collect false (rs ++ r ∷ []) ≡ collected (rows ++ row_of r ∷ [])
unfolding collect count_terminal
collect-snoc r [] rows t ok h c = let e : rows ≡ [] = cc in rw (t, ok, e)
collect-snoc r (q ∷ rs) rows t ok h c = elim (Bool-cases (of_task q)) [
  | inl mine ↦
      let (passed, (rest, later, shape)) = collect-task q rs rows mine h in
      let parts = nonterminal-parts (row_of q) rest (rw shape at c) in
      let rec = collect-snoc r rs rest t ok (rw parts.0 at later) parts.1 in
      rw (mine, passed, parts.0, rec, shape)
  | inr other ↦ rw (other, collect-snoc r rs rows t ok (collect-other q rs rows other h) c)
]
