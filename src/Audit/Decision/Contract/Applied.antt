-- ===== src/Audit/Decision/Contract/Applied.antt =====
-- What an application that ends in `candidate_applied` has done.
use mathlib.Core.List.Memᴰ.{Memᴰ, head, tail}
use torq_cli_python.Prelude.{
  ℕ, String, ◌≡◌, refl, sym, inl, inr, Bool, true, false, not, Option, none, some, List, [], ◌∷◌,
  arith, any, length, eqb, Bool-cases, ||-eq_false,
}
use torq_cli_python.Json.{int, Fields, get, value_eq, is_text-other, number}
use torq_cli_python.Audit.Shape.{past}
use torq_cli_python.Audit.Task.Contract.{Row, is_event}
use torq_cli_python.Audit.Decision.Contract.{found, find, detail, index, rows_of, row_at, in_order}
use torq_cli_python.Audit.Decision.Contract.Progress.{
  first_sequence, staged_bad, written_bad, written_unlinked, any_written_unlinked,
}
use torq_cli_python.Audit.Decision.Contract.Lifecycle.{
  last_row, last_finding, applied_unlinked, candidate_field, validate_decision_receipt_contract,
}
use torq_cli_python.Audit.Decision.Contract.Steps.{accepted-Passed}

pub eqb-eq : (a b : ℕ) → eqb a b ≡ true → a ≡ b
eqb-eq a b h = ground arith

some-eq : (r s : Row) → some r ≡ some s → r ≡ s
some-eq r s h = cc

-- A row of the list, with its index.
pub row_at-mem :
    (n : ℕ) (rs : List Row) (s : Row) → row_at n rs ≡ some s → Memᴰ s rs × (index s ≡ n)
unfolding row_at
row_at-mem n [] s h = cc
row_at-mem n (r ∷ rs) s h = elim (Bool-cases (eqb (index r) n)) [
  | inl e ↦
      let same : r ≡ s = some-eq r s (rw e at h) in
      (head (sym same), rw (← same) (eqb-eq (index r) n e))
  | inr e ↦ let rec = row_at-mem n rs s (rw e at h) in (tail rec.0, rec.1)
]

-- Each written row has its staged row.
abbrev pub IsStaged : List Row → Row → Type 0
IsStaged staged r =
    (s : Row) × Memᴰ s staged
    × (index s ≡ index r)
    × (value_eq (get "staged_sequence" (detail r)) (int s.sequence) ≡ true)
    × (value_eq (get "result_hash" (detail r)) (get "result_hash" (detail s)) ≡ true)

written-IsStaged :
    (hexdigest : Fields → String) (receipts : List Fields) (staged : List Row) (r : Row)
    (o : Option Row)
    → row_at (index r) staged ≡ o
    → written_unlinked hexdigest receipts r o ≡ false
    → IsStaged staged r
unfolding written_unlinked
written-IsStaged hexdigest receipts staged r none e h = cc
written-IsStaged hexdigest receipts staged r (some s) e h =
    let found = row_at-mem (index r) staged s e in (s, found.0, found.1, ground arith, ground arith)

pub any-mem :
    (p : Row → Bool) (rs : List Row) (r : Row) → any p rs ≡ false → Memᴰ r rs → p r ≡ false
any-mem p [] r h m = elim m [ ]
any-mem p (q ∷ rs) r h (head e) = rw e (||-eq_false _ _ h).0
any-mem p (q ∷ rs) r h (tail m) = any-mem p rs r (||-eq_false (p q) _ h).1 m

-- Every file was staged and written, in the order of the operations, and the last row names the
-- result that the candidate promised.
pub record IsApplied (begin prepared : Row) (rest : List Row) : Type 0 where
  pub staged_in_order : in_order 0 (rows_of "apply_file_staged" (begin ∷ prepared ∷ rest)) ≡ true
  pub written_in_order : in_order 0 (rows_of "apply_file_written" (begin ∷ prepared ∷ rest)) ≡ true
  pub each_staged :
      (r : Row)
      → Memᴰ r (rows_of "apply_file_written" (begin ∷ prepared ∷ rest))
      → IsStaged (rows_of "apply_file_staged" (begin ∷ prepared ∷ rest)) r
  pub complete :
      value_eq
        (int (length (rows_of "apply_file_written" (begin ∷ prepared ∷ rest))))
        (get "operation_count" (detail prepared))
      ≡ true
  pub result :
      value_eq
        (get "result_scope_manifest_hash" (detail (last_row prepared rest)))
        (candidate_field "candidate_scope_manifest_hash" begin)
      ≡ true

pub not-eq_false : (b : Bool) → not b ≡ false → b ≡ true
not-eq_false b h = ground arith

staged_in_order :
    (n : ℕ) (start : Option ℕ) (rows : List Row)
    → staged_bad n start rows ≡ false
    → in_order 0 rows ≡ true
unfolding staged_bad
staged_in_order n start rows h = not-eq_false _ (||-eq_false _ _ h).0

written_in_order :
    (n : ℕ) (start : Option ℕ) (rows : List Row)
    → written_bad n start rows ≡ false
    → in_order 0 rows ≡ true
unfolding written_bad in_order
written_in_order n start [] h = refl
written_in_order n none (r ∷ rs) h = cc
written_in_order n (some k) (r ∷ rs) h = not-eq_false _ (||-eq_false _ _ h).0

applied-linked :
    (begin prepared last : Row) (start : Option ℕ) (written : List Row)
    → applied_unlinked begin prepared start written last ≡ false
    → (value_eq (int (length written)) (get "operation_count" (detail prepared)) ≡ true)
      × (value_eq
            (get "result_scope_manifest_hash" (detail last))
            (candidate_field "candidate_scope_manifest_hash" begin)
          ≡ true)
unfolding applied_unlinked
applied-linked begin prepared last none written h = cc
applied-linked begin prepared last (some n) written h = ground arith

last_finding-applied :
    (begin prepared : Row) (rows : List Row) (last : Row)
    → last_finding begin prepared rows last ≡ none
    → is_event "candidate_applied" last ≡ true
    → applied_unlinked begin prepared
        (first_sequence (rows_of "apply_started" rows))
        (rows_of "apply_file_written" rows)
        last
      ≡ false
unfolding last_finding
last_finding-applied begin prepared rows last h e = (past _ _ _ (rw e at h)).0

-- Where the decision contract accepts a list of receipts and the last row of its application is
-- `candidate_applied`, the files were staged and written in the order of the operations, each
-- written row names a staged row of the same index and result, as many rows are written as
-- the prepared row counts operations, and the result is the scope that the candidate promised.
pub completed-IsApplied :
    (hexdigest : Fields → String) (receipts : List Fields) (sealed : Bool) (reviews : List Row)
    (begin prepared : Row) (rest : List Row)
    → find receipts ≡ found reviews (begin ∷ prepared ∷ rest)
    → validate_decision_receipt_contract hexdigest receipts sealed ≡ none
    → is_event "candidate_applied" (last_row prepared rest) ≡ true
    → IsApplied begin prepared rest
unfolding any_written_unlinked
completed-IsApplied hexdigest receipts sealed reviews begin prepared rest e h applied =
    let last = last_row prepared rest in
    let not_rejected =
      is_text-other "candidate_applied" "apply_rejected" (get "event" last.body) applied refl in
    let passed =
      accepted-Passed hexdigest receipts sealed reviews begin prepared rest e h not_rejected in
    let all_rows = begin ∷ prepared ∷ rest in
    let start = first_sequence (rows_of "apply_started" all_rows) in
    let operations = number (get "operation_count" (detail prepared)) in
    let staged = rows_of "apply_file_staged" all_rows in
    let written = rows_of "apply_file_written" all_rows in
    let linked =
      applied-linked begin prepared last start written
        (last_finding-applied begin prepared all_rows last passed.ending applied) in
    record {
      staged_in_order = staged_in_order operations start staged passed.staging;
      written_in_order = written_in_order operations start written passed.writing;
      each_staged = λ r m.
          written-IsStaged hexdigest receipts staged r (row_at (index r) staged) refl (
            any-mem (λ q. written_unlinked hexdigest receipts q (row_at (index q) staged)) written r
              passed.links m);
      complete = linked.0;
      result = linked.1;
    }
