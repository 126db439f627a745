-- ===== src/Audit/Decision/Contract/RolledBack.antt =====
-- What an application that ends in `apply_rolled_back` has restored.
use mathlib.Core.List.Memᴰ.{Memᴰ}
use torq_cli_python.Prelude.{
  ℕ, suc, String, ◌≡◌, refl, ap, Bool, true, false, Option, none, some, List, [], ◌∷◌, arith, any,
  length, &&-eq_true,
}
use torq_cli_python.Json.{int, Fields, get, value_eq, is_text-other}
use torq_cli_python.Audit.Shape.{past}
use torq_cli_python.Audit.Task.Contract.{Row, is_event}
use torq_cli_python.Audit.Decision.Contract.{found, find, detail, index, rows_of, row_at}
use torq_cli_python.Audit.Decision.Contract.Rollback.{
  rollback_bad, restored_unlinked, is_prefix, indices, distinct_numbers, descending,
}
use torq_cli_python.Audit.Decision.Contract.Lifecycle.{
  last_row, in_rollback, last_finding, rolled_back_unlinked, candidate_field,
  validate_decision_receipt_contract,
}
use torq_cli_python.Audit.Decision.Contract.Steps.{accepted-Passed}
use torq_cli_python.Audit.Decision.Contract.Applied.{row_at-mem, any-mem, eqb-eq}

-- A restored row has its staged row, of the same file and the same base.
abbrev pub IsRestaged : List Row → Row → Type 0
IsRestaged staged r =
    (s : Row) × Memᴰ s staged
    × (index s ≡ index r)
    × (value_eq (get "staged_sequence" (detail r)) (int s.sequence) ≡ true)
    × (value_eq (get "path" (detail r)) (get "path" (detail s)) ≡ true)
    × (value_eq (get "base_hash" (detail r)) (get "base_hash" (detail s)) ≡ true)

-- Every file that the rollback staged was restored, once and in descending order, and the last row
-- names the tree that the candidate began from.
pub record IsRestored (begin last : Row) (staged restored : List Row) : Type 0 where
  pub restored_all : indices restored ≡ indices staged
  pub distinct : distinct_numbers (indices staged) ≡ true
  pub in_descending_order : descending (indices staged) ≡ true
  pub each_restaged : (r : Row) → Memᴰ r restored → IsRestaged staged r
  pub base :
      value_eq
        (get "restored_scope_manifest_hash" (detail last))
        (candidate_field "base_scope_manifest_hash" begin)
      ≡ true

-- A prefix as long as the list is the list.
is_prefix-whole : (ns ms : List ℕ) → is_prefix ns ms ≡ true → length ns ≡ length ms → ns ≡ ms
unfolding is_prefix
is_prefix-whole [] [] h e = refl
is_prefix-whole [] (m ∷ ms) h e = absurd (omega arith)
is_prefix-whole (n ∷ ns) [] h e = cc
is_prefix-whole (n ∷ ns) (m ∷ ms) h e =
    let parts = &&-eq_true _ _ h in
    let same_head : n ≡ m = eqb-eq n m parts.0 in
    rw (same_head, is_prefix-whole ns ms parts.1 (omega arith))

length-indices : (rs : List Row) → length (indices rs) ≡ length rs
length-indices [] = refl
length-indices (r ∷ rs) = ap suc (length-indices rs)

-- The tests on the rollback's rows, passed.
record Undone (hexdigest : Fields → String) (receipts : List Fields) (staged restored : List Row)
    : Type 0 where
  distinct : distinct_numbers (indices staged) ≡ true
  in_descending_order : descending (indices staged) ≡ true
  links :
      any (λ r. restored_unlinked hexdigest receipts r (row_at (index r) staged)) restored ≡ false
  prefix : is_prefix (indices restored) (indices staged) ≡ true

rollback_bad-Undone :
    (hexdigest : Fields → String) (receipts : List Fields) (n : ℕ) (staged restored : List Row)
    → rollback_bad hexdigest receipts n staged restored ≡ false
    → Undone hexdigest receipts staged restored
unfolding rollback_bad
rollback_bad-Undone hexdigest receipts n staged restored h = ground arith

restored-IsRestaged :
    (hexdigest : Fields → String) (receipts : List Fields) (staged : List Row) (r : Row)
    (o : Option Row)
    → row_at (index r) staged ≡ o
    → restored_unlinked hexdigest receipts r o ≡ false
    → IsRestaged staged r
unfolding restored_unlinked
restored-IsRestaged hexdigest receipts staged r none e h = cc
restored-IsRestaged hexdigest receipts staged r (some s) e h =
    let found = row_at-mem (index r) staged s e in
    (s, found.0, found.1, ground arith, ground arith, ground arith)

rolled_back-linked :
    (begin prepared last : Row) (rollbacks staged restored : List Row) (test : ℕ → Bool)
    → rolled_back_unlinked begin prepared rollbacks staged restored last ≡ false
    → in_rollback rollbacks test ≡ false
    → ((n : ℕ) × (test n ≡ false))
      × (length restored ≡ length staged)
      × (value_eq
            (get "restored_scope_manifest_hash" (detail last))
            (candidate_field "base_scope_manifest_hash" begin)
          ≡ true)
unfolding rolled_back_unlinked
rolled_back-linked begin prepared last [] staged restored test h i = cc
rolled_back-linked begin prepared last (r ∷ rs) staged restored test h i =
    ((r.sequence, i), ground arith, ground arith)

last_finding-rolled_back :
    (begin prepared : Row) (rows : List Row) (last : Row)
    → last_finding begin prepared rows last ≡ none
    → is_event "apply_rolled_back" last ≡ true
    → rolled_back_unlinked begin prepared
        (rows_of "apply_rollback_started" rows)
        (rows_of "apply_rollback_file_staged" rows)
        (rows_of "apply_rollback_file_restored" rows)
        last
      ≡ false
unfolding last_finding
last_finding-rolled_back begin prepared rows last h e =
    let other =
      is_text-other "apply_rolled_back" "candidate_applied" (get "event" last.body) e refl in
    (past _ _ _ (rw (other, e) at h)).0

-- Where the decision contract accepts a list of receipts and the last row of its application is
-- `apply_rolled_back`, the restored rows have exactly the indices of the rows that the rollback
-- staged, distinct and in descending order, each restores the path and the base of its staged
-- row, and the restored scope is the one that the candidate began from.
pub rolled_back-IsRestored :
    (hexdigest : Fields → String) (receipts : List Fields) (sealed : Bool) (reviews : List Row)
    (begin prepared : Row) (rest : List Row)
    → find receipts ≡ found reviews (begin ∷ prepared ∷ rest)
    → validate_decision_receipt_contract hexdigest receipts sealed ≡ none
    → is_event "apply_rolled_back" (last_row prepared rest) ≡ true
    → IsRestored begin
        (last_row prepared rest)
        (rows_of "apply_rollback_file_staged" (begin ∷ prepared ∷ rest))
        (rows_of "apply_rollback_file_restored" (begin ∷ prepared ∷ rest))
rolled_back-IsRestored hexdigest receipts sealed reviews begin prepared rest e h undone =
    let last = last_row prepared rest in
    let not_rejected =
      is_text-other "apply_rolled_back" "apply_rejected" (get "event" last.body) undone refl in
    let passed =
      accepted-Passed hexdigest receipts sealed reviews begin prepared rest e h not_rejected in
    let all_rows = begin ∷ prepared ∷ rest in
    let staged = rows_of "apply_rollback_file_staged" all_rows in
    let restored = rows_of "apply_rollback_file_restored" all_rows in
    let ((n, tested), same_length, same_base) =
      rolled_back-linked begin prepared last (rows_of "apply_rollback_started" all_rows) staged
        restored (λ k. rollback_bad hexdigest receipts k staged restored)
        (last_finding-rolled_back begin prepared all_rows last passed.ending undone)
        passed.rollback in
    let rows = rollback_bad-Undone hexdigest receipts n staged restored tested in
    record {
      restored_all =
          is_prefix-whole (indices restored) (indices staged) rows.prefix
            (rw (length-indices restored, length-indices staged) same_length);
      distinct = rows.distinct;
      in_descending_order = rows.in_descending_order;
      each_restaged = λ r m.
          restored-IsRestaged hexdigest receipts staged r (row_at (index r) staged) refl (
            any-mem (λ q. restored_unlinked hexdigest receipts q (row_at (index q) staged)) restored
              r rows.links m);
      base = same_base;
    }
