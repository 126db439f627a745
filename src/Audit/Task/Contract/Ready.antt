-- ===== src/Audit/Task/Contract/Ready.antt =====
-- What a task that ends in `candidate_ready` rests on.
use mathlib.Core.List.Memᴰ.{Memᴰ, head, tail}
use torq_cli_python.Prelude.{
  ℕ, suc, length, ◌≡◌, refl, sym, subst, inl, inr, ◌<◌, String, Bool, true, false, ◌&&◌, Option,
  none, some, List, [], ◌∷◌, arith, eqb, if◌then◌else◌, Bool-cases, eq_iff,
}
use torq_cli_python.Json.{Value, Fields, get, int, value_eq, is_text, is_true}
use torq_cli_python.Evidence.Finding.{Finding}
use torq_cli_python.Evidence.Payload.Shape.{is_one_of}
use torq_cli_python.Audit.Task.Contract.{
  Row, collected, collect, is_event, is_failure, first, last, generated_unlinked, check_unlinked,
  ready_unlinked, ready_link_finding, end_finding, started_finding, rows_finding,
  validate_task_receipt_contract,
}

first-mem :
    (e : String) (rs : List Row) (r : Row) → first e rs ≡ some r → Memᴰ r rs × (is_event e r ≡ true)
unfolding first
first-mem e [] r h = cc
first-mem e (q ∷ rs) r h = elim (Bool-cases (is_event e q)) [
  | inl t ↦ let same : q ≡ r = cc in (head (sym same), subst (λ x. is_event e x ≡ true) same t)
  | inr f ↦ let rec = first-mem e rs r (rw f at h) in (tail rec.0, rec.1)
]

-- Two bodies agree on a key.
abbrev Same : String → Row → Row → Type 0
Same k r q = value_eq (get k r.body) (get k q.body) ≡ true

abbrev LinksTo : String → Row → Row → Type 0
LinksTo k r q = value_eq (get k r.body) (int q.sequence) ≡ true

-- The generation `g` and the check `c` that the terminal row `t` of a started task names.
pub record Chain (start : Row) (rest : List Row) (g c t : Row) : Type 0 where
  pub started : is_event "task_start_accepted" start ≡ true
  pub generated : Memᴰ g (start ∷ rest) × (is_event "candidate_generated" g ≡ true)
  pub was_checked : Memᴰ c (start ∷ rest) × (is_event "candidate_check_completed" c ≡ true)
  pub generated_after : start.sequence < g.sequence
  pub check_after : g.sequence < c.sequence
  pub same_plan : Same "plan_hash" g start × Same "plan_hash" t start
  pub same_input : Same "input_hash" g start × Same "input_hash" t start
  pub same_model : Same "provider" g start × Same "model" g start
  pub same_candidate : Same "candidate_manifest_hash" c g × Same "candidate_manifest_hash" t g
  pub links :
      LinksTo "start_sequence" t start
      × LinksTo "generated_sequence" t g
      × LinksTo "check_sequence" t c
  pub passed : value_eq (get "exit_code" c.body) (int 0) ≡ true
  pub complete : is_true (get "output_complete" c.body) ≡ true
  pub unmoved :
      value_eq (get "source_recheck_hash" t.body) (get "base_manifest_hash" start.body) ≡ true

abbrev pub IsReady : Row → List Row → Type 0
IsReady start rest = (g : Row) × (c : Row) × Chain start rest g c (last start rest)

ready_link_finding-eq :
    (start t : Row) (a b : Option Row)
    → ready_link_finding start t a b ≡ none
    → (g : Row) × (c : Row) × (a ≡ some g) × (b ≡ some c) × (ready_unlinked start g c t ≡ false)
unfolding ready_link_finding
ready_link_finding-eq start t none b h = cc
ready_link_finding-eq start t (some g) none h = cc
ready_link_finding-eq start t (some g) (some c) h = (g, c, refl, refl, ground arith)

-- What the tests on the rows found in order.
pub record Passed (sealed : Bool) (start : Row) (rest : List Row) : Type 0 where
  pub started : is_event "task_start_accepted" start ≡ true
  pub generation : generated_unlinked start (first "candidate_generated" (start ∷ rest)) ≡ false
  pub check :
      check_unlinked
        (first "candidate_generated" (start ∷ rest))
        (first "candidate_check_completed" (start ∷ rest))
      ≡ false
  pub ending : end_finding sealed start rest (last start rest) ≡ none

pub started_finding-Passed :
    (sealed : Bool) (start : Row) (rest : List Row)
    → started_finding sealed start rest ≡ none
    → Passed sealed start rest
unfolding started_finding
started_finding-Passed sealed start rest h = ground arith

chain :
    (start : Row) (rest : List Row) (g c t : Row)
    → Memᴰ g (start ∷ rest) × (is_event "candidate_generated" g ≡ true)
    → Memᴰ c (start ∷ rest) × (is_event "candidate_check_completed" c ≡ true)
    → is_event "task_start_accepted" start ≡ true
    → generated_unlinked start (some g) ≡ false
    → check_unlinked (some g) (some c) ≡ false
    → ready_unlinked start g c t ≡ false
    → Chain start rest g c t
unfolding generated_unlinked check_unlinked ready_unlinked
chain start rest g c t mg mc s eg ec et = ground arith

started_finding-IsReady :
    (sealed : Bool) (start : Row) (rest : List Row)
    → started_finding sealed start rest ≡ none
    → is_event "candidate_ready" (last start rest) ≡ true
    → IsReady start rest
unfolding end_finding
started_finding-IsReady sealed start rest h e =
    let passed = started_finding-Passed sealed start rest h in
    let (g, c, found_g, found_c, linked) =
      ready_link_finding-eq start (last start rest) _ _ (rw e at passed.ending) in
    (
      g,
      c,
      chain start rest g c (last start rest) (first-mem _ (start ∷ rest) g found_g)
          (first-mem _ (start ∷ rest) c found_c) passed.started (rw found_g at passed.generation)
          (rw (found_g, found_c) at passed.check) linked,
    )

-- A text is one event at most.
ready-not_failure :
    (v : Value)
    → is_text "candidate_ready" v ≡ true
    → is_one_of ("task_failed" ∷ "task_interrupted" ∷ "task_cancelled" ∷ []) v ≡ false
ready-not_failure (Value.str s) h =
    let same_text : s ≡ "candidate_ready" = (eq_iff s "candidate_ready").0 h in rw same_text
ready-not_failure _ h = cc

pub past_two :
    (a b : Bool) (f : Finding) (o p : Option Finding)
    → (if a then some f else if b then o else p) ≡ none
    → b ≡ false
    → p ≡ none
past_two a b f o p h e = ground arith

pub not_single : (n : ℕ) (b : Bool) → (eqb (suc (suc n)) 1 && b) ≡ false
not_single n b = ground arith

rows_finding-IsReady :
    (sealed : Bool) (start : Row) (rest : List Row)
    → rows_finding sealed (start ∷ rest) ≡ none
    → is_event "candidate_ready" (last start rest) ≡ true
    → IsReady start rest
unfolding rows_finding
rows_finding-IsReady sealed start [] h e =
    started_finding-IsReady sealed start []
      (past_two _ _ _ _ _ h (ready-not_failure (get "event" start.body) e)) e
rows_finding-IsReady sealed start (q ∷ rest) h e =
    started_finding-IsReady sealed start (q ∷ rest)
      (past_two _ (eqb (suc (suc (length rest))) 1 && is_failure start) _ _ _ h
        (not_single (length rest) (is_failure start)))
      e

-- Where the task contract accepts a list of receipts and the last row of its task is
-- `candidate_ready`, the task rests on a whole chain: it began with `task_start_accepted`, a later
-- row generated the candidate, and a still later row checked it with exit code 0 and complete
-- output; the plan, input, model and candidate hashes agree along the chain, the terminal row
-- names the three sequences, and the source was rechecked against the manifest of the start.
pub accepted-IsReady :
    (sealed : Bool) (rs : List Fields) (start : Row) (rest : List Row)
    → collect false rs ≡ collected (start ∷ rest)
    → validate_task_receipt_contract sealed rs ≡ none
    → is_event "candidate_ready" (last start rest) ≡ true
    → IsReady start rest
unfolding validate_task_receipt_contract
accepted-IsReady sealed rs start rest found h e =
    rows_finding-IsReady sealed start rest (rw found at h) e
