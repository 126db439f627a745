-- ===== src/Accounting/Ledger.antt =====
-- `PersistentEntitlementLedger`: windows whose totals are read from two journals, the registry of
-- enrollments and reservations and the journal of their reconciliation.
pub mod Totals
pub mod Reconciling
mod Tests
use torq_cli_python.Prelude.{
  ℕ, suc, ◌+◌, String, ◌==◌, Bool, true, false, ◌&&◌, ◌||◌, not, Option, none, some, List, [], ◌∷◌,
  ◌++◌, ltb, eqb, elem, length, if◌then◌else◌,
}
use torq_cli_python.Dict.{Dict, lookup, insert}
use torq_cli_python.Json.{
  Value, int, str, arr, Items, no_items, item, Fields, no_fields, field, get, is_text, number,
}
use torq_cli_python.Entitlements.{PlanWindow, ℤ, pos, negsuc, EntitlementError, check_window}
use torq_cli_python.Accounting.Journal.{
  RegistryError, Checked, raises, returns, Keys, Journal, verify_journal, append_locked, shown,
}

-- What the methods raise.
pub data LedgerError : Type 0 where
  registry : RegistryError → LedgerError
  window : EntitlementError → LedgerError
  entitlement_calls_invalid entitlement_run_unbound entitlement_provider_unknown : LedgerError
  entitlement_coverage_incomplete entitlement_window_exceeded : LedgerError
  entitlement_reservation_missing entitlement_reconcile_invalid : LedgerError

pub data Done {ℓ} (A : Type ℓ) : Type ℓ where
  fails : LedgerError → Done A
  done : A → Done A

infixl 5 ◌>>=◌
abbrev pub ◌>>=◌ {ℓ κ} : {A : Type ℓ} {B : Type κ} → Done A → (A → Done B) → Done B
fails e >>= f = fails e
done a >>= f = f a

abbrev pub checked_journal {ℓ} : {A : Type ℓ} → Checked A → Done A
checked_journal (raises e) = fails (registry e)
checked_journal (returns a) = done a

-- What the ledger has from outside: the signing key, its public half, whether a reset lies after
-- the clock, whether a run's directory exists, and whether `verify_receipt_store` accepts it under
-- a public key (as the registry holds it, in hex).
pub record Setting : Type 0 where
  pub keys : Keys
  pub public_key : Value
  pub later : String → Bool
  pub run_exists : String → Bool
  pub run_verifies : String → Value → Bool
  pub windows : Dict PlanWindow
  pub providers : Dict String

-- The two journals on disk, and the run that is bound.
pub record Store : Type 0 where
  pub dispatch : Journal
  pub reconciliation : Journal
  pub run_id : Option String

-- `row.get("account") == account and row.get("resets_at") == resets_at`
abbrev pub of_window : String → String → Fields → Bool
of_window account resets r = is_text account (get "account" r) && is_text resets (get "resets_at" r)

-- `int(row.get("calls", 0))`, for rows whose calls are a number.
abbrev pub calls_of : Fields → ℕ
calls_of r = number (get "calls" r)

-- `row.get("reservation_entry_ids", [])`, as texts.
abbrev pub texts_of : Keys → Items → List String
texts_of k no_items = []
texts_of k (item v xs) = shown k v ∷ texts_of k xs

abbrev pub entry_ids : Keys → Value → List String
entry_ids k (arr xs) = texts_of k xs
entry_ids k _ = []

-- The entries that the rows of a window name.
unfoldable pub named_ids : Keys → (Fields → Bool) → List Fields → List String
named_ids k test [] = []
named_ids k test (r ∷ rs) =
    let rest = named_ids k test rs in
    if test r then entry_ids k (get "reservation_entry_ids" r) ++ rest else rest

-- `row.get("entry_id") in ids`
abbrev pub is_named : Value → List String → Bool
is_named (str s) ids = elem s ids
is_named _ ids = false

-- The sum of the calls of the rows that pass a test.
unfoldable pub sum_calls : (Fields → Bool) → List Fields → ℕ
sum_calls test [] = 0
sum_calls test (r ∷ rs) = let rest = sum_calls test rs in if test r then calls_of r + rest else rest

-- A reservation of the window that nothing has settled and that the reset has not ended.
abbrev pub is_live : Bool → String → String → List String → Fields → Bool
is_live later account resets ids r =
    is_text "reservation_created" (get "event" r)
    && (of_window account resets r && (not (is_named (get "entry_id" r) ids) && later))

unfoldable pub used_of : String → String → List Fields → ℕ
used_of account resets rows = sum_calls (of_window account resets) rows

unfoldable pub reserved_of : Setting → String → String → List Fields → List Fields → ℕ
reserved_of w account resets registry_rows rows =
    sum_calls
      (is_live (w.later resets) account resets (named_ids w.keys (of_window account resets) rows))
      registry_rows

-- `_totals`
unfoldable pub totals : Setting → Store → String → String → Done (ℕ × ℕ)
totals w s account resets = checked_journal (verify_journal w.keys s.dispatch) >>= λ registry_rows.
    checked_journal (verify_journal w.keys s.reconciliation) >>= λ rows.
    done (used_of account resets rows, reserved_of w account resets registry_rows rows)

abbrev pub unless_refused : PlanWindow → Option EntitlementError → Done PlanWindow
unless_refused w none = done w
unless_refused w (some e) = fails (window e)

-- `replace(base, used=used, reserved=reserved)`
unfoldable pub window_with : PlanWindow → ℕ × ℕ → Done PlanWindow
window_with base (used, reserved) =
    let w = record base { used = used; reserved = reserved } in unless_refused w (check_window w)

-- `root_status`, as the rows change it.
root_status : Setting → List Fields → Dict (Value × Value) → Dict (Value × Value)
root_status w [] d = d
root_status w (r ∷ rs) d =
    let changed = root_status w rs (
      insert (shown w.keys (get "subject_root_key_id" r)) (get "trust_status" r, get "public_key" r)
        d) in
    let same = root_status w rs d in
    if is_text "root_trust_changed" (get "event" r) then changed else same

-- `enrolled`: the last enrollment of each run.
enrolled : Setting → String → String → List Fields → Dict Fields → Dict Fields
enrolled w account resets [] d = d
enrolled w account resets (r ∷ rs) d =
    let more = enrolled w account resets rs (insert (shown w.keys (get "run_id" r)) r d) in
    let same = enrolled w account resets rs d in
    if is_text "run_enrolled" (get "event" r) && of_window account resets r then more else same

-- Whether a run's status counts as verified.
trusted : Setting → String → Option (Value × Value) → Bool
trusted w run none = false
trusted w run (some (trust, key)) =
    (is_text "active" trust || is_text "trusted_legacy" trust)
    && (w.run_exists run && w.run_verifies run key)

all_trusted : Setting → Dict (Value × Value) → Dict Fields → Bool
unfolding trusted
all_trusted w roots [] = true
all_trusted w roots ((run, r) ∷ d) =
    trusted w run (lookup (shown w.keys (get "root_key_id" r)) roots) && all_trusted w roots d

-- `coverage(provider).complete`, of the rows of the registry.
unfoldable pub covered : Setting → String → String → List Fields → Bool
unfolding root_status enrolled all_trusted
covered w account resets rows =
    let runs = enrolled w account resets rows [] in
    let roots = root_status w rows ((w.keys.key_id, (str "active", w.public_key)) ∷ []) in
    ltb 0 (length runs) && all_trusted w roots runs

-- `preflight`
unfoldable pub preflight : Setting → Store → PlanWindow → Done (Unit {0})
preflight w s base = checked_journal (verify_journal w.keys s.dispatch) >>= λ rows.
    if covered w base.account base.resets_at rows
    then done tt
    else fails entitlement_coverage_incomplete

unfoldable pub reservation : String → String → PlanWindow → ℕ → String → Fields
reservation run provider base calls entry = field "event" (str "reservation_created") (
    field "entry_id" (str entry) (
      field "account" (str base.account) (
        field "run_id" (str run) (
          field "provider" (str provider)
            (field "calls" (int calls) (field "resets_at" (str base.resets_at) no_fields))))))

-- The transaction of `reserve`, for the bound run and the account's window; `entry` and `now` are
-- the new entry's id and time.
unfoldable pub reserve_locked :
    Setting → Store → String → String → PlanWindow → ℕ → String → String → Done Store
reserve_locked w s run provider base calls entry now = preflight w s base >>= λ _.
    totals w s base.account base.resets_at >>= λ sums. window_with base sums >>= λ current.
    if ltb current.limit (current.used + current.reserved + calls)
    then fails entitlement_window_exceeded
    else checked_journal
        (append_locked w.keys now (reservation run provider base calls entry) s.dispatch)
      >>= λ j. done (record s { dispatch = j })

-- What the methods look up first: the bound run and the account's window. The constructor maps each
-- provider to an account that has a window.
unfoldable pub bound : Setting → Store → String → Done (String × PlanWindow)
bound w s provider = elim s.run_id [
  | none ↦ fails entitlement_run_unbound
  | some run ↦ elim (lookup provider w.providers) [
    | none ↦ fails entitlement_provider_unknown
    | some account ↦ elim (lookup account w.windows) [
      | none ↦ fails entitlement_provider_unknown
      | some base ↦ done (run, base)
    ]
  ]
]

unfoldable pub reserve : Setting → Store → String → ℤ → String → String → Done Store
reserve w s provider (negsuc n) entry now = fails entitlement_calls_invalid
reserve w s provider (pos calls) entry now =
    if not (ltb 0 calls)
    then fails entitlement_calls_invalid
    else bound w s provider >>= λ (run, base).
        if base.settlement == "plan_covered"
        then reserve_locked w s run provider base calls entry now
        else done s

-- The first reservation of the run and provider that no row of the reconciliation names; `test`
-- is what else is asked of it.
unfoldable pub find_reservation :
    (Fields → Bool) → String → String → String → List String → List Fields → Option Fields
find_reservation test account run provider ids [] = none
find_reservation test account run provider ids (r ∷ rs) =
    let rest = find_reservation test account run provider ids rs in
    if is_text "reservation_created" (get "event" r)
      && (is_text account (get "account" r)
          && (is_text run (get "run_id" r)
              && (is_text provider (get "provider" r)
                  && (test r && not (is_named (get "entry_id" r) ids)))))
    then some r
    else rest

-- `_reconciled_ids`
unfoldable pub reconciled_ids : Setting → Store → Done (List String)
reconciled_ids w s = checked_journal (verify_journal w.keys s.reconciliation) >>= λ rows.
    done (named_ids w.keys (λ r. true) rows)

-- The entry that a row settles, with the keys that cancellation and reconciliation share.
abbrev pub settling : String → String → String → PlanWindow → Value → Fields → Fields
settling event run provider base entry rest = field "event" (str event) (
    field "account" (str base.account) (
      field "run_id" (str run) (
        field "provider" (str provider) (
          field "reservation_entry_ids" (arr (item entry no_items)) (
            field "resets_at" (str base.resets_at) (field "actor" (str "evidence_broker") rest))))))

cancellation : String → String → PlanWindow → Value → String → Fields
cancellation run provider base entry id =
    settling "reservation_cancelled" run provider base entry (field "entry_id" (str id) no_fields)

unfoldable pub reconciled : String → String → PlanWindow → Value → String → ℕ → ℕ → Fields
reconciled run provider base entry id old_used calls =
    settling "reservation_reconciled" run provider base entry (
      field "entry_id" (str id) (
        field "source" (str "provider_response") (
          field "old_used" (int old_used)
            (field "new_used" (int (old_used + calls)) (field "calls" (int calls) no_fields)))))

-- The reservation that is settled, by its entry.
abbrev pub found_entry : Option Fields → Done Value
found_entry none = fails entitlement_reservation_missing
found_entry (some r) = done (get "entry_id" r)

unfoldable pub cancel_locked :
    Setting → Store → String → String → PlanWindow → ℕ → String → String → Done Store
unfolding cancellation
cancel_locked w s run provider base calls id now =
    checked_journal (verify_journal w.keys s.dispatch) >>= λ rows. reconciled_ids w s >>= λ ids.
    found_entry (find_reservation (λ r. eqb (calls_of r) calls) base.account run provider ids rows)
    >>= λ entry.
        checked_journal
          (append_locked w.keys now (cancellation run provider base entry id) s.reconciliation)
        >>= λ j. done (record s { reconciliation = j })

unfoldable pub cancel : Setting → Store → String → ℤ → String → String → Done Store
cancel w s provider (negsuc n) id now = fails entitlement_calls_invalid
cancel w s provider (pos calls) id now =
    if not (ltb 0 calls)
    then fails entitlement_calls_invalid
    else bound w s provider >>= λ (run, base).
        if base.settlement == "plan_covered"
        then cancel_locked w s run provider base calls id now
        else done s

unfoldable pub reconcile_locked :
    Setting → Store → String → String → PlanWindow → ℕ → String → String → Done Store
reconcile_locked w s run provider base calls id now =
    checked_journal (verify_journal w.keys s.dispatch) >>= λ rows. reconciled_ids w s >>= λ ids.
    found_entry (find_reservation (λ r. true) base.account run provider ids rows) >>= λ entry.
    totals w s base.account base.resets_at >>= λ (old_used, _).
    if ltb base.limit (old_used + calls)
    then fails entitlement_reconcile_invalid
    else checked_journal (
        append_locked w.keys now (reconciled run provider base entry id old_used calls)
          s.reconciliation)
      >>= λ j. done (record s { reconciliation = j })

unfoldable pub reconcile : Setting → Store → String → ℤ → String → String → Done Store
reconcile w s provider (negsuc n) id now = fails entitlement_calls_invalid
reconcile w s provider (pos calls) id now =
    bound w s provider >>= λ (run, base). reconcile_locked w s run provider base calls id now
