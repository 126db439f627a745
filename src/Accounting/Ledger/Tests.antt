-- ===== src/Accounting/Ledger/Tests.antt =====
-- A window of ten calls: a run is enrolled, reserves three calls and reconciles two.
use torq_cli_python.Prelude.{String, ◌≡◌, refl, true, some, List, [], ◌∷◌, length, suc, inl, inr}
use torq_cli_python.Dict.{lookup, insert}
use torq_cli_python.Json.{str, Fields, field, no_fields, value_eq}
use torq_cli_python.Evidence.Payload.Shape.{codes}
use torq_cli_python.Entitlements.{PlanWindow, check_window}
use torq_cli_python.Accounting.Record.{put, without, update}
use torq_cli_python.Accounting.Lines.{is_break, splitlines, lines_from, IsWhole}
use torq_cli_python.Accounting.Journal.{
  Keys, Journal, absent, returns, signed, verify_signed, verify_row, verify_rows, verify_anchor,
  read_rows, read_lines, verify_read, verify_journal, last_hash, new_body, new_row, new_anchor,
  extend, append_locked, zero_hash,
}
use torq_cli_python.Accounting.Journal.Reading.{IsReadable}
use torq_cli_python.Accounting.Journal.Sample.{keys_for, keys_for-IsSound, row-SameFields}
use torq_cli_python.Accounting.Ledger.{
  Setting, Store, done, reservation, reserve_locked, preflight, covered, totals, window_with,
  named_ids, sum_calls, used_of, reserved_of, reconcile_locked, reconciled, reconciled_ids,
  find_reservation, found_entry,
}
use torq_cli_python.Accounting.Ledger.Totals.{Simulates, counters_reserve, reserve-refines}
use torq_cli_python.Accounting.Ledger.Reconciling.{IsCounted, reconcile-IsCounted}

abbrev base : PlanWindow
base = record {
  account = "plan";
  providers = "acme" ∷ [];
  settlement = "plan_covered";
  used = 0;
  limit = 10;
  resets_at = "2030-01-01T00:00:00Z";
  used_source = "receipt_derived";
  limit_source = "operator_declared";
  reserved = 0;
}

abbrev enrollment : Fields
enrollment = field "event" (str "run_enrolled") (
    field "entry_id" (str "enroll-1") (
      field "account" (str "plan") (
        field "run_id" (str "run-1") (
          field "root_key_id" (str "key")
            (field "resets_at" (str "2030-01-01T00:00:00Z") no_fields)))))

abbrev bare : Keys
bare = keys_for []

abbrev row1 : Fields
row1 = new_row bare 1 zero_hash "t1" enrollment

abbrev row2 : Fields
row2 = new_row bare 2 "run_enrolled" "t2" (reservation "run-1" "acme" base 3 "reserve-1")

abbrev row3 : Fields
row3 =
    new_row bare 1 zero_hash "t3"
      (reconciled "run-1" "acme" base (str "reserve-1") "reconcile-1" 0 2)

abbrev keys : Keys
keys = keys_for (row1 ∷ row2 ∷ row3 ∷ [])

abbrev setting : Setting
setting = record {
  keys = keys;
  public_key = str "public";
  later = λ t. true;
  run_exists = λ run. true;
  run_verifies = λ run key. true;
  windows = ("plan", base) ∷ [];
  providers = ("acme", "plan") ∷ [];
}

abbrev blank : Journal
blank = record { file = []; head = absent }

abbrev enrolled_rows : List Fields
enrolled_rows = row1 ∷ []

abbrev store : Store
store = record {
  dispatch = extend keys "t1" enrollment [] blank;
  reconciliation = blank;
  run_id = some "run-1";
}

abbrev reserved_store : Store
reserved_store = record store {
  dispatch =
      extend keys "t2" (reservation "run-1" "acme" base 3 "reserve-1") enrolled_rows store.dispatch;
}

abbrev no_rows : List Fields
no_rows = []

store_verifies : verify_journal keys store.dispatch ≡ returns enrolled_rows
unfolding verify_journal verify_read read_lines read_rows splitlines lines_from verify_rows
    verify_row verify_anchor verify_signed extend last_hash new_body new_row new_anchor signed put
    without update value_eq
store_verifies = refl

blank_verifies : verify_journal keys blank ≡ returns no_rows
unfolding verify_journal verify_read read_lines read_rows splitlines lines_from verify_rows
blank_verifies = refl

store-totals : totals setting store "plan" "2030-01-01T00:00:00Z" ≡ done (0, 0)
unfolding totals used_of reserved_of sum_calls named_ids new_row new_body signed update put
store-totals = rw (store_verifies, blank_verifies)

reserves : reserve_locked setting store "run-1" "acme" base 3 "reserve-1" "t2" ≡ done reserved_store
unfolding reserve_locked preflight window_with append_locked covered check_window new_row new_body
    signed update put insert lookup
reserves = rw (store_verifies, store-totals)

store-IsWhole : IsWhole store.dispatch.file
unfolding extend new_row new_body signed put update
store-IsWhole = inr (codes "run_enrolled", refl)

row2-IsReadable :
    IsReadable keys
      (new_row keys
        (suc (length enrolled_rows))
        (last_hash keys zero_hash enrolled_rows)
        "t2"
        (reservation "run-1" "acme" base 3 "reserve-1"))
      row2
unfolding new_row new_body signed put update last_hash is_break reservation reconciled
row2-IsReadable = record { unbroken = refl; decoded = refl; same = row-SameFields row2 }

row3-IsReadable :
    IsReadable keys
      (new_row keys
        (suc (length no_rows))
        (last_hash keys zero_hash no_rows)
        "t3"
        (reconciled "run-1" "acme" base (str "reserve-1") "reconcile-1" 0 2))
      row3
unfolding new_row new_body signed put update last_hash is_break reservation reconciled
row3-IsReadable = record { unbroken = refl; decoded = refl; same = row-SameFields row3 }

reserve-refines_example : Simulates setting base reserved_store (counters_reserve 10 3 (0, 0))
unfolding named_ids
reserve-refines_example =
    reserve-refines setting "run-1" "acme" base 3 "reserve-1" "t2" store reserved_store
      enrolled_rows no_rows row2 (0, 0) (keys_for-IsSound (row1 ∷ row2 ∷ row3 ∷ [])) store-IsWhole
      row2-IsReadable refl store_verifies blank_verifies refl store-totals reserves

abbrev reserved_rows : List Fields
reserved_rows = row1 ∷ row2 ∷ []

abbrev settled_store : Store
settled_store = record reserved_store {
  reconciliation =
      extend keys "t3" (reconciled "run-1" "acme" base (str "reserve-1") "reconcile-1" 0 2) []
        blank;
}

reserved_verifies : verify_journal keys reserved_store.dispatch ≡ returns reserved_rows
unfolding verify_journal verify_read read_lines read_rows splitlines lines_from verify_rows
    verify_row verify_anchor verify_signed extend last_hash new_body new_row new_anchor signed put
    without update value_eq reservation
reserved_verifies = refl

reserved_totals : totals setting reserved_store "plan" "2030-01-01T00:00:00Z" ≡ done (0, 3)
unfolding totals used_of reserved_of sum_calls named_ids new_row new_body signed update put
    reservation
reserved_totals = rw (reserved_verifies, blank_verifies)

abbrev no_ids : List String
no_ids = []

no_ids_named : reconciled_ids setting reserved_store ≡ done no_ids
unfolding reconciled_ids named_ids
no_ids_named = rw blank_verifies

reservation_found :
    found_entry (find_reservation (λ r. true) "plan" "run-1" "acme" no_ids reserved_rows)
    ≡ done (str "reserve-1")
unfolding find_reservation new_row new_body signed update put reservation
reservation_found = refl

reconciles :
    reconcile_locked setting reserved_store "run-1" "acme" base 2 "reconcile-1" "t3"
    ≡ done settled_store
unfolding reconcile_locked append_locked
reconciles =
    rw (reserved_verifies, no_ids_named, reservation_found, reserved_totals, blank_verifies)

reconcile-IsCounted_example : IsCounted setting base settled_store 2
reconcile-IsCounted_example =
    reconcile-IsCounted setting "run-1" "acme" base 2 "reconcile-1" "t3" reserved_store
      settled_store reserved_rows no_rows no_ids (str "reserve-1") row3 0 3
      (keys_for-IsSound (row1 ∷ row2 ∷ row3 ∷ [])) (inl refl) row3-IsReadable reserved_verifies
      blank_verifies reserved_totals no_ids_named reservation_found reconciles
