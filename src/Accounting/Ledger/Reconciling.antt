-- ===== src/Accounting/Ledger/Reconciling.antt =====
-- What a reconciliation does to the calls that its window has used.
use torq_cli_python.Prelude.{
  ℕ, suc, ◌+◌, ◌≤◌, String, ◌≡◌, refl, sym, ◌∙◌, ap, true, List, [], ◌∷◌, ◌++◌, arith, ltb, length,
  eq_refl, Bool-cases, inl, inr,
}
use torq_cli_python.Json.{number, Value, Fields}
use torq_cli_python.Entitlements.{PlanWindow}
use torq_cli_python.Accounting.Record.{SameFields, put, update}
use torq_cli_python.Accounting.Journal.{
  returns, verify_journal, extend, new_row, new_body, signed, last_hash, zero_hash,
}
use torq_cli_python.Accounting.Journal.Append.{IsEvent, append_locked-verifies}
use torq_cli_python.Accounting.Journal.Reading.{IsSound, IsReadable}
use torq_cli_python.Accounting.Lines.{IsWhole}
use torq_cli_python.Accounting.Ledger.{
  done, Setting, Store, of_window, calls_of, sum_calls, used_of, reserved_of, totals, found_entry,
  find_reservation, reconciled, reconciled_ids, reconcile_locked,
}
use torq_cli_python.Accounting.Ledger.Totals.{done-eq, sum_calls-snoc, totals-verified}

reconciled-IsEvent :
    (run provider : String) (base : PlanWindow) (entry : Value) (id : String) (old calls : ℕ)
    → IsEvent (reconciled run provider base entry id old calls)
unfolding reconciled
reconciled-IsEvent run provider base entry id old calls = record {
  no_sequence = refl;
  no_previous_hash = refl;
  no_record_hash = refl;
  no_signer_key_id = refl;
  no_signature = refl;
}

-- After the reconciliation the window counts this many used calls, within its limit.
abbrev pub IsCounted : Setting → PlanWindow → Store → ℕ → Type 0
IsCounted w base s used =
    (reserved : ℕ) × (totals w s base.account base.resets_at ≡ done (used, reserved))
    × (used ≤ base.limit)

module _ (w : Setting) (run provider : String) (base : PlanWindow) (calls : ℕ)
    (id now : String) where
  row-of_window :
      (n old : ℕ) (p : String) (entry : Value)
      → of_window base.account base.resets_at
          (new_row w.keys n p now (reconciled run provider base entry id old calls))
        ≡ true
  unfolding new_row new_body signed reconciled update put
  row-of_window n old p entry = rw (eq_refl base.account, eq_refl base.resets_at)

  row-calls :
      (n old : ℕ) (p : String) (entry : Value)
      → calls_of (new_row w.keys n p now (reconciled run provider base entry id old calls)) ≡ calls
  unfolding new_row new_body signed reconciled update put
  row-calls n old p entry = refl

  used-snoc :
      (n old : ℕ) (p : String) (entry : Value) (rows : List Fields) (read : Fields)
      → SameFields (new_row w.keys n p now (reconciled run provider base entry id old calls)) read
      → used_of base.account base.resets_at (rows ++ read ∷ [])
        ≡ used_of base.account base.resets_at rows + calls
  unfolding used_of
  used-snoc n old p entry rows read same =
      let test = of_window base.account base.resets_at in
      sum_calls-snoc test rows read
        (rw (same.gets "account", same.gets "resets_at") (row-of_window n old p entry))
      ∙ ap (λ c. sum_calls test rows + c) (ap number (same.gets "calls") ∙ row-calls n old p entry)

  -- A reconciliation that is made adds its calls to the used calls of its window, which stay
  -- within the limit, where both journals verify, `totals` reads the counters before it, and the
  -- reservation to settle is found under its entry. The reconciliation's file is empty or ends with
  -- a newline, the new row's JSON text has no line break of `splitlines` in it and reads back with
  -- the same keys and values, a signature verifies, a digest is no empty text, and neither depends
  -- on the order of keys.
  pub reconcile-IsCounted :
      (s s' : Store) (registry_rows rows : List Fields) (ids : List String) (entry : Value)
      (read : Fields) (used reserved : ℕ)
      → IsSound w.keys
      → IsWhole s.reconciliation.file
      → IsReadable w.keys
          (new_row w.keys
            (suc (length rows))
            (last_hash w.keys zero_hash rows)
            now
            (reconciled run provider base entry id used calls))
          read
      → verify_journal w.keys s.dispatch ≡ returns registry_rows
      → verify_journal w.keys s.reconciliation ≡ returns rows
      → totals w s base.account base.resets_at ≡ done (used, reserved)
      → reconciled_ids w s ≡ done ids
      → found_entry (find_reservation (λ r. true) base.account run provider ids registry_rows)
        ≡ done entry
      → reconcile_locked w s run provider base calls id now ≡ done s'
      → IsCounted w base s' (used + calls)
  unfolding reconcile_locked
  reconcile-IsCounted s s' registry_rows rows ids entry read used reserved sound whole readable e f
        counted named found h =
      let tested = rw (e, named, found, counted) at h in
      elim (Bool-cases (ltb base.limit (used + calls))) [
        | inl over ↦ let refused = rw over at tested in cc
        | inr fits ↦
            let event = reconciled run provider base entry id used calls in
            let appended =
              append_locked-verifies w.keys sound now event s.reconciliation rows read
                (reconciled-IsEvent run provider base entry id used calls) whole readable f in
            let made = rw (fits, appended.0) at tested in
            let j = extend w.keys now event rows s.reconciliation in
            let same_store = done-eq (record s { reconciliation = j }) s' made in
            let used_now = used_of base.account base.resets_at rows in
            let reserved_now = reserved_of w base.account base.resets_at registry_rows rows in
            let both : done (used_now, reserved_now) ≡ done (used, reserved) =
              sym (totals-verified w s base.account base.resets_at registry_rows rows e f)
              ∙ counted in
            let same_used : used_now ≡ used =
              ap (λ x. x.0) (done-eq (used_now, reserved_now) (used, reserved) both) in
            (
              reserved_of w base.account base.resets_at registry_rows (rows ++ read ∷ []),
              rw (← same_store) (
                  totals-verified w (record s { reconciliation = j }) base.account base.resets_at
                    registry_rows (rows ++ read ∷ []) e appended.1
                  ∙ rw (
                    used-snoc (suc (length rows)) used (last_hash w.keys zero_hash rows) entry rows
                        read readable.same,
                    same_used,
                  )),
              ground arith,
            )
      ]
