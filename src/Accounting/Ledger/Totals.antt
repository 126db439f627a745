-- ===== src/Accounting/Ledger/Totals.antt =====
-- What reservations and reconciliations do to the totals of their window: the ledger is a pair of
-- counters.
use torq_cli_python.Prelude.{
  Option-cases, ℕ, suc, ◌+◌, String, ◌≡◌, refl, sym, ◌∙◌, ap, Bool, true, false, Option, none, some,
  List, [], ◌∷◌, ◌++◌, arith, ltb, length, if◌then◌else◌, eq_refl, Bool-cases, inl, inr,
}
use torq_cli_python.Json.{number, str, Fields}
use torq_cli_python.Entitlements.{PlanWindow, check_window}
use torq_cli_python.Accounting.Record.{put, update}
use torq_cli_python.Accounting.Journal.{
  Checked, raises, returns, Journal, verify_journal, extend, new_row, new_body, signed, last_hash,
  zero_hash,
}
use torq_cli_python.Accounting.Journal.Append.{IsEvent, append_locked-verifies}
use torq_cli_python.Accounting.Journal.Reading.{IsSound, IsReadable}
use torq_cli_python.Accounting.Lines.{IsWhole}
use torq_cli_python.Accounting.Record.{SameFields}
use torq_cli_python.Accounting.Ledger.{
  Done, fails, done, ◌>>=◌, checked_journal, Setting, Store, of_window, calls_of, named_ids,
  is_named, sum_calls, is_live, used_of, reserved_of, totals, window_with, preflight, reservation,
  reserve_locked,
}

pub >>=-eq_done {ℓ κ} :
    {A : Type ℓ} {B : Type κ} (m : Done A) (f : A → Done B) (b : B)
    → (m >>= f) ≡ done b
    → (a : A) × (m ≡ done a) × (f a ≡ done b)
>>=-eq_done (done a) f b h = (a, refl, h)
>>=-eq_done (fails e) f b h = cc

pub done-eq {ℓ} : {A : Type ℓ} (a b : A) → done a ≡ done b → a ≡ b
done-eq a b h = cc

pub sum_calls-snoc :
    (test : Fields → Bool) (rows : List Fields) (r : Fields)
    → test r ≡ true
    → sum_calls test (rows ++ r ∷ []) ≡ sum_calls test rows + calls_of r
unfolding sum_calls
sum_calls-snoc test [] r h = rw h (omega arith)
sum_calls-snoc test (x ∷ rows) r h = ground (arith, sum_calls-snoc test rows r h)

-- The pair of counters that a window is: used and reserved calls.
-- A reservation fits where all three stay within the limit.
unfoldable pub counters_reserve : ℕ → ℕ → ℕ × ℕ → Option (ℕ × ℕ)
counters_reserve limit calls (used, reserved) =
    if ltb limit (used + reserved + calls) then none else some (used, reserved + calls)

-- The counters take a step, and the store's totals are where it ends.
abbrev pub Simulates : Setting → PlanWindow → Store → Option (ℕ × ℕ) → Type 0
Simulates w base s o =
    (c : ℕ × ℕ) × (o ≡ some c) × (totals w s base.account base.resets_at ≡ done c)

reservation-IsEvent :
    (run provider : String) (base : PlanWindow) (calls : ℕ) (entry : String)
    → IsEvent (reservation run provider base calls entry)
unfolding reservation
reservation-IsEvent run provider base calls entry = record {
  no_sequence = refl;
  no_previous_hash = refl;
  no_record_hash = refl;
  no_signer_key_id = refl;
  no_signature = refl;
}

pub checked-eq_done {ℓ} :
    {A : Type ℓ} (o : Checked A) (a : A) → checked_journal o ≡ done a → o ≡ returns a
checked-eq_done (returns b) a h = ap returns (done-eq b a h)
checked-eq_done (raises e) a h = cc

window_with-eq :
    (base current : PlanWindow) (u r : ℕ)
    → window_with base (u, r) ≡ done current
    → current ≡ record base { used = u; reserved = r }
unfolding window_with
window_with-eq base current u r h =
    elim (Option-cases (check_window (record base { used = u; reserved = r }))) [
      | inl fine ↦ sym (done-eq _ _ (rw fine at h))
      | inr (e, bad) ↦ let refused = rw bad at h in cc
    ]

-- What a store with verified journals counts.
pub totals-verified :
    (w : Setting) (s : Store) (account resets : String) (registry_rows rows : List Fields)
    → verify_journal w.keys s.dispatch ≡ returns registry_rows
    → verify_journal w.keys s.reconciliation ≡ returns rows
    → totals w s account resets
      ≡ done (used_of account resets rows, reserved_of w account resets registry_rows rows)
unfolding totals
totals-verified w s account resets registry_rows rows e f = rw (e, f)

module _ (w : Setting) (run provider : String) (base : PlanWindow) (calls : ℕ)
    (entry now : String) where
  row-live :
      (n : ℕ) (p : String) (ids : List String) (later : Bool)
      → later ≡ true
      → is_named (str entry) ids ≡ false
      → is_live later base.account base.resets_at ids
          (new_row w.keys n p now (reservation run provider base calls entry))
        ≡ true
  unfolding new_row new_body signed reservation update put
  row-live n p ids later l f = rw (eq_refl base.account, eq_refl base.resets_at, l) (ground arith)

  row-calls :
      (n : ℕ) (p : String)
      → calls_of (new_row w.keys n p now (reservation run provider base calls entry)) ≡ calls
  unfolding new_row new_body signed reservation update put
  row-calls n p = refl

  -- The row as it is read back is live, and has its calls.
  read-live :
      (n : ℕ) (p : String) (ids : List String) (later : Bool) (read : Fields)
      → SameFields (new_row w.keys n p now (reservation run provider base calls entry)) read
      → later ≡ true
      → is_named (str entry) ids ≡ false
      → is_live later base.account base.resets_at ids read ≡ true
  read-live n p ids later read same l f =
      rw (same.gets "event", same.gets "account", same.gets "resets_at", same.gets "entry_id")
        (row-live n p ids later l f)

  reserved-snoc :
      (n : ℕ) (p : String) (registry_rows rows : List Fields) (read : Fields)
      → SameFields (new_row w.keys n p now (reservation run provider base calls entry)) read
      → w.later base.resets_at ≡ true
      → is_named (str entry) (named_ids w.keys (of_window base.account base.resets_at) rows) ≡ false
      → reserved_of w base.account base.resets_at (registry_rows ++ read ∷ []) rows
        ≡ reserved_of w base.account base.resets_at registry_rows rows + calls
  unfolding reserved_of
  reserved-snoc n p registry_rows rows read same later fresh =
      let ids = named_ids w.keys (of_window base.account base.resets_at) rows in
      let test = is_live (w.later base.resets_at) base.account base.resets_at ids in
      sum_calls-snoc test registry_rows read
        (read-live n p ids (w.later base.resets_at) read same later fresh)
      ∙ ap (λ c. sum_calls test registry_rows + c) (ap number (same.gets "calls") ∙ row-calls n p)

  -- The totals of the store with the longer registry.
  stepped :
      (j : Journal) (s : Store) (registry_rows rows : List Fields) (read : Fields) (u r : ℕ)
      → SameFields
          (new_row w.keys
            (suc (length registry_rows))
            (last_hash w.keys zero_hash registry_rows)
            now
            (reservation run provider base calls entry))
          read
      → w.later base.resets_at ≡ true
      → is_named (str entry) (named_ids w.keys (of_window base.account base.resets_at) rows) ≡ false
      → used_of base.account base.resets_at rows ≡ u
      → reserved_of w base.account base.resets_at registry_rows rows ≡ r
      → verify_journal w.keys j ≡ returns (registry_rows ++ read ∷ [])
      → verify_journal w.keys s.reconciliation ≡ returns rows
      → totals w (record s { dispatch = j }) base.account base.resets_at ≡ done (u, r + calls)
  stepped j s registry_rows rows read u r same later fresh used_same reserved_same e f =
      let n = suc (length registry_rows) in
      let p = last_hash w.keys zero_hash registry_rows in
      totals-verified w (record s { dispatch = j }) base.account base.resets_at
        (registry_rows ++ read ∷ []) rows e f
      ∙ rw (reserved-snoc n p registry_rows rows read same later fresh, used_same, reserved_same)

  -- A reservation of the ledger is a reservation of a pair of counters: where both journals verify
  -- and `totals` reads the counters c, the reset lies ahead, and the entry's id is not one that the
  -- reconciliation names, a reservation that is made fits the limit, and the totals afterwards are
  -- those of the counters after it. The registry's file is empty or ends with a newline, the new
  -- row's JSON text has no line break of `splitlines` in it and reads back with the same keys and
  -- values, a signature verifies, a digest is no empty text, and neither depends on the order of
  -- keys.
  pub reserve-refines :
      (s s' : Store) (registry_rows rows : List Fields) (read : Fields) (c : ℕ × ℕ)
      → IsSound w.keys
      → IsWhole s.dispatch.file
      → IsReadable w.keys
          (new_row w.keys
            (suc (length registry_rows))
            (last_hash w.keys zero_hash registry_rows)
            now
            (reservation run provider base calls entry))
          read
      → w.later base.resets_at ≡ true
      → verify_journal w.keys s.dispatch ≡ returns registry_rows
      → verify_journal w.keys s.reconciliation ≡ returns rows
      → is_named (str entry) (named_ids w.keys (of_window base.account base.resets_at) rows) ≡ false
      → totals w s base.account base.resets_at ≡ done c
      → reserve_locked w s run provider base calls entry now ≡ done s'
      → Simulates w base s' (counters_reserve base.limit calls c)
  unfolding reserve_locked counters_reserve
  reserve-refines s s' registry_rows rows read (u, r) sound whole readable later e f fresh counted
        h =
      let (_, _, after) = >>=-eq_done (preflight w s base) _ s' h in
      let (current, windowed, rest) =
        >>=-eq_done (window_with base (u, r)) _ s' (rw counted at after) in
      let tested = rw (window_with-eq base current u r windowed) at rest in
      elim (Bool-cases (ltb base.limit (u + r + calls))) [
        | inl over ↦ let refused = rw over at tested in cc
        | inr fits ↦
            let event = reservation run provider base calls entry in
            let appended =
              append_locked-verifies w.keys sound now event s.dispatch registry_rows read
                (reservation-IsEvent run provider base calls entry) whole readable e in
            let made = rw (fits, appended.0) at tested in
            let same_store =
              done-eq (record s { dispatch = extend w.keys now event registry_rows s.dispatch }) s'
                made in
            let used_now = used_of base.account base.resets_at rows in
            let reserved_now = reserved_of w base.account base.resets_at registry_rows rows in
            let both : done (used_now, reserved_now) ≡ done (u, r) =
              sym (totals-verified w s base.account base.resets_at registry_rows rows e f)
              ∙ counted in
            let same = done-eq (used_now, reserved_now) (u, r) both in
            (
              (u, r + calls),
              rw fits,
              rw (← same_store) (
                  stepped (extend w.keys now event registry_rows s.dispatch) s registry_rows rows
                    read u r readable.same later fresh (ap (λ x. x.0) same) (ap (λ x. x.1) same)
                    appended.1 f),
            )
      ]
