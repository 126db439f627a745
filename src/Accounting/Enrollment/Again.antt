-- ===== src/Accounting/Enrollment/Again.antt =====
-- Enrolling a run twice, and a registry with a new anchor.
use torq_cli_python.Prelude.{
  ℕ, suc, String, ◌≡◌, refl, ap, true, ◌||◌, ◌==◌, Option, none, List, [], ◌∷◌, ◌++◌, arith, ltb,
  length, eq_refl, Bool-cases, inl, inr, ◌⊎◌,
}
use torq_cli_python.Json.{Fields}
use torq_cli_python.Accounting.Record.{SameFields, put, update}
use torq_cli_python.Accounting.Journal.{
  RegistryError, Checked, raises, returns, Keys, Journal, signed, verify_rows, verify_journal,
  read_lines, last_hash, new_body, new_row, extend, zero_hash,
}
use torq_cli_python.Accounting.Journal.Append.{IsEvent, append_locked-verifies, verify_read-new}
use torq_cli_python.Accounting.Journal.Reading.{IsSound, IsReadable}
use torq_cli_python.Accounting.Lines.{IsWhole}
use torq_cli_python.Accounting.Enrollment.{
  anchored, is_enrollment, any_enrollment, root_or, enrollment, enroll, reanchor,
}

enrollment-IsEvent :
    (run account resets root entry : String) → IsEvent (enrollment run account resets root entry)
unfolding enrollment
enrollment-IsEvent run account resets root entry = record {
  no_sequence = refl;
  no_previous_hash = refl;
  no_record_hash = refl;
  no_signer_key_id = refl;
  no_signature = refl;
}

any_enrollment-snoc :
    (run account resets : String) (rows : List Fields) (r : Fields)
    → is_enrollment run account resets r ≡ true
    → any_enrollment run account resets (rows ++ r ∷ []) ≡ true
unfolding any_enrollment
any_enrollment-snoc run account resets [] r h = rw h
any_enrollment-snoc run account resets (x ∷ rows) r h =
    ground (arith, any_enrollment-snoc run account resets rows r h)

Checked-cases {ℓ} :
    {A : Type ℓ} (o : Checked A)
    → ((a : A) × (o ≡ returns a)) ⊎ ((e : RegistryError) × (o ≡ raises e))
Checked-cases (returns a) = inl (a, refl)
Checked-cases (raises e) = inr (e, refl)

module _ (k : Keys) (sound : IsSound k) where
  row-is_enrollment :
      (run account resets root entry now p : String) (n : ℕ)
      → is_enrollment run account resets
          (new_row k n p now (enrollment run account resets root entry))
        ≡ true
  unfolding new_row new_body signed enrollment update put
  row-is_enrollment run account resets root entry now p n =
      rw (eq_refl run, eq_refl account, eq_refl resets)

  enroll-known :
      (run account resets entry now : String) (root : Option String) (j : Journal)
      (rows : List Fields)
      → verify_journal k j ≡ returns rows
      → any_enrollment run account resets rows ≡ true
      → enroll k run account resets root entry now j ≡ returns j
  unfolding enroll
  enroll-known run account resets entry now root j rows e known = rw (e, known)

  read-is_enrollment :
      (run account resets root entry now p : String) (n : ℕ) (read : Fields)
      → SameFields (new_row k n p now (enrollment run account resets root entry)) read
      → is_enrollment run account resets read ≡ true
  read-is_enrollment run account resets root entry now p n read same =
      rw (same.gets "event", same.gets "run_id", same.gets "account", same.gets "resets_at")
        (row-is_enrollment run account resets root entry now p n)

  -- Once an enrollment has returned, enrolling the same run in the same window again, under any
  -- root, id and time, leaves the journal as it is. The conditions, for the journal that the first
  -- call reads: the file is empty or ends with a newline, the JSON text of the row it may append has
  -- no line break of `splitlines` in it and reads back with the same keys and values, a signature
  -- verifies, a digest is no empty text, and neither depends on the order of keys.
  pub enroll-enroll :
      (run account resets entry now entry' now' : String) (root root' : Option String)
      (j j' : Journal) (rows : List Fields) (read : Fields)
      → IsWhole j.file
      → verify_journal k j ≡ returns rows
      → IsReadable k
          (new_row k
            (suc (length rows))
            (last_hash k zero_hash rows)
            now
            (enrollment run account resets (root_or root k.key_id) entry))
          read
      → enroll k run account resets root entry now j ≡ returns j'
      → enroll k run account resets root' entry' now' j' ≡ returns j'
  unfolding enroll
  enroll-enroll run account resets entry now entry' now' root root' j j' rows read whole e readable
        h =
      elim (Bool-cases (any_enrollment run account resets rows)) [
        | inl known ↦
            let same : j ≡ j' = let kept = rw (e, known) at h in cc in
            rw (← same) (enroll-known run account resets entry' now' root' j rows e known)
        | inr new ↦
            let own = root_or root k.key_id in
            let event = enrollment run account resets own entry in
            let appended =
              append_locked-verifies k sound now event j rows read
                (enrollment-IsEvent run account resets own entry) whole readable e in
            let same : extend k now event rows j ≡ j' =
              let made = rw (e, new, appended.0) at h in cc in
            rw (← same) (
              enroll-known run account resets entry' now' root' (extend k now event rows j)
                (rows ++ read ∷ []) appended.1
                (any_enrollment-snoc run account resets rows read (
                  read-is_enrollment run account resets own entry now (last_hash k zero_hash rows)
                    (suc (length rows)) read readable.same)))
      ]

  anchored-verifies :
      (limit : ℕ) (j j' : Journal) (rows : List Fields)
      → read_lines k j.file ≡ returns rows
      → anchored k limit j rows (verify_rows k 1 zero_hash rows) ≡ (j', none)
      → verify_journal k j' ≡ returns rows
  unfolding verify_journal
  anchored-verifies limit j j' rows found h =
      elim (Checked-cases (verify_rows k 1 zero_hash rows)) [
        | inr (e, bad) ↦ let refused = rw bad at h in cc
        | inl (head, e) ↦ elim (Bool-cases (ltb limit (length rows))) [
          | inl over ↦ let refused = rw (e, over) at h in cc
          | inr fits ↦
              let made = rw (e, fits) at h in
              rw (← ap (λ x. x.0) made) (rw found (verify_read-new k sound rows head e))
        ]
      ]

  -- A registry that was given a new anchor without an error verifies with the rows that its file
  -- holds, whatever its old anchor was, where a signature of a body verifies and a digest is no
  -- empty text, and neither depends on the order of keys.
  pub reanchor-verifies :
      (actor confirmation : String) (limit : ℕ) (j j' : Journal)
      → reanchor k actor confirmation limit j ≡ (j', none)
      → (rows : List Fields) × (read_lines k j.file ≡ returns rows)
        × (verify_journal k j' ≡ returns rows)
  unfolding reanchor
  reanchor-verifies actor confirmation limit j j' h =
      elim (Bool-cases (actor == "" || confirmation == "")) [
        | inl missing ↦ let refused = rw missing at h in cc
        | inr given ↦ elim (Checked-cases (read_lines k j.file)) [
          | inr (e, bad) ↦ let refused = rw (given, bad) at h in cc
          | inl (rows, found) ↦
              (rows, found, anchored-verifies limit j j' rows found (rw (given, found) at h))
        ]
      ]
