-- ===== src/Accounting/Enrollment/Tests.antt =====
-- A run that is enrolled twice, a registry whose anchor is lost, and a change of trust.
use torq_cli_python.Prelude.{◌≡◌, refl, none, some, [], ◌∷◌, List, length, suc, inl}
use torq_cli_python.Json.{Fields, value_eq}
use torq_cli_python.Accounting.Record.{put, without, update}
use torq_cli_python.Accounting.Lines.{is_break, splitlines, lines_from}
use torq_cli_python.Accounting.Journal.{
  Keys, Journal, absent, returns, signed, verify_signed, verify_row, verify_rows, read_rows,
  read_lines, verify_read, verify_journal, last_hash, new_body, new_row, new_anchor, extend,
  append_locked, zero_hash,
}
use torq_cli_python.Accounting.Journal.Reading.{IsReadable}
use torq_cli_python.Accounting.Journal.Sample.{keys_for, keys_for-IsSound, row-SameFields}
use torq_cli_python.Accounting.Enrollment.{
  registry_root_trust_change_invalid, registry_root_trust_status_invalid, Root, any_enrollment,
  enrollment, enroll, set_root_trust, reanchor,
}
use torq_cli_python.Accounting.Enrollment.Again.{enroll-enroll, reanchor-verifies}

abbrev blank : Journal
blank = record { file = []; head = absent }

abbrev joined : Fields
joined = enrollment "run-1" "plan" "2030-01-01T00:00:00Z" "key" "enroll-1"

abbrev bare : Keys
bare = keys_for []

abbrev row1 : Fields
row1 = new_row bare 1 zero_hash "t1" joined

abbrev keys : Keys
keys = keys_for (row1 ∷ [])

abbrev no_rows : List Fields
no_rows = []

abbrev enrolled_journal : Journal
enrolled_journal = extend keys "t1" joined no_rows blank

blank_verifies : verify_journal keys blank ≡ returns no_rows
unfolding verify_journal verify_read read_lines read_rows splitlines lines_from verify_rows
blank_verifies = refl

row1-IsReadable :
    IsReadable keys
      (new_row keys (suc (length no_rows)) (last_hash keys zero_hash no_rows) "t1" joined)
      row1
unfolding new_row new_body signed put update last_hash is_break enrollment
row1-IsReadable = record { unbroken = refl; decoded = refl; same = row-SameFields row1 }

enrolls :
    enroll keys "run-1" "plan" "2030-01-01T00:00:00Z" (some "key") "enroll-1" "t1" blank
    ≡ returns enrolled_journal
unfolding enroll any_enrollment append_locked
enrolls = rw blank_verifies refl

enroll-enroll_example :
    enroll keys "run-1" "plan" "2030-01-01T00:00:00Z" none "enroll-2" "t2" enrolled_journal
    ≡ returns enrolled_journal
enroll-enroll_example =
    enroll-enroll keys (keys_for-IsSound (row1 ∷ [])) "run-1" "plan" "2030-01-01T00:00:00Z"
      "enroll-1" "t1" "enroll-2" "t2" (some "key") none blank enrolled_journal no_rows row1
      (inl refl) blank_verifies row1-IsReadable enrolls

abbrev lost : Journal
lost = record enrolled_journal { head = absent }

reanchors : reanchor keys "operator" "confirmed" 1000 lost ≡ (enrolled_journal, none)
unfolding reanchor read_lines read_rows splitlines lines_from verify_rows verify_row verify_signed
    extend last_hash new_body new_row new_anchor signed put without update value_eq enrollment
reanchors = refl

reanchor-verifies_example :
    (rows : List Fields) × (read_lines keys lost.file ≡ returns rows)
    × (verify_journal keys enrolled_journal ≡ returns rows)
reanchor-verifies_example =
    reanchor-verifies keys (keys_for-IsSound (row1 ∷ [])) "operator" "confirmed" 1000 lost
      enrolled_journal reanchors

-- Another root, with a digest that does not look at the key.
abbrev root : Root
root = record { keys = keys; own_key = []; fingerprint = λ key. "root-2"; hex = λ key. "00" }

short_key_refused :
    set_root_trust root "root-2" "distrusted" "operator" (some (1 ∷ [])) "trust-1" "t1" blank
    ≡ (blank, some registry_root_trust_change_invalid)
unfolding set_root_trust
short_key_refused = refl

status_refused :
    set_root_trust root "root-2" "unknown" "operator" (some (1 ∷ [])) "trust-1" "t1" blank
    ≡ (blank, some registry_root_trust_status_invalid)
unfolding set_root_trust
status_refused = refl
