-- ===== src/Accounting/Journal/Tests.antt =====
-- A journal of one run, appended to and compared.
use mathlib.Core.List.Memᴰ.{head, tail}
use torq_cli_python.Prelude.{String, ◌≡◌, ◌∙◌, sym, ap, refl, List, [], ◌∷◌, length, suc, map, inr}
use torq_cli_python.Json.{str, Fields, field, no_fields, value_eq}
use torq_cli_python.Evidence.Payload.Shape.{codes}
use torq_cli_python.Accounting.Record.{put, without, update}
use torq_cli_python.Accounting.Lines.{is_break, splitlines, lines_from, IsWhole}
use torq_cli_python.Accounting.Journal.{
  Keys, Journal, absent, anchor, returns, raises, json_error, body_of, signed, verify_signed,
  verify_row, verify_rows, verify_anchor, read_rows, read_lines, verify_read, verify_journal,
  last_hash, new_body, new_row, new_anchor, extend, append_locked, zero_hash,
}
use torq_cli_python.Accounting.Journal.Reading.{IsReadable}
use torq_cli_python.Accounting.Journal.Append.{IsEvent, append_locked-verifies}
use torq_cli_python.Accounting.Journal.Sample.{keys_for, keys_for-IsSound, row-SameFields}
use torq_cli_python.Accounting.Journal.Tamper.{IsCollisionFree, same_anchor-same_records}

abbrev event : String → Fields
event name = field "event" (str name) (field "account" (str "plan") no_fields)

abbrev blank : Journal
blank = record { file = []; head = absent }

abbrev bare : Keys
bare = keys_for []

abbrev row1 : Fields
row1 = new_row bare 1 zero_hash "t1" (event "run_enrolled")

abbrev row2 : Fields
row2 = new_row bare 2 "run_enrolled" "t2" (event "reservation_created")

abbrev keys : Keys
keys = keys_for (row1 ∷ row2 ∷ [])

abbrev one_row : List Fields
one_row = row1 ∷ []

abbrev one : Journal
one = extend keys "t1" (event "run_enrolled") [] blank

abbrev two : Journal
two = extend keys "t2" (event "reservation_created") one_row one

event-IsEvent : IsEvent (event "reservation_created")
event-IsEvent = record {
  no_sequence = refl;
  no_previous_hash = refl;
  no_record_hash = refl;
  no_signer_key_id = refl;
  no_signature = refl;
}

one_verifies : verify_journal keys one ≡ returns one_row
unfolding verify_journal verify_read read_lines read_rows splitlines lines_from verify_rows
    verify_row verify_anchor verify_signed extend last_hash new_body new_row new_anchor signed put
    without update value_eq
one_verifies = refl

one-IsWhole : IsWhole one.file
unfolding extend new_row new_body signed put update
one-IsWhole = inr (codes "run_enrolled", refl)

row2-IsReadable :
    IsReadable keys
      (new_row keys
        (suc (length one_row))
        (last_hash keys zero_hash one_row)
        "t2"
        (event "reservation_created"))
      row2
unfolding new_row new_body signed put update last_hash is_break
row2-IsReadable = record { unbroken = refl; decoded = refl; same = row-SameFields row2 }

append_locked-verifies_example :
    (append_locked keys "t2" (event "reservation_created") one ≡ returns two)
    × (verify_journal keys two ≡ returns (row1 ∷ row2 ∷ []))
    × IsWhole two.file
append_locked-verifies_example =
    append_locked-verifies keys (keys_for-IsSound (row1 ∷ row2 ∷ [])) "t2"
      (event "reservation_created") one one_row row2 event-IsEvent one-IsWhole row2-IsReadable
      one_verifies

-- A line break in a row's text makes two lines of it, which are no JSON.
broken_text : read_lines bare (8232 ∷ 10 ∷ []) ≡ raises json_error
unfolding read_lines read_rows splitlines lines_from is_break
broken_text = refl

abbrev head_of_one : Fields
head_of_one = new_anchor keys 1 (keys.hash (new_body keys 1 zero_hash "t1" (event "run_enrolled")))

one_row-IsCollisionFree : IsCollisionFree keys one_row one_row
one_row-IsCollisionFree x y (head e) (head f) h = ap (body_of keys) (e ∙ sym f)
one_row-IsCollisionFree x y (tail m) n h = elim m [ ]
one_row-IsCollisionFree x y m (tail n) h = elim n [ ]

one_row_verifies :
    verify_journal keys (record { file = one.file; head = anchor head_of_one }) ≡ returns one_row
unfolding verify_journal verify_read read_lines read_rows splitlines lines_from verify_rows
    verify_row verify_anchor verify_signed extend last_hash new_body new_row new_anchor signed put
    without update value_eq
one_row_verifies = refl

same_anchor-same_records_example : map (body_of keys) one_row ≡ map (body_of keys) one_row
same_anchor-same_records_example =
    same_anchor-same_records keys head_of_one one.file one.file one_row one_row
      one_row-IsCollisionFree one_row_verifies one_row_verifies
