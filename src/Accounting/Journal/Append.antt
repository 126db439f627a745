-- ===== src/Accounting/Journal/Append.antt =====
-- A row appended to a verified journal leaves a verified journal.
use torq_cli_python.Prelude.{
  length-snoc, ℕ, suc, ◌+◌, String, ◌==◌, ◌≡◌, refl, ◌∙◌, sym, ap, Bool, true, false, List, [], ◌∷◌,
  ◌++◌, arith, length, if◌then◌else◌, eq_refl, eq_iff, Bool-cases, inl, inr,
}
use torq_cli_python.Json.{int, str, Fields, no_fields, field, get, has, value_eq, is_text}
use torq_cli_python.Accounting.Record.{
  get-without, put, without, update, without-put, has-put, has-put_self, get-put_self, get-update,
  has-update,
}
use torq_cli_python.Accounting.Lines.{IsWhole, append-IsWhole}
use torq_cli_python.Accounting.Journal.Reading.{
  IsSound, IsReadable, and_then-eq_returns, read_lines-append, verify_row-same,
}
use torq_cli_python.Accounting.Journal.{
  read_lines, verify_read, Keys, Journal, anchor, Checked, raises, returns, signed, unsigned,
  verify_signed, body_of, record_hash, shown, and_then, verify_row, verify_rows, verify_anchor,
  verify_journal, last_hash, new_body, new_row, new_anchor, extend, append_locked, zero_hash,
}

-- An event has none of the keys that the journal writes itself.
pub record IsEvent (event : Fields) : Type 0 where
  pub no_sequence : has "sequence" event ≡ false
  pub no_previous_hash : has "previous_hash" event ≡ false
  pub no_record_hash : has "record_hash" event ≡ false
  pub no_signer_key_id : has "signer_key_id" event ≡ false
  pub no_signature : has "signature" event ≡ false

-- What one round of the loop has found.
pub record RowParts (k : Keys) (n : ℕ) (p h : String) (row : Fields) : Type 0 where
  pub numbered : value_eq (get "sequence" (body_of k row)) (int n) ≡ true
  pub chained : is_text p (get "previous_hash" (body_of k row)) ≡ true
  pub hashed : k.hash (body_of k row) ≡ record_hash k row
  pub shows : record_hash k row ≡ h

pub verify_row-parts :
    (k : Keys) (n : ℕ) (p h : String) (row : Fields)
    → verify_row k n p row ≡ returns h
    → RowParts k n p h row
unfolding verify_row
verify_row-parts k n p h row e = ground (arith, eq_iff (k.hash (body_of k row)) (record_hash k row))

module _ (k : Keys) (sound : IsSound k) where
  signed-pop :
      (b : Fields)
      → has "signature" b ≡ false
      → without "signature" (signed k b) ≡ put "signer_key_id" (str k.key_id) b
  unfolding signed
  signed-pop b h =
      without-put "signature" (str (k.sign b)) (put "signer_key_id" (str k.key_id) b)
        (has-put "signature" "signer_key_id" (str k.key_id) b refl h)

  unsigned-signed :
      (b : Fields)
      → has "signature" b ≡ false
      → has "signer_key_id" b ≡ false
      → unsigned k (signed k b) ≡ b
  unsigned-signed b h g =
      ap (without "signer_key_id") (signed-pop b h) ∙ without-put "signer_key_id" (str k.key_id) b g

  signed-signature :
      (b : Fields)
      → (has "signature" (signed k b) ≡ true) × (get "signature" (signed k b) ≡ str (k.sign b))
  unfolding signed
  signed-signature b = (
    has-put_self "signature" _ (put "signer_key_id" (str k.key_id) b),
    get-put_self "signature" (str (k.sign b)) (put "signer_key_id" (str k.key_id) b),
  )

  verify_signed-signed :
      (b : Fields)
      → has "signature" b ≡ false
      → has "signer_key_id" b ≡ false
      → verify_signed k (signed k b) ≡ true
  unfolding verify_signed
  verify_signed-signed b h g =
      let marks = signed-signature b in
      rw
        (
          marks.0,
          marks.1,
          signed-pop b h,
          has-put_self "signer_key_id" (str k.key_id) b,
          get-put_self "signer_key_id" (str k.key_id) b,
          eq_refl k.key_id,
          without-put "signer_key_id" (str k.key_id) b g,
        )
        (sound.signs b)

  record_hash-shown :
      (row : Fields)
      → (record_hash k row == "") ≡ false
      → record_hash k row ≡ shown k (get "record_hash" row)
  record_hash-shown row n = elim (Bool-cases (has "record_hash" (unsigned k row))) [
    | inl present ↦ rw (
      present,
      get-without "record_hash" "signer_key_id" (without "signature" row) refl,
      get-without "record_hash" "signature" row refl,
    )
    | inr missing ↦ let empty = rw missing at n in cc
  ]

  -- A row that verifies shows the hash it was verified with.
  verify_row-shown :
      (n : ℕ) (p h : String) (row : Fields)
      → verify_row k n p row ≡ returns h
      → shown k (get "record_hash" row) ≡ h
  verify_row-shown n p h row e =
      let parts = verify_row-parts k n p h row e in
      sym (record_hash-shown row (rw (← parts.hashed) (sound.digests (body_of k row))))
      ∙ parts.shows

  last_hash-verified :
      (n : ℕ) (p h : String) (rows : List Fields)
      → verify_rows k n p rows ≡ returns h
      → last_hash k p rows ≡ h
  unfolding verify_rows last_hash
  last_hash-verified n p h [] e = cc
  last_hash-verified n p h (row ∷ rows) e =
      let (g, first, rest) =
        and_then-eq_returns k (verify_row k n p row) (λ x. verify_rows k (suc n) x rows) h e in
      rw (verify_row-shown n p g row first) (last_hash-verified (suc n) g h rows rest)

  verify_rows-snoc :
      (n : ℕ) (p h h' : String) (rows : List Fields) (row : Fields)
      → verify_rows k n p rows ≡ returns h
      → verify_row k (n + length rows) h row ≡ returns h'
      → verify_rows k n p (rows ++ row ∷ []) ≡ returns h'
  unfolding verify_rows
  verify_rows-snoc n p h h' [] row e f =
      let same : p ≡ h = cc in let here : n + 0 ≡ n = omega arith in rw (same, rw here at f)
  verify_rows-snoc n p h h' (r ∷ rows) row e f =
      let (g, first, rest) =
        and_then-eq_returns k (verify_row k n p r) (λ x. verify_rows k (suc n) x rows) h e in
      let there : n + suc (length rows) ≡ suc n + length rows = omega arith in
      rw first (verify_rows-snoc (suc n) g h h' rows row rest (rw there at f))

  verify_row-signed :
      (n : ℕ) (p : String) (b : Fields)
      → has "record_hash" b ≡ false
      → has "signer_key_id" b ≡ false
      → has "signature" b ≡ false
      → get "sequence" b ≡ int n
      → get "previous_hash" b ≡ str p
      → verify_row k n p (signed k (put "record_hash" (str (k.hash b)) b)) ≡ returns (k.hash b)
  unfolding verify_row value_eq
  verify_row-signed n p b no_hash no_id no_mark numbered chained =
      let no_mark' = has-put "signature" "record_hash" (str (k.hash b)) b refl no_mark in
      let no_id' = has-put "signer_key_id" "record_hash" (str (k.hash b)) b refl no_id in
      rw
        (
          verify_signed-signed (put "record_hash" (str (k.hash b)) b) no_mark' no_id',
          unsigned-signed (put "record_hash" (str (k.hash b)) b) no_mark' no_id',
          without-put "record_hash" (str (k.hash b)) b no_hash,
          has-put_self "record_hash" (str (k.hash b)) b,
          get-put_self "record_hash" (str (k.hash b)) b,
          numbered,
          chained,
          eq_refl p,
          eq_refl (k.hash b),
        )
        (ground arith)

  verify_row-new :
      (n : ℕ) (p now : String) (event : Fields)
      → IsEvent event
      → verify_row k n p (new_row k n p now event) ≡ returns (k.hash (new_body k n p now event))
  unfolding new_row new_body
  verify_row-new n p now event v =
      let base =
        field "sequence" (int n)
          (field "previous_hash" (str p) (field "recorded_at" (str now) no_fields)) in
      verify_row-signed n p (update base event)
        (has-update "record_hash" base event refl v.no_record_hash)
        (has-update "signer_key_id" base event refl v.no_signer_key_id)
        (has-update "signature" base event refl v.no_signature)
        (get-update "sequence" base event v.no_sequence)
        (get-update "previous_hash" base event v.no_previous_hash)

  new_anchor-signed : (n : ℕ) (h : String) → verify_signed k (new_anchor k n h) ≡ true
  unfolding new_anchor
  new_anchor-signed n h =
      verify_signed-signed
        (field "schema_version" (str "1.0.0")
          (field "head" (str h) (field "count" (int n) no_fields)))
        refl refl

  pub verify_anchor-new :
      (n : ℕ) (h : String) → verify_anchor k n h (anchor (new_anchor k n h)) ≡ returns tt
  unfolding verify_anchor new_anchor signed put value_eq
  verify_anchor-new n h =
      let valid : verify_signed k (new_anchor k n h) ≡ true = new_anchor-signed n h in
      rw (valid, eq_refl h) (ground arith)

  past_anchor :
      (b : Bool) (o : Checked (Unit {0})) (xs rows : List Fields)
      → (if b then returns xs else and_then k o (λ _. returns xs)) ≡ returns rows
      → rows ≡ xs
  past_anchor true o xs rows h = cc
  past_anchor false (returns _) xs rows h = cc
  past_anchor false (raises e) xs rows h = cc

  -- The rows of a journal that verifies are those of its file, and they verify.
  pub verify_journal-rows :
      (j : Journal) (rows : List Fields)
      → verify_journal k j ≡ returns rows
      → (read_lines k j.file ≡ returns rows)
        × (h : String) × (verify_rows k 1 zero_hash rows ≡ returns h)
  unfolding verify_journal verify_read
  verify_journal-rows j rows e =
      let (read, found, tested) =
        and_then-eq_returns k (read_lines k j.file) (verify_read k j.head) rows e in
      let (h, verified, rest) =
        and_then-eq_returns k (verify_rows k 1 zero_hash read) _ rows tested in
      let same : rows ≡ read = past_anchor _ _ read rows rest in
      (rw same found, h, rw same verified)

  -- Rows under a fresh anchor verify.
  pub verify_read-new :
      (rows : List Fields) (h : String)
      → verify_rows k 1 zero_hash rows ≡ returns h
      → verify_read k (anchor (new_anchor k (length rows) h)) rows ≡ returns rows
  unfolding verify_read
  verify_read-new [] h e = rw (e, verify_anchor-new 0 h)
  verify_read-new (x ∷ xs) h e = rw (e, verify_anchor-new (suc (length xs)) h)

  -- Appending an event to a journal that verifies writes the line of the new row, and the journal
  -- verifies again, with the same rows and the new one as it is read back. The conditions: the
  -- file is empty or ends with a newline; the event has none of the keys that the journal writes;
  -- the new row's JSON text has no line break of `splitlines` in it and reads back as a mapping
  -- with the same keys and values; a signature of a body verifies, a digest is no empty text, and
  -- neither depends on the order of keys.
  pub append_locked-verifies :
      (now : String) (event : Fields) (j : Journal) (rows : List Fields) (read : Fields)
      → IsEvent event
      → IsWhole j.file
      → IsReadable k (new_row k (suc (length rows)) (last_hash k zero_hash rows) now event) read
      → verify_journal k j ≡ returns rows
      → (append_locked k now event j ≡ returns (extend k now event rows j))
        × (verify_journal k (extend k now event rows j) ≡ returns (rows ++ read ∷ []))
        × IsWhole (extend k now event rows j).file
  unfolding append_locked extend verify_journal
  append_locked-verifies now event j rows read v whole r e =
      let (found, h, verified) = verify_journal-rows j rows e in
      let last = last_hash-verified 1 zero_hash h rows verified in
      let n = suc (length rows) in
      let previous = last_hash k zero_hash rows in
      let row = new_row k n previous now event in
      let digest = k.hash (new_body k n previous now event) in
      let numbered : 1 + length rows ≡ n = omega arith in
      let new : verify_row k (1 + length rows) h read ≡ returns digest =
        rw (numbered, ← last)
          (verify_row-same k n previous row read sound r.same
            ∙ verify_row-new n previous now event v) in
      let longer = verify_rows-snoc 1 zero_hash h digest rows read verified new in
      let fresh =
        rw (length-snoc read rows) at (verify_read-new (rows ++ read ∷ []) digest longer) in
      (
        rw e refl,
        rw (read_lines-append k j.file rows row read whole r found) fresh,
        inr (append-IsWhole j.file (k.canonical row)),
      )
