-- ===== src/Accounting/Journal/Reading.antt =====
-- What is read back from the file that a row was written to.
use torq_cli_python.Prelude.{
  ℕ, String, ◌==◌, ◌≡◌, refl, true, false, some, List, [], ◌∷◌, ◌++◌, any,
}
use torq_cli_python.Json.{Value, str, obj, Fields, get}
use torq_cli_python.Accounting.Record.{SameFields, without, without-SameFields}
use torq_cli_python.Accounting.Lines.{is_break, splitlines, IsWhole, splitlines-append}
use torq_cli_python.Accounting.Journal.{
  Keys, Checked, returns, raises, body_of, unsigned, verify_signed, verify_row, encoded, read_rows,
  read_row, read_lines, and_then,
}

-- What signing and hashing promise: a signature of a body verifies, a digest is no empty text, and
-- neither depends on the order of the keys, which `_canonical` sorts.
pub record IsSound (k : Keys) : Type 0 where
  pub signs : (b : Fields) → k.is_signature (str (k.sign b)) b ≡ true
  pub digests : (b : Fields) → (k.hash b == "") ≡ false
  pub hash_order : (b c : Fields) → SameFields b c → k.hash c ≡ k.hash b
  pub sign_order :
      (v : Value) (b c : Fields) → SameFields b c → k.is_signature v c ≡ k.is_signature v b

-- A row's JSON text has no line break in it, and `json.loads` reads it as a mapping with the same
-- keys and values.
pub record IsReadable (k : Keys) (row read : Fields) : Type 0 where
  pub unbroken : any is_break (k.canonical row) ≡ false
  pub decoded : k.loads (k.canonical row) ≡ some (obj read)
  pub same : SameFields row read

-- A first step that returned, and the steps after it.
pub and_then-eq_returns {ℓ κ} :
    {A : Type ℓ} {B : Type κ} (k : Keys) (o : Checked A) (f : A → Checked B) (b : B)
    → and_then k o f ≡ returns b
    → (a : A) × (o ≡ returns a) × (f a ≡ returns b)
and_then-eq_returns k (returns a) f b h = (a, refl, h)
and_then-eq_returns k (raises e) f b h = cc

read_rows-snoc :
    (k : Keys) (lines : List (List ℕ)) (line : List ℕ) (rows : List Fields) (row : Fields)
    → read_rows k lines ≡ returns rows
    → k.loads line ≡ some (obj row)
    → read_rows k (lines ++ line ∷ []) ≡ returns (rows ++ row ∷ [])
unfolding read_rows
read_rows-snoc k [] line rows row h e = let same : [] ≡ rows = cc in rw (← same) (rw e refl)
read_rows-snoc k (l ∷ lines) line rows row h e =
    let (r, first, rest) = and_then-eq_returns k (read_row k (k.loads l)) _ rows h in
    let (rs, more, last) = and_then-eq_returns k (read_rows k lines) _ rows rest in
    let same : r ∷ rs ≡ rows = cc in
    rw (← same) (rw (first, read_rows-snoc k lines line rs row more e) refl)

-- A file with one more readable row reads as its rows and that one.
pub read_lines-append :
    (k : Keys) (file : List ℕ) (rows : List Fields) (row read : Fields)
    → IsWhole file
    → IsReadable k row read
    → read_lines k file ≡ returns rows
    → read_lines k (file ++ encoded k row) ≡ returns (rows ++ read ∷ [])
unfolding read_lines
read_lines-append k file rows row read whole r h =
    rw (splitlines-append file (k.canonical row) whole r.unbroken)
      (read_rows-snoc k (splitlines file) (k.canonical row) rows read h r.decoded)

-- A row verifies as what was written.
pub verify_row-same :
    (k : Keys) (n : ℕ) (p : String) (row read : Fields)
    → IsSound k
    → SameFields row read
    → verify_row k n p read ≡ verify_row k n p row
unfolding verify_row verify_signed
verify_row-same k n p row read sound same =
    let same1 = without-SameFields "signature" row read same in
    let same2 =
      without-SameFields "signer_key_id" (without "signature" row) (without "signature" read)
        same1 in
    let same3 = without-SameFields "record_hash" (unsigned k row) (unsigned k read) same2 in
    rw (
      same.keys "signature",
      same.gets "signature",
      same1.keys "signer_key_id",
      same1.gets "signer_key_id",
      sound.sign_order (get "signature" row) (unsigned k row) (unsigned k read) same2,
      same2.keys "record_hash",
      same2.gets "record_hash",
      same3.gets "sequence",
      same3.gets "previous_hash",
      sound.hash_order (body_of k row) (body_of k read) same3,
    )
