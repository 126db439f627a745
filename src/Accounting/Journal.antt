-- ===== src/Accounting/Journal.antt =====
-- A journal: a file of rows, a JSON text to a line, that are signed and chained by hashes, and an
-- anchor that signs their head and count (`_read_lines`, `_verify_rows`, `_verify_journal`,
-- `_append_locked`).
pub mod Reading
pub mod Append
pub mod Tamper
pub mod Sample
mod Tests
use torq_cli_python.Prelude.{
  ℕ, suc, String, ◌==◌, Bool, true, false, ◌&&◌, ◌||◌, not, Option, none, some, List, [], ◌∷◌, ◌++◌,
  length, if◌then◌else◌,
}
use torq_cli_python.Json.{
  Value, int, str, obj, Fields, no_fields, field, get, has, value_eq, is_text,
}
use torq_cli_python.Accounting.Record.{put, without, update}
use torq_cli_python.Accounting.Lines.{splitlines}

-- The messages of `RegistryRollbackError`, and `json.JSONDecodeError`.
pub data RegistryError : Type 0 where
  registry_anchor_missing registry_anchor_invalid registry_rollback_detected : RegistryError
  registry_signature_invalid registry_chain_invalid registry_hash_invalid : RegistryError
  registry_record_invalid json_error : RegistryError

-- What a method returns, or the error it raises.
pub data Checked {ℓ} (A : Type ℓ) : Type ℓ where
  raises : RegistryError → Checked A
  returns : A → Checked A

-- `json`, `hashlib` and the signing key: the text of `json.dumps` as `_canonical` calls it and the
-- value of `json.loads` on a text, which may be no JSON (texts as code points); the hex digest of a mapping's canonical form, the hex signature
-- of it, whether a value is such a signature, the key's id, and Python's `str` of a value that is
-- no text.
pub record Keys : Type 0 where
  pub canonical : Fields → List ℕ
  pub loads : List ℕ → Option Value
  pub hash : Fields → String
  pub sign : Fields → String
  pub is_signature : Value → Fields → Bool
  pub key_id : String
  pub render : Value → String

-- The file that holds the anchor: none, no JSON, JSON that is no mapping, or a mapping.
pub data Anchor : Type 0 where
  absent unreadable other_value : Anchor
  anchor : Fields → Anchor

-- The text of the journal's file, empty where there is none, and its anchor.
pub record Journal : Type 0 where
  pub file : List ℕ
  pub head : Anchor

abbrev pub zero_hash : String
zero_hash = "0000000000000000000000000000000000000000000000000000000000000000"

module _ (k : Keys) where
  -- `str(value)`
  abbrev pub shown : Value → String
  shown (str s) = s
  shown v = k.render v

  -- `_signed`
  unfoldable pub signed : Fields → Fields
  signed body = put "signature" (str (k.sign body)) (put "signer_key_id" (str k.key_id) body)

  -- The body that a signature is over.
  abbrev pub unsigned : Fields → Fields
  unsigned row = without "signer_key_id" (without "signature" row)

  -- `_verify_signed`
  unfoldable pub verify_signed : Fields → Bool
  verify_signed row =
      has "signature" row
      && (has "signer_key_id" (without "signature" row)
          && (shown (get "signer_key_id" (without "signature" row)) == k.key_id
              && k.is_signature (get "signature" row) (unsigned row)))

  -- The body of a row, and `str(body.pop("record_hash", ""))`
  abbrev pub body_of : Fields → Fields
  body_of row = without "record_hash" (unsigned row)

  abbrev pub record_hash : Fields → String
  record_hash row =
      if has "record_hash" (unsigned row) then shown (get "record_hash" (unsigned row)) else ""

  abbrev pub and_then {ℓ κ} : {A : Type ℓ} {B : Type κ} → Checked A → (A → Checked B) → Checked B
  and_then (raises e) f = raises e
  and_then (returns a) f = f a

  -- One round of the loop of `_verify_rows`: the hash of the row.
  unfoldable pub verify_row : ℕ → String → Fields → Checked String
  verify_row n previous row =
      if not (verify_signed row)
      then raises registry_signature_invalid
      else if not (value_eq (get "sequence" (body_of row)) (int n))
          || not (is_text previous (get "previous_hash" (body_of row)))
      then raises registry_chain_invalid
      else if not (k.hash (body_of row) == record_hash row)
      then raises registry_hash_invalid
      else returns (record_hash row)

  -- `_verify_rows`, from a sequence and a previous hash on.
  unfoldable pub verify_rows : ℕ → String → List Fields → Checked String
  verify_rows n previous [] = returns previous
  verify_rows n previous (row ∷ rows) =
      and_then (verify_row n previous row) (λ h. verify_rows (suc n) h rows)

  -- The tests on the anchor, with the count of the rows and their head.
  unfoldable pub verify_anchor : ℕ → String → Anchor → Checked (Unit {0})
  verify_anchor n head (anchor a) =
      if not (verify_signed a)
      then raises registry_anchor_invalid
      else if not (value_eq (get "count" a) (int n)) || not (is_text head (get "head" a))
      then raises registry_rollback_detected
      else returns tt
  verify_anchor n head other_value = raises registry_anchor_invalid
  verify_anchor n head _ = raises registry_anchor_missing

  -- One round of the loop of `_read_lines`: a line's value must be a mapping.
  abbrev pub read_row : Option Value → Checked Fields
  read_row (some (obj row)) = returns row
  read_row (some _) = raises registry_record_invalid
  read_row none = raises json_error

  unfoldable pub read_rows : List (List ℕ) → Checked (List Fields)
  read_rows [] = returns []
  read_rows (line ∷ lines) =
      and_then (read_row (k.loads line))
        (λ row. and_then (read_rows lines) (λ rows. returns (row ∷ rows)))

  -- `_read_lines`
  unfoldable pub read_lines : List ℕ → Checked (List Fields)
  read_lines file = read_rows (splitlines file)

  -- `not (rows or anchor_path.exists())`
  abbrev nothing_stored : List Fields → Anchor → Bool
  nothing_stored [] absent = true
  nothing_stored _ _ = false

  -- `_verify_journal`, once the rows are read.
  unfoldable pub verify_read : Anchor → List Fields → Checked (List Fields)
  verify_read head rows = and_then (verify_rows 1 zero_hash rows) (λ previous.
      if nothing_stored rows head
      then returns rows
      else and_then (verify_anchor (length rows) previous head) (λ _. returns rows))

  -- `_verify_journal`
  unfoldable pub verify_journal : Journal → Checked (List Fields)
  verify_journal j = and_then (read_lines j.file) (verify_read j.head)

  -- `str(rows[-1]["record_hash"]) if rows else _ZERO_HASH`, of the rows and what stands before.
  unfoldable pub last_hash : String → List Fields → String
  last_hash previous [] = previous
  last_hash previous (row ∷ rows) = last_hash (shown (get "record_hash" row)) rows

  -- The body of a new row.
  unfoldable pub new_body : ℕ → String → String → Fields → Fields
  new_body n previous now event =
      update
        (field "sequence" (int n)
          (field "previous_hash" (str previous) (field "recorded_at" (str now) no_fields)))
        event

  unfoldable pub new_row : ℕ → String → String → Fields → Fields
  new_row n previous now event =
      let body = new_body n previous now event in
      signed (put "record_hash" (str (k.hash body)) body)

  unfoldable pub new_anchor : ℕ → String → Fields
  new_anchor n head = signed (
      field "schema_version" (str "1.0.0")
        (field "head" (str head) (field "count" (int n) no_fields)))

  -- The line that a row is written as: `_canonical(signed) + b"\n"`
  abbrev pub encoded : Fields → List ℕ
  encoded row = k.canonical row ++ 10 ∷ []

  -- What `_append_locked` writes after the rows that it has read: the line at the end of the file,
  -- and a new anchor.
  unfoldable pub extend : String → Fields → List Fields → Journal → Journal
  extend now event rows j =
      let n = suc (length rows) in
      let previous = last_hash zero_hash rows in
      record {
        file = j.file ++ encoded (new_row n previous now event);
        head = anchor (new_anchor n (k.hash (new_body n previous now event)));
      }

  -- `_append_locked`, at a time.
  unfoldable pub append_locked : String → Fields → Journal → Checked Journal
  append_locked now event j =
      and_then (verify_journal j) (λ rows. returns (extend now event rows j))
