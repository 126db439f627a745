-- ===== src/Accounting/Journal/Sample.antt =====
-- A stand-in for the signing key and for `json`, to run the journals with.
use torq_cli_python.Prelude.{
  ℕ, String, ◌==◌, eq_iff, inl, inr, Bool, Bool-cases, ◌≡◌, refl, ap, true, false, ◌&&◌, Option,
  none, some, List, [], ◌∷◌, eqb, if◌then◌else◌,
}
use torq_cli_python.Json.{Value, obj, Fields, get, text}
use torq_cli_python.Evidence.Payload.Shape.{codes}
use torq_cli_python.Accounting.Record.{SameFields}
use torq_cli_python.Accounting.Journal.{Keys}
use torq_cli_python.Accounting.Journal.Reading.{IsSound}

abbrev same_codes : List ℕ → List ℕ → Bool
same_codes [] [] = true
same_codes (c ∷ cs) (d ∷ ds) = eqb c d && same_codes cs ds
same_codes _ _ = false

-- The rows that can be read, each under the name of its event.
abbrev reads : List Fields → List ℕ → Option Value
reads [] line = none
reads (row ∷ rows) line =
    let later = reads rows line in
    if same_codes (codes (text (get "event" row))) line then some (obj row) else later

abbrev pub sample_hash : String → String
sample_hash String.[] = "none"
sample_hash (String.◌∷◌ c cs) = String.◌∷◌ c cs

-- A stand-in for the key: the text and the digest of a record are the name of its event, and the
-- rows that can be read back are these.
abbrev pub keys_for : List Fields → Keys
keys_for rows = record {
  canonical = λ p. codes (text (get "event" p));
  loads = reads rows;
  hash = λ p. sample_hash (text (get "event" p));
  sign = λ p. "signed";
  is_signature = λ v p. true;
  key_id = "key";
  render = λ v. "";
}

sample_hash-ne : (s : String) → (sample_hash s == "") ≡ false
sample_hash-ne String.[] = refl
sample_hash-ne (String.◌∷◌ c cs) = elim (Bool-cases (String.◌∷◌ c cs == "")) [
  | inl same ↦ let empty_text : String.◌∷◌ c cs ≡ "" = (eq_iff (String.◌∷◌ c cs) "").0 same in cc
  | inr other ↦ other
]

pub keys_for-IsSound : (rows : List Fields) → IsSound (keys_for rows)
keys_for-IsSound rows = record {
  signs = λ b. refl;
  digests = λ b. sample_hash-ne (text (get "event" b));
  hash_order = λ b c same. ap (λ v. sample_hash (text v)) (same.gets "event");
  sign_order = λ v b c same. refl;
}

pub row-SameFields : (fs : Fields) → SameFields fs fs
row-SameFields fs = record { gets = λ k. refl; keys = λ k. refl }
