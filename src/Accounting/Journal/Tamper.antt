-- ===== src/Accounting/Journal/Tamper.antt =====
-- Two journals under one head hold the same records.
use mathlib.Core.List.Memᴰ.{Memᴰ, head, tail}
use torq_cli_python.Prelude.{
  ℕ, suc, String, ◌≡◌, refl, ◌∙◌, sym, ap, true, false, List, [], ◌∷◌, arith, length, eq_iff, map,
}
use torq_cli_python.Json.{Value, bool, int, str, Fields, get, is_text, value_eq, same_number}
use torq_cli_python.Accounting.Journal.{
  Keys, anchor, returns, body_of, verify_row, verify_rows, verify_anchor, verify_journal, zero_hash,
  read_lines, verify_read,
}
use torq_cli_python.Accounting.Journal.Append.{verify_row-parts}
use torq_cli_python.Accounting.Journal.Reading.{and_then-eq_returns}

-- No two records of the two lists collide.
abbrev pub IsCollisionFree : Keys → List Fields → List Fields → Type 0
IsCollisionFree k xs ys =
    (x y : Fields)
    → Memᴰ x xs
    → Memᴰ y ys
    → k.hash (body_of k x) ≡ k.hash (body_of k y)
    → body_of k x ≡ body_of k y

is_text-eq : (s : String) (v : Value) → is_text s v ≡ true → v ≡ str s
is_text-eq s (str t) h = ap str ((eq_iff t s).0 h)
is_text-eq s _ h = cc

str-eq : (s t : String) → str s ≡ str t → s ≡ t
str-eq s t h = cc

same_count : (v : Value) (n m : ℕ) → value_eq v (int n) ≡ true → value_eq v (int m) ≡ true → n ≡ m
unfolding value_eq same_number
same_count (int i) n m h g = ground arith
same_count (bool true) n m h g = ground arith
same_count (bool false) n m h g = ground arith
same_count _ n m h g = cc

module _ (k : Keys) where
  -- The lists agree back to where they begin.
  same_records :
      (n : ℕ) (p q h : String) (xs ys : List Fields)
      → IsCollisionFree k xs ys
      → length xs ≡ length ys
      → verify_rows k n p xs ≡ returns h
      → verify_rows k n q ys ≡ returns h
      → (p ≡ q) × (map (body_of k) xs ≡ map (body_of k) ys)
  unfolding verify_rows
  same_records n p q h [] [] free same e f = (cc, refl)
  same_records n p q h [] (y ∷ ys) free same e f = absurd (omega arith)
  same_records n p q h (x ∷ xs) [] free same e f = absurd (omega arith)
  same_records n p q h (x ∷ xs) (y ∷ ys) free same e f =
      let (a, first_x, rest_x) =
        and_then-eq_returns k (verify_row k n p x) (λ z. verify_rows k (suc n) z xs) h e in
      let (b, first_y, rest_y) =
        and_then-eq_returns k (verify_row k n q y) (λ z. verify_rows k (suc n) z ys) h f in
      let later =
        same_records (suc n) a b h xs ys (λ u v mu mv. free u v (tail mu) (tail mv)) (omega arith)
          rest_x rest_y in
      let px = verify_row-parts k n p a x first_x in
      let py = verify_row-parts k n q b y first_y in
      let same_body : body_of k x ≡ body_of k y =
        free x y (head refl) (head refl)
          (px.hashed ∙ px.shows ∙ later.0 ∙ sym (py.hashed ∙ py.shows)) in
      let previous : str p ≡ str q =
        sym (is_text-eq p (get "previous_hash" (body_of k x)) px.chained)
        ∙ ap (get "previous_hash") same_body
        ∙ is_text-eq q (get "previous_hash" (body_of k y)) py.chained in
      (str-eq p q previous, rw (same_body, later.1))

  anchor-parts :
      (n : ℕ) (h : String) (a : Fields)
      → verify_anchor k n h (anchor a) ≡ returns tt
      → (value_eq (get "count" a) (int n) ≡ true) × (is_text h (get "head" a) ≡ true)
  unfolding verify_anchor
  anchor-parts n h a e = ground arith

  anchored_rows :
      (xs rows : List Fields) (a : Fields)
      → verify_read k (anchor a) xs ≡ returns rows
      → (xs ≡ rows)
        × (h : String) × (verify_rows k 1 zero_hash xs ≡ returns h)
        × (value_eq (get "count" a) (int (length xs)) ≡ true)
        × (is_text h (get "head" a) ≡ true)
  unfolding verify_read
  anchored_rows [] rows a e =
      let (h, verified, rest) = and_then-eq_returns k (verify_rows k 1 zero_hash []) _ rows e in
      let (_, tested, last) =
        and_then-eq_returns k (verify_anchor k 0 h (anchor a)) (λ _. returns []) rows rest in
      let parts = anchor-parts 0 h a tested in (cc, h, verified, parts.0, parts.1)
  anchored_rows (x ∷ xs) rows a e =
      let (h, verified, rest) =
        and_then-eq_returns k (verify_rows k 1 zero_hash (x ∷ xs)) _ rows e in
      let (_, tested, last) =
        and_then-eq_returns k (verify_anchor k (suc (length xs)) h (anchor a))
          (λ _. returns (x ∷ xs)) rows rest in
      let parts = anchor-parts (suc (length xs)) h a tested in (cc, h, verified, parts.0, parts.1)

  -- What a journal with an anchor has shown when it verifies.
  anchored :
      (file : List ℕ) (rows : List Fields) (a : Fields)
      → verify_journal k (record { file = file; head = anchor a }) ≡ returns rows
      → (h : String) × (verify_rows k 1 zero_hash rows ≡ returns h)
        × (value_eq (get "count" a) (int (length rows)) ≡ true)
        × (is_text h (get "head" a) ≡ true)
  unfolding verify_journal
  anchored file rows a e =
      let (read, _, tested) =
        and_then-eq_returns k (read_lines k file) (verify_read k (anchor a)) rows e in
      let (same, h, verified, counted, headed) = anchored_rows read rows a tested in
      (h, rw same at verified, rw same at counted, headed)

  -- Two journals that verify under one anchor hold the same records in the same order, where no
  -- two of their records collide under the hash: a journal from which rows were dropped, changed,
  -- added or moved does not verify under the anchor of the true one.
  pub same_anchor-same_records :
      (a : Fields) (file file' : List ℕ) (rows rows' : List Fields)
      → IsCollisionFree k rows rows'
      → verify_journal k (record { file = file; head = anchor a }) ≡ returns rows
      → verify_journal k (record { file = file'; head = anchor a }) ≡ returns rows'
      → map (body_of k) rows ≡ map (body_of k) rows'
  same_anchor-same_records a file file' rows rows' free e f =
      let (h, verified_x, count_x, head_x) = anchored file rows a e in
      let (g, verified_y, count_y, head_y) = anchored file' rows' a f in
      let same_head : h ≡ g =
        str-eq h g
          (sym (is_text-eq h (get "head" a) head_x) ∙ is_text-eq g (get "head" a) head_y) in
      (same_records 1 zero_hash zero_hash g rows rows' free
        (same_count (get "count" a) (length rows) (length rows') count_x count_y)
        (rw same_head at verified_x) verified_y).1
