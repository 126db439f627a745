-- ===== src/Accounting/Lines.antt =====
-- Python's `str.splitlines`, by which `_read_lines` takes a journal's file apart. A text is the list
-- of its code points. The newlines that `read_text` translates end the same lines either way.
use torq_cli_python.Prelude.{
  ℕ, ◌≡◌, refl, ap, ◌∙◌, ◌⊎◌, inl, inr, Bool, true, false, ◌&&◌, ◌||◌, List, [], ◌∷◌, ◌++◌, leb,
  eqb, any, Bool-cases, ||-eq_false, if◌then◌else◌,
}

-- The code points that end a line: \n \v \f \r, \x1c to \x1e, \x85, and U+2028 and U+2029.
unfoldable pub is_break : ℕ → Bool
is_break c =
    (leb 10 c && leb c 13) || ((leb 28 c && leb c 30) || (eqb c 133 || (eqb c 8232 || eqb c 8233)))

-- A code point in front of the first line.
abbrev with_char : ℕ → List (List ℕ) → List (List ℕ)
with_char c [] = (c ∷ []) ∷ []
with_char c (l ∷ ls) = (c ∷ l) ∷ ls

-- The lines from here on; the flag says that a "\r" stands before, whose "\n" ends no line.
unfoldable pub lines_from : Bool → List ℕ → List (List ℕ)
unfolding is_break
lines_from after_cr [] = []
lines_from after_cr (c ∷ cs) =
    let skipped = lines_from false cs in
    let ended = [] ∷ lines_from (eqb c 13) cs in
    let longer = with_char c (lines_from false cs) in
    if after_cr && eqb c 10 then skipped else if is_break c then ended else longer

unfoldable pub splitlines : List ℕ → List (List ℕ)
splitlines cs = lines_from false cs

-- A text is empty or ends with a newline.
abbrev pub IsWhole : List ℕ → Type 0
IsWhole t = (t ≡ []) ⊎ ((s : List ℕ) × (t ≡ s ++ 10 ∷ []))

with_char-append :
    (c : ℕ) (ls : List (List ℕ)) (l : List ℕ) (ks ms : List (List ℕ))
    → ls ≡ l ∷ ks
    → with_char c (ls ++ ms) ≡ with_char c ls ++ ms
with_char-append c ls l ks ms h = rw h

with_char-cons :
    (c : ℕ) (ls : List (List ℕ)) → (l : List ℕ) × (ks : List (List ℕ)) × (with_char c ls ≡ l ∷ ks)
with_char-cons c [] = (c ∷ [], [], refl)
with_char-cons c (l ∷ ls) = (c ∷ l, ls, refl)

-- What a newline ends has a line.
lines_from-newline :
    (cs : List ℕ)
    → (l : List ℕ) × (ks : List (List ℕ)) × (lines_from false (cs ++ 10 ∷ []) ≡ l ∷ ks)
unfolding lines_from is_break
lines_from-newline [] = ([], [], refl)
lines_from-newline (c ∷ cs) = elim (Bool-cases (is_break c)) [
  | inl h ↦ ([], lines_from (eqb c 13) (cs ++ 10 ∷ []), rw h)
  | inr h ↦ let (l, ks, e) = with_char-cons c (lines_from false (cs ++ 10 ∷ [])) in (l, ks, rw h e)
]

lines_from-append :
    (b : Bool) (cs ds : List ℕ)
    → lines_from b ((cs ++ 10 ∷ []) ++ ds) ≡ lines_from b (cs ++ 10 ∷ []) ++ lines_from false ds
unfolding lines_from is_break
lines_from-append true [] ds = refl
lines_from-append false [] ds = refl
lines_from-append b (c ∷ cs) ds =
    let (l, ks, e) = lines_from-newline cs in
    elim (Bool-cases (b && eqb c 10)) [
      | inl skip ↦ rw skip (lines_from-append false cs ds)
      | inr keep ↦ elim (Bool-cases (is_break c)) [
        | inl h ↦ rw (keep, h) (ap (λ ls. [] ∷ ls) (lines_from-append (eqb c 13) cs ds))
        | inr h ↦
            rw (keep, h)
              (ap (with_char c) (lines_from-append false cs ds)
                ∙ with_char-append c _ l ks (lines_from false ds) e)
      ]
    ]

lines_from-line :
    (cs : List ℕ) → any is_break cs ≡ false → lines_from false (cs ++ 10 ∷ []) ≡ cs ∷ []
unfolding lines_from is_break
lines_from-line [] h = refl
lines_from-line (c ∷ cs) h =
    let parts = ||-eq_false (is_break c) (any is_break cs) h in
    rw (parts.0, lines_from-line cs parts.1)

-- A line appended to whole lines is one more line.
pub splitlines-append :
    (t line : List ℕ)
    → IsWhole t
    → any is_break line ≡ false
    → splitlines (t ++ (line ++ 10 ∷ [])) ≡ splitlines t ++ line ∷ []
unfolding splitlines lines_from
splitlines-append t line (inl e) h = rw e (lines_from-line line h)
splitlines-append t line (inr (s, e)) h =
    rw e (rw (lines_from-append false s (line ++ 10 ∷ []), lines_from-line line h))

-- And the text is whole again.
pub append-IsWhole : (t line : List ℕ) → (s : List ℕ) × (t ++ (line ++ 10 ∷ []) ≡ s ++ 10 ∷ [])
append-IsWhole [] line = (line, refl)
append-IsWhole (c ∷ t) line = let (s, e) = append-IsWhole t line in (c ∷ s, ap (λ x. c ∷ x) e)
