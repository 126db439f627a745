-- ===== src/Audit/Task/Contract/Snoc.antt =====
-- One more row at the end of a task's rows.
use torq_cli_python.Prelude.{
  ◌≡◌, refl, String, Bool, true, false, List, [], ◌∷◌, ◌++◌, arith, ||-eq_false, any,
}
use torq_cli_python.Json.{int}
use torq_cli_python.Audit.Task.Contract.{
  Row, is_terminal, is_event, first, last, preceding, count, count_terminal,
}

pub nonterminal-parts :
    (x : Row) (xs : List Row)
    → count_terminal (x ∷ xs) ≡ 0
    → (is_terminal x.body ≡ false) × (count_terminal xs ≡ 0)
unfolding count_terminal
nonterminal-parts x xs h = ground arith

pub first-snoc :
    (e : String) (t : Row) (xs : List Row)
    → is_event e t ≡ false
    → first e (xs ++ t ∷ []) ≡ first e xs
unfolding first
first-snoc e t [] h = rw h
first-snoc e t (x ∷ xs) h = rw (first-snoc e t xs h)

pub count-snoc :
    (e : String) (t : Row) (xs : List Row)
    → is_event e t ≡ false
    → count e (xs ++ t ∷ []) ≡ count e xs
unfolding count
count-snoc e t [] h = rw h
count-snoc e t (x ∷ xs) h = rw (count-snoc e t xs h)

pub count_terminal-snoc :
    (t : Row) (xs : List Row)
    → is_terminal t.body ≡ true
    → count_terminal xs ≡ 0
    → count_terminal (xs ++ t ∷ []) ≡ 1
unfolding count_terminal
count_terminal-snoc t [] h z = rw h
count_terminal-snoc t (x ∷ xs) h z =
    let parts = nonterminal-parts x xs z in rw (parts.0, count_terminal-snoc t xs h parts.1)

pub any-snoc {ℓ} :
    {A : Type ℓ} (p : A → Bool) (t : A) (xs : List A)
    → p t ≡ false
    → any p xs ≡ false
    → any p (xs ++ t ∷ []) ≡ false
any-snoc p t [] h n = rw h
any-snoc p t (x ∷ xs) h n =
    let parts = ||-eq_false (p x) (any p xs) n in rw (parts.0, any-snoc p t xs h parts.1)

pub last-snoc : (r t : Row) (xs : List Row) → last r (xs ++ t ∷ []) ≡ t
unfolding last
last-snoc r t [] = refl
last-snoc r t (x ∷ xs) = last-snoc x t xs

pub preceding-snoc :
    (r t : Row) (xs : List Row) → preceding r (xs ++ t ∷ []) ≡ int (last r xs).sequence
unfolding last preceding
preceding-snoc r t [] = refl
preceding-snoc r t (x ∷ []) = refl
preceding-snoc r t (x ∷ y ∷ xs) = preceding-snoc x t (y ∷ xs)
