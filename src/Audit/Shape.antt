-- ===== src/Audit/Shape.antt =====
-- The tests on single values in src/torq_cli/domain/task_evidence.py and
-- candidate_decision_evidence.py. `_digest` is `sha256`, `_positive_sequence` is `positive_int`.
use torq_cli_python.Prelude.{
  ◌≡◌, refl, Option, none, some, ℕ, ◌+◌, String, Bool, true, false, ◌&&◌, ◌||◌, not, List, [], ◌∷◌,
  leb, eqb, all, if◌then◌else◌,
}
use torq_cli_python.Json.{Value, int, neg, str, Fields, get}
use torq_cli_python.Evidence.Finding.{Finding}
use torq_cli_python.Evidence.Payload.Shape.{
  codes, head_tail, is_alnum, is_digit, is_path_mark, sha256,
}

-- `all(_digest(payload.get(field)) for field in fields)`
unfoldable pub digests : List String → Fields → Bool
digests ks p = all (λ k. sha256 (get k p)) ks

-- `.`, `_`, `-`
is_dash : ℕ → Bool
is_dash c = eqb c 46 || (eqb c 95 || eqb c 45)

-- `_identifier` of task_evidence.py
unfoldable pub identifier : Value → Bool
unfolding head_tail is_dash
identifier (str s) = head_tail is_alnum (λ c. is_alnum c || is_dash c) 127 (codes s)
identifier _ = false

is_lower : ℕ → Bool
is_lower c = leb 97 c && leb c 122

-- `_CODE`
unfoldable pub reason_code : Value → Bool
unfolding head_tail is_lower
reason_code (str s) = head_tail is_lower (λ c. is_lower c || (is_digit c || eqb c 95)) 63 (codes s)
reason_code _ = false

-- `text.split(separator)` tested for a part that is `..`: `n` counts the dots that the part began
-- with, and is 3 once the part can no longer be `..`.
unfoldable pub dots_part : (ℕ → Bool) → ℕ → List ℕ → Bool
dots_part is_separator n [] = eqb n 2
dots_part is_separator n (c ∷ cs) =
    let fresh = dots_part is_separator 0 cs in
    let longer = dots_part is_separator (n + 1) cs in
    let other = dots_part is_separator 3 cs in
    if is_separator c then eqb n 2 || fresh else if eqb c 46 && leb n 1 then longer else other

-- `/` and `\`
is_slash : ℕ → Bool
is_slash c = eqb c 47 || eqb c 92

-- `_artifact` of task_evidence.py
unfoldable pub artifact : Value → Bool
unfolding head_tail is_path_mark dots_part is_slash
artifact (str s) =
    head_tail is_alnum (λ c. is_alnum c || is_path_mark c) 255 (codes s)
    && not (dots_part is_slash 0 (codes s))
artifact _ = false

-- An int that is no bool.
abbrev pub is_int : Value → Bool
is_int (int n) = true
is_int (neg n) = true
is_int _ = false

-- The first finding of two validators.
abbrev pub and_then : Option Finding → Option Finding → Option Finding
and_then (some f) o = some f
and_then none o = o

pub and_then-eq_none : (o p : Option Finding) → and_then o p ≡ none → (o ≡ none) × (p ≡ none)
and_then-eq_none none p h = (refl, h)
and_then-eq_none (some f) p h = cc

-- A test that returns a finding was passed.
pub past :
    (b : Bool) (f : Finding) (o : Option Finding)
    → (if b then some f else o) ≡ none
    → (b ≡ false) × (o ≡ none)
past true f o h = cc
past false f o h = (refl, h)
