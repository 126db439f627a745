-- ===== src/Evidence/Payload/Shape.antt =====
-- The shapes that run_evidence.py asks of single values: numbers, digests, and texts matched by
-- the regular expressions of the module, here as tests on the code points.
use Prim.Native.Char.{code}
use torq_cli_python.Prelude.{
  ℕ, zero, suc, String, Bool, true, false, ◌&&◌, ◌||◌, not, Option, none, some, List, [], ◌∷◌, ltb,
  leb, eqb, elem, all, length, if◌then◌else◌,
}
use text.Mathlib.Text.{starts_with}
use torq_cli_python.Json
use torq_cli_python.Json.{
  Value, null, bool, int, neg, str, arr, obj, Items, no_items, item, Fields, no_fields, field, get,
  is_str, is_text, count_items,
}
use torq_cli_python.Evidence.Finding.{Finding}

-- A validator is a row of tests, each with the finding that it returns; the first that holds counts.
abbrev pub first_finding : List (Bool × Finding) → Option Finding
first_finding [] = none
first_finding ((b, f) ∷ cs) = if b then some f else first_finding cs

abbrev pub codes : String → List ℕ
codes String.[] = []
codes (String.◌∷◌ c s) = code c ∷ codes s

abbrev drop : ℕ → List ℕ → List ℕ
drop zero xs = xs
drop (suc n) [] = []
drop (suc n) (x ∷ xs) = drop n xs

take_while : (ℕ → Bool) → List ℕ → List ℕ
take_while p [] = []
take_while p (x ∷ xs) = if p x then x ∷ take_while p xs else []

drop_while : (ℕ → Bool) → List ℕ → List ℕ
drop_while p [] = []
drop_while p (x ∷ xs) = let rest = drop_while p xs in if p x then rest else x ∷ xs

unfoldable pub positive_int : Value → Bool
positive_int (int n) = ltb 0 n
positive_int _ = false

unfoldable pub nonnegative_int : Value → Bool
nonnegative_int (int n) = true
nonnegative_int _ = false

-- `isinstance(value, str) and value`
unfoldable pub nonempty_str : Value → Bool
nonempty_str (str String.[]) = false
nonempty_str (str s) = true
nonempty_str _ = false

abbrev pub is_digit : ℕ → Bool
is_digit c = leb 48 c && leb c 57

abbrev is_upper : ℕ → Bool
is_upper c = leb 65 c && leb c 90

abbrev is_alpha : ℕ → Bool
is_alpha c = is_upper c || (leb 97 c && leb c 122)

abbrev pub is_alnum : ℕ → Bool
is_alnum c = is_alpha c || is_digit c

abbrev is_hex : ℕ → Bool
is_hex c = is_digit c || (leb 97 c && leb c 102)

-- `_sha256`
unfoldable pub sha256 : Value → Bool
sha256 (str s) =
    eqb (length (codes s)) 71 && (starts_with s "sha256:" && all is_hex (drop 7 (codes s)))
sha256 _ = false

-- `head{1}tail{0,limit}` matched against a whole text
unfoldable pub head_tail : (ℕ → Bool) → (ℕ → Bool) → ℕ → List ℕ → Bool
head_tail p q limit [] = false
head_tail p q limit (c ∷ cs) = p c && (leb (length cs) limit && all q cs)

-- `:`, `.`, `_`, `-`
unfoldable pub is_id_mark : ℕ → Bool
is_id_mark c = eqb c 58 || (eqb c 46 || (eqb c 95 || eqb c 45))

-- `_OPAQUE_ID`
unfoldable pub opaque_id : Value → Bool
unfolding head_tail is_id_mark
opaque_id (str s) = head_tail is_alnum (λ c. is_alnum c || is_id_mark c) 127 (codes s)
opaque_id _ = false

-- `/`, `\`, `.`, `_`, `-`
unfoldable pub is_path_mark : ℕ → Bool
is_path_mark c = eqb c 47 || (eqb c 92 || (eqb c 46 || (eqb c 95 || eqb c 45)))

-- `".." in text`
has_dots : List ℕ → Bool
has_dots [] = false
has_dots (c ∷ []) = false
has_dots (c ∷ d ∷ cs) = (eqb c 46 && eqb d 46) || has_dots (d ∷ cs)

-- `_ARTIFACT_PATH`, and no `..` in it
unfoldable pub artifact_path : Value → Bool
unfolding head_tail is_path_mark has_dots
artifact_path (str s) =
    head_tail is_alnum (λ c. is_alnum c || is_path_mark c) 255 (codes s) && not (has_dots (codes s))
artifact_path _ = false

-- Python's `\s` on texts
is_space : ℕ → Bool
is_space c =
    (leb 9 c && leb c 13)
    || ((leb 28 c && leb c 32)
        || (eqb c 133
            || (eqb c 160
                || (eqb c 5760
                    || ((leb 8192 c && leb c 8202)
                        || (eqb c 8232
                            || (eqb c 8233 || (eqb c 8239 || (eqb c 8287 || eqb c 12288)))))))))

-- `.`, `+`, `_`, `-`
is_subtype_char : ℕ → Bool
is_subtype_char c = is_alnum c || (eqb c 46 || (eqb c 43 || (eqb c 95 || eqb c 45)))

is_value_char : ℕ → Bool
is_value_char c = is_alnum c || (eqb c 46 || (eqb c 95 || eqb c 45))

is_name_char : ℕ → Bool
is_name_char c = is_alnum c || eqb c 45

one_to_32 : List ℕ → Bool
one_to_32 cs = leb 1 (length cs) && leb (length cs) 32

-- `=[A-Za-z0-9._-]{1,32}`
media_value : List ℕ → Bool
media_value [] = false
media_value (c ∷ cs) = eqb c 61 && (one_to_32 cs && all is_value_char cs)

-- `[A-Za-z0-9-]{1,32}` and the value
media_name : List ℕ → Bool
media_name cs = one_to_32 (take_while is_name_char cs) && media_value (drop_while is_name_char cs)

-- `;\s*` and the name
media_semicolon : List ℕ → Bool
media_semicolon [] = false
media_semicolon (c ∷ cs) = eqb c 59 && media_name (drop_while is_space cs)

-- the optional parameter
media_parameter : List ℕ → Bool
media_parameter [] = true
media_parameter (c ∷ cs) = media_semicolon (drop_while is_space (c ∷ cs))

media_subtype : List ℕ → Bool
media_subtype [] = false
media_subtype (c ∷ cs) =
    is_alnum c
    && (leb (length (take_while is_subtype_char cs)) 63
        && media_parameter (drop_while is_subtype_char cs))

media_slash : List ℕ → Bool
media_slash [] = false
media_slash (c ∷ cs) = eqb c 47 && media_subtype cs

-- `_MEDIA_TYPE`: each part ends where the next begins, since their characters differ.
unfoldable pub media_type : Value → Bool
unfolding media_slash media_subtype media_parameter media_semicolon media_name media_value one_to_32
    is_name_char is_value_char is_subtype_char is_space take_while drop_while
media_type (str s) =
    leb 1 (length (take_while is_alpha (codes s))) && media_slash (drop_while is_alpha (codes s))
media_type _ = false

-- `_REDACTION_NAME`
pub redaction_name : Value → Bool
unfolding head_tail
redaction_name (str s) =
    head_tail is_upper (λ c. is_upper c || (is_digit c || eqb c 95)) 63 (codes s)
redaction_name _ = false

abbrev is_control : ℕ → Bool
is_control c = ltb c 32 || eqb c 127

-- `_bounded_label(value, limit)`
unfoldable pub bounded_label : ℕ → Value → Bool
bounded_label limit (str s) =
    ltb 0 (length (codes s))
    && (leb (length (codes s)) limit && all (λ c. not (is_control c)) (codes s))
bounded_label limit _ = false

abbrev max_action_text_len : ℕ
max_action_text_len = 512

abbrev pub max_source_name_len : ℕ
max_source_name_len = 256

abbrev max_redaction_names : ℕ
max_redaction_names = 64

abbrev max_content_bytes : ℕ
max_content_bytes = 1048576

-- `_bounded_label(value)`
abbrev pub label : Value → Bool
label v = bounded_label max_action_text_len v

-- `_bounded_content_bytes`
unfoldable pub bounded_content_bytes : Value → Bool
bounded_content_bytes (int n) = leb n max_content_bytes
bounded_content_bytes _ = false

abbrev pub all_items : (Value → Bool) → Items → Bool
all_items p no_items = true
all_items p (item v xs) = p v && all_items p xs

-- `_redaction_names`
unfoldable pub redaction_names : Value → Bool
redaction_names (arr xs) = leb (count_items xs) max_redaction_names && all_items redaction_name xs
redaction_names _ = false

-- `_extra_keys`: a key outside the allowed ones
abbrev pub extra_keys : List String → Fields → Bool
extra_keys allowed no_fields = false
extra_keys allowed (field k v fs) = not (elem k allowed) || extra_keys allowed fs

-- `set(mapping) == keys`, for distinct keys
abbrev has_all : List String → Fields → Bool
has_all [] fs = true
has_all (k ∷ ks) fs = Json.has k fs && has_all ks fs

abbrev pub exact_keys : List String → Fields → Bool
exact_keys ks fs = has_all ks fs && not (extra_keys ks fs)

-- `value in texts`
abbrev pub is_one_of : List String → Value → Bool
is_one_of xs (str s) = elem s xs
is_one_of xs _ = false

-- What a set refuses to look up.
abbrev pub unhashable : Value → Bool
unhashable (arr xs) = true
unhashable (obj fs) = true
unhashable _ = false

abbrev pub is_obj : Value → Bool
is_obj (obj fs) = true
is_obj _ = false

abbrev pub conditional_lanes : List String
conditional_lanes = "refine_bug" ∷ "refine_ui" ∷ []

abbrev pub lane_order : List String
lane_order = "g1d" ∷ "g1r" ∷ "builder" ∷ "g2a" ∷ "refine_bug" ∷ "refine_ui" ∷ []
