-- ===== src/Json.antt =====
-- The values of a decoded JSON document, as the validators of receipts read them. A payload is a
-- Python mapping with text keys: `Fields`. Floats are left out: no validator accepts one.
use torq_cli_python.Prelude.{
  ◌≡◌, refl, eq_iff, ℕ, suc, String, Bool, true, false, ◌&&◌, ◌==◌, eqb, if◌then◌else◌,
}

mutual
  pub data Value : Type 0 where
    null : Value
    bool : Bool → Value
    int : ℕ → Value
    neg : ℕ → Value  -- -(n + 1)
    str : String → Value
    arr : Items → Value
    obj : Fields → Value

  pub data Fields : Type 0 where
    no_fields : Fields
    field : (key : String) → (value : Value) → (rest : Fields) → Fields

  pub data Items : Type 0 where
    no_items : Items
    item : Value → Items → Items

-- `payload.get(key)`: a missing key reads as `None`.
abbrev pub get : String → Fields → Value
get k no_fields = null
get k (field j v fs) = if j == k then v else get k fs

-- `key in payload`
abbrev pub has : String → Fields → Bool
has k no_fields = false
has k (field j v fs) = if j == k then true else has k fs

unfoldable pub count_fields : Fields → ℕ
count_fields no_fields = 0
count_fields (field k v fs) = suc (count_fields fs)

unfoldable pub count_items : Items → ℕ
count_items no_items = 0
count_items (item v xs) = suc (count_items xs)

-- A Python bool is the int 0 or 1.
unfoldable pub same_number : Bool → ℕ → Bool
same_number true n = eqb n 1
same_number false n = eqb n 0

same_bool : Bool → Bool → Bool
same_bool true b = b
same_bool false true = false
same_bool false false = true

-- Python's `==`: the order of a mapping's keys does not matter.
unfoldable mutual
  unfolding same_bool same_number

  pub value_eq : Value → Value → Bool
  value_eq null null = true
  value_eq (bool a) (bool b) = same_bool a b
  value_eq (bool a) (int n) = same_number a n
  value_eq (int n) (bool b) = same_number b n
  value_eq (int n) (int m) = eqb n m
  value_eq (neg n) (neg m) = eqb n m
  value_eq (str s) (str t) = s == t
  value_eq (arr xs) (arr ys) = items_eq xs ys
  value_eq (obj fs) (obj gs) = eqb (count_fields fs) (count_fields gs) && fields_within fs gs
  value_eq _ _ = false

  pub items_eq : Items → Items → Bool
  items_eq no_items no_items = true
  items_eq (item x xs) (item y ys) = value_eq x y && items_eq xs ys
  items_eq _ _ = false

  pub fields_within : Fields → Fields → Bool
  fields_within no_fields gs = true
  fields_within (field k v fs) gs = has k gs && (value_eq v (get k gs) && fields_within fs gs)

-- `isinstance(value, str)` and the like, with the content where it is read.
abbrev pub is_str : Value → Bool
is_str (str s) = true
is_str _ = false

abbrev pub is_bool : Value → Bool
is_bool (bool b) = true
is_bool _ = false

abbrev pub is_null : Value → Bool
is_null null = true
is_null _ = false

-- `value is True` and `value is False`
abbrev pub is_true : Value → Bool
is_true (bool b) = b
is_true _ = false

abbrev pub is_false : Value → Bool
is_false (bool true) = false
is_false (bool false) = true
is_false _ = false

-- `value == text`
abbrev pub is_text : String → Value → Bool
is_text t (str s) = s == t
is_text t _ = false

-- `str(value)`, `int(value)` and a mapping's fields, read where a validator has required a text,
-- a number that is no bool, or a mapping.
abbrev pub text : Value → String
text (str s) = s
text _ = ""

abbrev pub number : Value → ℕ
number (int n) = n
number _ = 0

abbrev pub fields : Value → Fields
fields (obj fs) = fs
fields _ = no_fields

-- A text is one text at most.
pub is_text-other :
    (s t : String) (v : Value) → is_text s v ≡ true → (s == t) ≡ false → is_text t v ≡ false
is_text-other s t (str u) h n = let same : u ≡ s = (eq_iff u s).0 h in rw same n
is_text-other s t null h n = refl
is_text-other s t (bool b) h n = refl
is_text-other s t (int i) h n = refl
is_text-other s t (neg i) h n = refl
is_text-other s t (arr xs) h n = refl
is_text-other s t (obj fs) h n = refl
