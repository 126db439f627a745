-- ===== src/Accounting/Record.antt =====
-- Python's dict operations on the rows of a journal.
use torq_cli_python.Prelude.{
  String, ◌==◌, ◌≡◌, refl, true, false, eq_iff, eq_refl, arith, if◌then◌else◌,
}
use torq_cli_python.Json.{Value, null, Fields, no_fields, field, get, has}

-- `d[k] = v`
unfoldable pub put : String → Value → Fields → Fields
put k v no_fields = field k v no_fields
put k v (field j w fs) = let rest = put k v fs in if j == k then field j v fs else field j w rest

-- `d.pop(k, None)`
unfoldable pub without : String → Fields → Fields
without k no_fields = no_fields
without k (field j w fs) = let rest = without k fs in if j == k then rest else field j w rest

-- `{**d, **e}`
unfoldable pub update : Fields → Fields → Fields
update fs no_fields = fs
update fs (field k v es) = update (put k v fs) es

pub without_new : (k : String) (fs : Fields) → has k fs ≡ false → without k fs ≡ fs
unfolding without
without_new k no_fields h = refl
without_new k (field j w fs) h = ground (arith, without_new k fs)

pub without-put :
    (k : String) (v : Value) (fs : Fields) → has k fs ≡ false → without k (put k v fs) ≡ fs
unfolding without put
without-put k v no_fields h = rw eq_refl
without-put k v (field j w fs) h = ground (arith, eq_iff j k, without-put k v fs)

pub has-put :
    (k j : String) (v : Value) (fs : Fields)
    → (j == k) ≡ false
    → has k fs ≡ false
    → has k (put j v fs) ≡ false
unfolding put
has-put k j v no_fields n h = rw n
has-put k j v (field i w fs) n h =
    ground (arith, eq_iff i j, eq_iff i k, eq_iff j k, has-put k j v fs)

pub get-put_self : (k : String) (v : Value) (fs : Fields) → get k (put k v fs) ≡ v
unfolding put
get-put_self k v no_fields = rw eq_refl
get-put_self k v (field j w fs) = ground (arith, eq_iff j k, get-put_self k v fs)

pub has-put_self : (k : String) (v : Value) (fs : Fields) → has k (put k v fs) ≡ true
unfolding put
has-put_self k v no_fields = rw eq_refl
has-put_self k v (field j w fs) = ground (arith, eq_iff j k, has-put_self k v fs)

pub get-put_other :
    (k j : String) (v : Value) (fs : Fields) → (j == k) ≡ false → get k (put j v fs) ≡ get k fs
unfolding put
get-put_other k j v no_fields n = rw n
get-put_other k j v (field i w fs) n =
    ground (arith, eq_iff i j, eq_iff i k, eq_iff j k, get-put_other k j v fs)

pub get-update : (k : String) (fs es : Fields) → has k es ≡ false → get k (update fs es) ≡ get k fs
unfolding update
get-update k fs no_fields h = refl
get-update k fs (field j v es) h =
    ground (arith, get-update k (put j v fs) es, get-put_other k j v fs)

pub has-update :
    (k : String) (fs es : Fields)
    → has k fs ≡ false
    → has k es ≡ false
    → has k (update fs es) ≡ false
unfolding update
has-update k fs no_fields n h = n
has-update k fs (field j v es) n h = ground (arith, has-update k (put j v fs) es, has-put k j v fs)

pub get-without : (k j : String) (fs : Fields) → (j == k) ≡ false → get k (without j fs) ≡ get k fs
unfolding without
get-without k j no_fields n = refl
get-without k j (field i w fs) n =
    ground (arith, eq_iff i j, eq_iff i k, eq_iff j k, get-without k j fs)

get-without_lem :
    (k j : String) (fs : Fields) → get k (without j fs) ≡ (if j == k then null else get k fs)
unfolding without
get-without_lem k j no_fields = ground arith
get-without_lem k j (field i w fs) =
    ground (arith, eq_iff i j, eq_iff i k, eq_iff j k, get-without_lem k j fs)

has-without_lem :
    (k j : String) (fs : Fields) → has k (without j fs) ≡ (if j == k then false else has k fs)
unfolding without
has-without_lem k j no_fields = ground arith
has-without_lem k j (field i w fs) =
    ground (arith, eq_iff i j, eq_iff i k, eq_iff j k, has-without_lem k j fs)

-- The same keys with the same values, in any order: two mappings that Python's `==` holds of.
pub record SameFields (fs gs : Fields) : Type 0 where
  pub gets : (k : String) → get k gs ≡ get k fs
  pub keys : (k : String) → has k gs ≡ has k fs

pub without-SameFields :
    (j : String) (fs gs : Fields) → SameFields fs gs → SameFields (without j fs) (without j gs)
without-SameFields j fs gs same = record {
  gets = λ k. rw (get-without_lem k j gs, get-without_lem k j fs, same.gets k);
  keys = λ k. rw (has-without_lem k j gs, has-without_lem k j fs, same.keys k);
}
