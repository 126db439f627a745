-- ===== src/Evidence/Payload/Floor/Bounds.antt =====
-- What a value that passes the floor looks like, described without the walk.
use torq_cli_python.Prelude.{
  ℕ, zero, suc, ◌+◌, ◌-◌, ◌≤◌, String, ◌≡◌, refl, ap, ◌↔◌, Bool, true, false, arith, ltb, length,
  Bool-cases, inl, inr,
}
use Prim.Native.Nat.{max}
use torq_cli_python.Json.{
  Value, null, bool, int, neg, str, arr, obj, Items, no_items, item, Fields, no_fields, field,
}
use torq_cli_python.Evidence.Payload.Shape.{codes}
use torq_cli_python.Evidence.Payload.Floor.{
  max_receipt_string, max_receipt_items, max_receipt_depth, too_long, spend, walk, walk_items,
  walk_fields, oversized_value,
}

-- The values in a structure, itself included.
mutual
  pub nodes : Value → ℕ
  nodes (arr xs) = suc (nodes_items xs)
  nodes (obj fs) = suc (nodes_fields fs)
  nodes null = 1
  nodes (bool b) = 1
  nodes (int n) = 1
  nodes (neg n) = 1
  nodes (str s) = 1

  nodes_items : Items → ℕ
  nodes_items no_items = 0
  nodes_items (item v xs) = nodes v + nodes_items xs

  nodes_fields : Fields → ℕ
  nodes_fields no_fields = 0
  nodes_fields (field k v fs) = nodes v + nodes_fields fs

-- How many levels a structure has under it.
mutual
  pub levels : Value → ℕ
  levels (arr xs) = levels_items xs
  levels (obj fs) = levels_fields fs
  levels null = 0
  levels (bool b) = 0
  levels (int n) = 0
  levels (neg n) = 0
  levels (str s) = 0

  levels_items : Items → ℕ
  levels_items no_items = 0
  levels_items (item v xs) = max (suc (levels v)) (levels_items xs)

  levels_fields : Fields → ℕ
  levels_fields no_fields = 0
  levels_fields (field k v fs) = max (suc (levels v)) (levels_fields fs)

abbrev IsShort : String → Type 0
IsShort s = length (codes s) ≤ max_receipt_string

-- Every text in a structure, keys included, is short.
mutual
  pub AllShort : Value → Type 0
  AllShort (str s) = IsShort s
  AllShort (arr xs) = AllShortItems xs
  AllShort (obj fs) = AllShortFields fs
  AllShort null = Unit
  AllShort (bool b) = Unit
  AllShort (int n) = Unit
  AllShort (neg n) = Unit

  AllShortItems : Items → Type 0
  AllShortItems no_items = Unit
  AllShortItems (item v xs) = AllShort v × AllShortItems xs

  AllShortFields : Fields → Type 0
  AllShortFields no_fields = Unit
  AllShortFields (field k v fs) = IsShort k × AllShort v × AllShortFields fs

too_long-false : (s : String) → too_long s ≡ false → IsShort s
unfolding too_long
too_long-false s h = ground arith

short-too_long : (s : String) → IsShort s → too_long s ≡ false
unfolding too_long
short-too_long s h = ground arith

spend_sound :
    (d r : ℕ) (visit : ℕ → Bool × ℕ)
    → (spend (ltb max_receipt_depth d) r visit).0 ≡ false
    → (d ≤ 8)
      × (r' : ℕ) × (r ≡ suc r')
      × ((visit r').0 ≡ false)
      × ((spend (ltb max_receipt_depth d) r visit).1 ≡ (visit r').1)
unfolding spend
spend_sound d zero visit h = ground arith
spend_sound d (suc r) visit h = (ground arith, r, refl, ground arith, ground arith)

spend_complete :
    (d r : ℕ) (visit : ℕ → Bool × ℕ)
    → d ≤ 8
    → spend (ltb max_receipt_depth d) (suc r) visit ≡ visit r
unfolding spend
spend_complete d r visit h = ground arith

-- A walk that finds no offence has spent one count for each value, within the depth.
mutual
  unfolding walk nodes levels AllShort

  walk_sound :
      (v : Value) (d r : ℕ)
      → (walk v d r).0 ≡ false
      → ((walk v d r).1 + nodes v ≡ r) × (d + levels v ≤ 8) × AllShort v
  walk_sound null d r h =
      let (a, r', b, c, e) = spend_sound d r _ h in (omega arith, omega arith, tt)
  walk_sound (bool x) d r h =
      let (a, r', b, c, e) = spend_sound d r _ h in (omega arith, omega arith, tt)
  walk_sound (int x) d r h =
      let (a, r', b, c, e) = spend_sound d r _ h in (omega arith, omega arith, tt)
  walk_sound (neg x) d r h =
      let (a, r', b, c, e) = spend_sound d r _ h in (omega arith, omega arith, tt)
  walk_sound (str s) d r h =
      let (a, r', b, c, e) = spend_sound d r _ h in (omega arith, omega arith, too_long-false s c)
  walk_sound (arr xs) d r h =
      let (a, r', b, c, e) = spend_sound d r _ h in
      let (p, q, t) = walk_items_sound xs (suc d) r' c in (omega arith, omega arith, t)
  walk_sound (obj fs) d r h =
      let (a, r', b, c, e) = spend_sound d r _ h in
      let (p, q, t) = walk_fields_sound fs (suc d) r' c in (omega arith, omega arith, t)

  walk_items_sound :
      (xs : Items) (d r : ℕ)
      → (walk_items xs d r).0 ≡ false
      → ((walk_items xs d r).1 + nodes_items xs ≡ r) × (levels_items xs ≤ 9 - d) × AllShortItems xs
  walk_items_sound no_items d r h = (omega arith, omega arith, tt)
  walk_items_sound (item v xs) d r h = elim (Bool-cases (walk v d r).0) [
    | inl e ↦ let clash : true ≡ false = rw e at h in cc
    | inr e ↦
        let (p, q, t) = walk_sound v d r e in
        let (p', q', t') = walk_items_sound xs d (walk v d r).1 (rw e at h) in
        (rw e (omega arith), omega arith, (t, t'))
  ]

  walk_fields_sound :
      (fs : Fields) (d r : ℕ)
      → (walk_fields fs d r).0 ≡ false
      → ((walk_fields fs d r).1 + nodes_fields fs ≡ r)
        × (levels_fields fs ≤ 9 - d)
        × AllShortFields fs
  walk_fields_sound no_fields d r h = (omega arith, omega arith, tt)
  walk_fields_sound (field k v fs) d r h = elim (Bool-cases (too_long k)) [
    | inl e ↦ let clash : true ≡ false = rw e at h in cc
    | inr short ↦ elim (Bool-cases (walk v d r).0) [
      | inl e ↦ let clash : true ≡ false = rw (short, e) at h in cc
      | inr e ↦
          let (p, q, t) = walk_sound v d r e in
          let (p', q', t') = walk_fields_sound fs d (walk v d r).1 (rw (short, e) at h) in
          (rw (short, e) (omega arith), omega arith, (too_long-false k short, t, t'))
    ]
  ]

one : (r : ℕ) → 1 + r ≡ suc r
one r = omega arith

zero_add : (r : ℕ) → 0 + r ≡ r
zero_add r = omega arith

add_suc : (n r : ℕ) → suc n + r ≡ suc (n + r)
add_suc n r = omega arith

add_assoc : (a b c : ℕ) → a + b + c ≡ a + (b + c)
add_assoc a b c = omega arith

-- A structure within the bounds is walked to its end.
mutual
  unfolding walk nodes levels AllShort

  walk_complete :
      (v : Value) (d r : ℕ) → d + levels v ≤ 8 → AllShort v → walk v d (nodes v + r) ≡ (false, r)
  walk_complete null d r h s = rw (one r) (spend_complete d r _ (omega arith))
  walk_complete (bool x) d r h s = rw (one r) (spend_complete d r _ (omega arith))
  walk_complete (int x) d r h s = rw (one r) (spend_complete d r _ (omega arith))
  walk_complete (neg x) d r h s = rw (one r) (spend_complete d r _ (omega arith))
  walk_complete (str x) d r h s =
      rw (one r, spend_complete d r _ (omega arith)) (rw (short-too_long x s))
  walk_complete (arr xs) d r h s =
      rw (add_suc (nodes_items xs) r, spend_complete d _ _ (omega arith))
        (walk_items_complete xs (suc d) r (omega arith) s)
  walk_complete (obj fs) d r h s =
      rw (add_suc (nodes_fields fs) r, spend_complete d _ _ (omega arith))
        (walk_fields_complete fs (suc d) r (omega arith) s)

  walk_items_complete :
      (xs : Items) (d r : ℕ)
      → d + levels_items xs ≤ 9
      → AllShortItems xs
      → walk_items xs d (nodes_items xs + r) ≡ (false, r)
  walk_items_complete no_items d r h s = rw (zero_add r)
  walk_items_complete (item v xs) d r h s =
      rw
        (
          add_assoc (nodes v) (nodes_items xs) r,
          walk_complete v d (nodes_items xs + r) (omega arith) s.0,
        )
        (walk_items_complete xs d r (omega arith) s.1)

  walk_fields_complete :
      (fs : Fields) (d r : ℕ)
      → d + levels_fields fs ≤ 9
      → AllShortFields fs
      → walk_fields fs d (nodes_fields fs + r) ≡ (false, r)
  walk_fields_complete no_fields d r h s = rw (zero_add r)
  walk_fields_complete (field k v fs) d r h s =
      rw
        (
          short-too_long k s.0,
          add_assoc (nodes v) (nodes_fields fs) r,
          walk_complete v d (nodes_fields fs + r) (omega arith) s.1,
        )
        (walk_fields_complete fs d r (omega arith) s.2)

-- A value passes the floor exactly when it has at most 512 values in it, itself included, at most
-- 8 levels under it, and no text, key or not, of more than 4096 characters.
pub floor_iff :
    (v : Value)
    → (oversized_value v ≡ false)
      ↔ ((nodes v ≤ max_receipt_items) × (levels v ≤ max_receipt_depth) × AllShort v)
unfolding oversized_value
floor_iff v = (there, back)
  where
    there :
        (walk v 0 max_receipt_items).0 ≡ false
        → (nodes v ≤ max_receipt_items) × (levels v ≤ max_receipt_depth) × AllShort v
    there h = let (p, q, s) = walk_sound v 0 max_receipt_items h in (omega arith, omega arith, s)

    back :
        (nodes v ≤ max_receipt_items) × (levels v ≤ max_receipt_depth) × AllShort v
        → (walk v 0 max_receipt_items).0 ≡ false
    back (p, q, s) =
        let e : nodes v + (max_receipt_items - nodes v) ≡ max_receipt_items = omega arith in
        ap (λ (x : Bool × ℕ). x.0)
          (rw e at (walk_complete v 0 (max_receipt_items - nodes v) (omega arith) s))
