-- ===== src/Evidence/Payload/Floor.antt =====
-- `_oversized_value`: the floor under every receipt. No text is too long, no structure too wide or
-- too deep. `walk` carries the counter `remaining[0]`, and stops at the first offence.
pub mod Bounds
use torq_cli_python.Prelude.{
  ℕ, zero, suc, ◌+◌, String, Bool, true, false, ltb, length, if◌then◌else◌,
}
use torq_cli_python.Json.{
  Value, null, bool, int, neg, str, arr, obj, Items, no_items, item, Fields, no_fields, field,
}
use torq_cli_python.Evidence.Payload.Shape.{codes}

abbrev pub max_receipt_string : ℕ
max_receipt_string = 4096

abbrev pub max_receipt_items : ℕ
max_receipt_items = 512

abbrev pub max_receipt_depth : ℕ
max_receipt_depth = 8

-- `len(text) > MAX_RECEIPT_STRING`
pub too_long : String → Bool
too_long s = ltb max_receipt_string (length (codes s))

-- `remaining[0] -= 1` and the test for a negative count: at 0 the walk stops.
spend : Bool → ℕ → (ℕ → Bool × ℕ) → Bool × ℕ
spend true r visit = (true, r)
spend false zero visit = (true, zero)
spend false (suc r) visit = visit r

-- The rest is visited only if the part before it was not oversized.
abbrev next : Bool × ℕ → (ℕ → Bool × ℕ) → Bool × ℕ
next a rest = elim a.0 [ true ↦ (true, a.1) | false ↦ rest a.1 ]

mutual
  pub walk : Value → ℕ → ℕ → Bool × ℕ
  walk (str s) d r = spend (ltb max_receipt_depth d) r (λ r'. (too_long s, r'))
  walk (arr xs) d r = spend (ltb max_receipt_depth d) r (λ r'. walk_items xs (suc d) r')
  walk (obj fs) d r = spend (ltb max_receipt_depth d) r (λ r'. walk_fields fs (suc d) r')
  walk null d r = spend (ltb max_receipt_depth d) r (λ r'. (false, r'))
  walk (bool b) d r = spend (ltb max_receipt_depth d) r (λ r'. (false, r'))
  walk (int n) d r = spend (ltb max_receipt_depth d) r (λ r'. (false, r'))
  walk (neg n) d r = spend (ltb max_receipt_depth d) r (λ r'. (false, r'))

  pub walk_items : Items → ℕ → ℕ → Bool × ℕ
  walk_items no_items d r = (false, r)
  walk_items (item v xs) d r = next (walk v d r) (λ r'. walk_items xs d r')

  pub walk_fields : Fields → ℕ → ℕ → Bool × ℕ
  walk_fields no_fields d r = (false, r)
  walk_fields (field k v fs) d r =
      next (too_long k, r) (λ r'. next (walk v d r') (λ r''. walk_fields fs d r''))

unfoldable pub oversized_value : Value → Bool
unfolding walk too_long spend
oversized_value v = (walk v 0 max_receipt_items).0
