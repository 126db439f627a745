-- ===== src/Entitlements.antt =====
-- src/torq_cli/safety/entitlements.py: subscription windows and the in-memory ledger.
-- A method that changes the ledger returns the ledger it leaves and the error it raises, if any,
-- since what was written before a `raise` stays written.
mod Bounds
mod Settlement
mod Tests
use torq_cli_python.Prelude.{
  ℕ, zero, suc, ◌+◌, ◌-◌, String, Bool, true, false, ◌||◌, Option, none, some, List, [], ◌∷◌, ◌++◌,
  ◌==◌, ltb, eqb, if◌then◌else◌,
}
use torq_cli_python.Dict.{Dict, lookup, insert, erase}
use Prim.Native.String.{◌++◌ as concat}

-- The `ValueError` codes of the module; `key_error` is Python's own `KeyError`.
pub data EntitlementError : Type 0 where
  account_invalid settlement_invalid window_invalid used_source_invalid : EntitlementError
  limit_source_invalid reset_required account_key_mismatch provider_ambiguous : EntitlementError
  calls_invalid window_exceeded reservation_missing cancellation_invalid : EntitlementError
  reconcile_invalid key_error : EntitlementError

pub data Result {ℓ} (A : Type ℓ) : Type ℓ where
  ok : A → Result A
  err : EntitlementError → Result A

-- A Python int given as an argument: `negsuc n` is -(n + 1).
pub data ℤ : Type 0 where
  pos : ℕ → ℤ
  negsuc : ℕ → ℤ

pub record PlanWindow : Type 0 where
  pub account : String
  pub providers : List String
  pub settlement : String
  pub used : ℕ
  pub limit : ℕ
  pub resets_at : String
  pub used_source : String
  pub limit_source : String
  pub reserved : ℕ

is_settlement : String → Bool
is_settlement s = s == "plan_covered" || (s == "metered" || s == "unknown")

is_used_source : String → Bool
is_used_source s = s == "receipt_derived" || s == "provider_reported"

is_limit_source : String → Bool
is_limit_source s = s == "operator_declared" || s == "provider_reported"

is_empty {ℓ} : {A : Type ℓ} → List A → Bool
is_empty [] = true
is_empty (x ∷ xs) = false

-- `__post_init__`, which runs whenever a window is made, by `replace` too. The counts are natural
-- numbers, so the tests for a negative count are made where an int enters.
unfoldable pub check_window : PlanWindow → Option EntitlementError
unfolding is_settlement is_used_source is_limit_source is_empty
check_window w =
    if w.account == "" || is_empty w.providers
    then some account_invalid
    else if is_settlement w.settlement
    then (if ltb w.limit (w.used + w.reserved)
        then some window_invalid
        else if is_used_source w.used_source
        then (if is_limit_source w.limit_source
            then (if w.resets_at == "" then some reset_required else none)
            else some limit_source_invalid)
        else some used_source_invalid)
    else some settlement_invalid

checked : PlanWindow → Option EntitlementError → Result PlanWindow
checked w none = ok w
checked w (some e) = err e

-- `replace(window, used=n)`
pub replace_used : PlanWindow → ℕ → Result PlanWindow
unfolding checked
replace_used w n = let w' = record w { used = n } in checked w' (check_window w')

pub record Ledger : Type 0 where
  pub windows : Dict PlanWindow
  pub provider_accounts : Dict String
  pub reservations : Dict (List ℕ)

unknown_window : String → PlanWindow
unknown_window provider = record {
  account = concat "unknown:" provider;
  providers = provider ∷ [];
  settlement = "unknown";
  used = 0;
  limit = 0;
  resets_at = "unknown";
  used_source = "receipt_derived";
  limit_source = "operator_declared";
  reserved = 0;
}

-- `self._windows[account]`
window_of : Option PlanWindow → Result PlanWindow
window_of none = err key_error
window_of (some w) = ok w

pub window : Ledger → String → Result PlanWindow
unfolding unknown_window window_of
window s provider = elim (lookup provider s.provider_accounts) [
  | none ↦ ok (unknown_window provider)
  | some account ↦ window_of (lookup account s.windows)
]

-- `self._reservations.get(provider, [])`
pub pending : Ledger → String → List ℕ
pending s provider = elim (lookup provider s.reservations) [ none ↦ [] | some l ↦ l ]

-- Storing the list back after a `pop`; an empty list is dropped from the dict.
put_pending : String → List ℕ → Dict (List ℕ) → Dict (List ℕ)
put_pending provider [] d = erase provider d
put_pending provider (n ∷ l) d = insert provider (n ∷ l) d

-- `self._windows[window.account] = ...`, unless the new window is refused
store_window : Ledger → Result PlanWindow → Ledger × Option EntitlementError
store_window s (err e) = (s, some e)
store_window s (ok w) = (record s { windows = insert w.account w s.windows }, none)

-- The last two lines of `reserve`: the reservation is noted once the window is stored.
reserve_window : Ledger → String → ℕ → Result PlanWindow → Ledger × Option EntitlementError
reserve_window s provider calls (err e) = (s, some e)
reserve_window s provider calls (ok w) = (
  record s {
    windows = insert w.account w s.windows;
    reservations = insert provider (pending s provider ++ calls ∷ []) s.reservations;
  },
  none,
)

reserve_in : Ledger → String → ℕ → Result PlanWindow → Ledger × Option EntitlementError
reserve_in s provider calls (err e) = (s, some e)
reserve_in s provider calls (ok w) =
    if w.settlement == "plan_covered"
    then (if ltb w.limit (w.used + calls)
        then (s, some window_exceeded)
        else reserve_window s provider calls (replace_used w (w.used + calls)))
    else (s, none)

pub reserve : Ledger → String → ℤ → Ledger × Option EntitlementError
reserve s provider (negsuc n) = (s, some calls_invalid)
reserve s provider (pos calls) = reserve_in s provider calls (window s provider)

-- `pending.index(calls)` and `pending.pop(index)`: the first equal entry goes.
pub remove_first : ℕ → List ℕ → Option (List ℕ)
remove_first n [] = none
remove_first n (m ∷ l) =
    let rest = remove_first n l in
    if eqb m n then some l else elim rest [ none ↦ none | some r ↦ some (m ∷ r) ]

-- `cancel` after the pop: the reservation is gone, also where this raises.
cancel_window : Ledger → ℕ → PlanWindow → Ledger × Option EntitlementError
cancel_window s calls w =
    if ltb w.used calls
    then (s, some cancellation_invalid)
    else store_window s (replace_used w (w.used - calls))

cancel_pending :
    Ledger → String → ℕ → PlanWindow → Option (List ℕ) → Ledger × Option EntitlementError
cancel_pending s provider calls w none = (s, some reservation_missing)
cancel_pending s provider calls w (some l) =
    cancel_window (record s { reservations = put_pending provider l s.reservations }) calls w

cancel_in : Ledger → String → ℕ → Result PlanWindow → Ledger × Option EntitlementError
cancel_in s provider calls (err e) = (s, some e)
cancel_in s provider calls (ok w) =
    if w.settlement == "plan_covered"
    then cancel_pending s provider calls w (remove_first calls (pending s provider))
    else (s, none)

pub cancel : Ledger → String → ℤ → Ledger × Option EntitlementError
cancel s provider (negsuc n) = (s, some calls_invalid)
cancel s provider (pos zero) = (s, some calls_invalid)
cancel s provider (pos (suc n)) = cancel_in s provider (suc n) (window s provider)

-- `corrected < 0` is `used + calls < reserved` on natural numbers.
reconcile_window : Ledger → PlanWindow → ℕ → ℕ → Ledger × Option EntitlementError
reconcile_window s w held calls =
    if ltb (w.used + calls) held || ltb w.limit (w.used + calls - held)
    then (s, some reconcile_invalid)
    else store_window s (replace_used w (w.used + calls - held))

reconcile_pending : Ledger → String → ℕ → PlanWindow → List ℕ → Ledger × Option EntitlementError
reconcile_pending s provider calls w [] =
    reconcile_window (record s { reservations = erase provider s.reservations }) w 0 calls
reconcile_pending s provider calls w (held ∷ l) =
    reconcile_window (record s { reservations = put_pending provider l s.reservations }) w held
      calls

reconcile_in : Ledger → String → ℕ → Result PlanWindow → Ledger × Option EntitlementError
reconcile_in s provider calls (err e) = (s, some e)
reconcile_in s provider calls (ok w) =
    if w.settlement == "plan_covered"
    then reconcile_pending s provider calls w (pending s provider)
    else (s, none)

pub reconcile : Ledger → String → ℤ → Ledger × Option EntitlementError
reconcile s provider (negsuc n) = (s, some calls_invalid)
reconcile s provider (pos calls) = reconcile_in s provider calls (window s provider)

-- `__init__`: every provider of a window is bound to its account, and to one account alone.
pub bind_providers : String → List String → Dict String → Result (Dict String)
bind_providers account [] bound = ok bound
bind_providers account (p ∷ ps) bound =
    let rest = bind_providers account ps (insert p account bound) in
    elim (lookup p bound) [ none ↦ rest | some _ ↦ err provider_ambiguous ]

pub bind_windows : Dict PlanWindow → Dict String → Result (Dict String)
unfolding bind_providers
bind_windows [] bound = ok bound
bind_windows ((account, w) ∷ d) bound =
    if account == w.account
    then elim (bind_providers account w.providers bound) [
      | err e ↦ err e
      | ok bound' ↦ bind_windows d bound'
    ]
    else err account_key_mismatch

with_bindings : Dict PlanWindow → Result (Dict String) → Result Ledger
with_bindings d (err e) = err e
with_bindings d (ok bound) =
    ok (record { windows = d; provider_accounts = bound; reservations = [] })

pub init : Dict PlanWindow → Result Ledger
unfolding bind_windows with_bindings
init d = with_bindings d (bind_windows d [])
