-- ===== src/Entitlements/Tests.antt =====
-- The ledger at concrete windows and calls.
use torq_cli_python.Prelude.{ℕ, String, ◌≡◌, refl, ◌+◌, ◌≤◌, arith, none, some, List, [], ◌∷◌}
use torq_cli_python.Dict.{Dict, lookup, insert, erase}
use torq_cli_python.Entitlements.{
  ok, pos, PlanWindow, Ledger, check_window, window, pending, reserve, cancel, reconcile,
  reconcile_invalid, reservation_missing, window_exceeded, init, replace_used, remove_first,
  bind_windows, bind_providers, reserve_in, reserve_window, cancel_in, cancel_pending, reconcile_in,
  reconcile_pending, reconcile_window, put_pending, window_of, with_bindings, checked,
}
use torq_cli_python.Entitlements.Bounds.{
  Call, reserving, cancelling, reconciling, run, step, Sound, run-within-limit, IsValid,
  init-IsValid,
}
use torq_cli_python.Entitlements.Settlement.{cancel-reserve, cancel-reconcile_refused}

abbrev plan : ℕ → PlanWindow
plan used = record {
  account = "team";
  providers = "claude" ∷ "codex" ∷ [];
  settlement = "plan_covered";
  used = used;
  limit = 10;
  resets_at = "monday";
  used_source = "receipt_derived";
  limit_source = "operator_declared";
  reserved = 0;
}

abbrev plans : Dict PlanWindow
plans = ("team", plan 4) ∷ []

abbrev ledger : Ledger
ledger = record {
  windows = plans;
  provider_accounts = ("claude", "team") ∷ ("codex", "team") ∷ [];
  reservations = [];
}

abbrev held : Ledger
held = record {
  windows = ("team", plan 9) ∷ [];
  provider_accounts = ("claude", "team") ∷ ("codex", "team") ∷ [];
  reservations = ("claude", 5 ∷ []) ∷ [];
}

init-plans : init plans ≡ ok ledger
unfolding init bind_windows bind_providers with_bindings lookup insert
init-plans = refl

plan_sound : check_window (plan 4) ≡ none
unfolding check_window
plan_sound = refl

plans-Sound : Sound plans
unfolding lookup
plans-Sound a w e = ground (arith, plan_sound)

ledger-IsValid : IsValid ledger
ledger-IsValid = init-IsValid plans ledger plans-Sound init-plans

window-ledger : window ledger "claude" ≡ ok (plan 4)
unfolding window window_of lookup
window-ledger = refl

reserve-ledger : reserve ledger "claude" (pos 5) ≡ (held, none)
unfolding reserve reserve_in reserve_window window window_of lookup insert replace_used check_window
    checked pending
reserve-ledger = refl

reserve-too_much : reserve ledger "codex" (pos 7) ≡ (ledger, some window_exceeded)
unfolding reserve reserve_in window window_of lookup
reserve-too_much = refl

window-held : window held "claude" ≡ ok (plan 9)
unfolding window window_of lookup
window-held = refl

pending-held : pending held "claude" ≡ 5 ∷ []
unfolding pending lookup
pending-held = refl

abbrev calls : List Call
calls = reserving "claude" (pos 5) ∷ reconciling "claude" (pos 20) ∷ cancelling "codex" (pos 1) ∷ []

run-ledger : lookup "team" (run ledger calls).windows ≡ some (plan 9)
unfolding run step reserve reserve_in reserve_window window window_of lookup insert erase
    replace_used check_window checked pending reconcile reconcile_in reconcile_pending
    reconcile_window put_pending cancel cancel_in cancel_pending remove_first
run-ledger = refl

run-within-limit_example :
    ((plan 9).used + (plan 9).reserved ≤ (plan 9).limit) × ((plan 9).account ≡ "team")
run-within-limit_example =
    run-within-limit plans ledger calls "team" (plan 9) plans-Sound init-plans run-ledger

reserve-ledger-none : (reserve ledger "claude" (pos 5)).1 ≡ none
reserve-ledger-none = rw reserve-ledger

cancel-reserve_example :
    ((cancel (reserve ledger "claude" (pos 5)).0 "claude" (pos 5)).1 ≡ none)
    × ((a : String)
        → lookup a (cancel (reserve ledger "claude" (pos 5)).0 "claude" (pos 5)).0.windows
          ≡ lookup a plans)
cancel-reserve_example =
    cancel-reserve ledger "claude" 4 (plan 4) ledger-IsValid window-ledger refl reserve-ledger-none

nothing-pending : pending ledger "claude" ≡ []
unfolding pending lookup
nothing-pending = refl

reconcile-too_much :
    (reconcile (reserve ledger "claude" (pos 5)).0 "claude" (pos 7)).1 ≡ some reconcile_invalid
unfolding reconcile reconcile_in reconcile_pending reconcile_window put_pending
reconcile-too_much = rw reserve-ledger (rw (window-held, pending-held) refl)

cancel-reconcile_refused_example :
    ((cancel (reconcile (reserve ledger "claude" (pos 5)).0 "claude" (pos 7)).0 "claude" (pos 5)).1
      ≡ some reservation_missing)
    × ((cancel
          (reconcile (reserve ledger "claude" (pos 5)).0 "claude" (pos 7)).0
          "claude"
          (pos 5)).0.windows
        ≡ (reserve ledger "claude" (pos 5)).0.windows)
cancel-reconcile_refused_example =
    cancel-reconcile_refused ledger "claude" 4 7 (plan 4) ledger-IsValid window-ledger refl
      nothing-pending reserve-ledger-none reconcile-too_much
