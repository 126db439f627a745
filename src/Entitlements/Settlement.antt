-- ===== src/Entitlements/Settlement.antt =====
-- How `reserve`, `cancel` and `reconcile` settle the calls of one provider.
use torq_cli_python.Prelude.{
  ℕ, suc, ◌+◌, ◌-◌, ◌≤◌, String, ◌≡◌, ◌≢◌, sym, refl, false, Option, none, some, List, [], ◌∷◌,
  ◌++◌, ◌∙◌, ◌==◌, eq_iff, eq_refl, eqb, arith, Bool-cases, inl, inr, sum,
}
use torq_cli_python.Dict.{Dict, lookup, insert, lookup-insert, lookup-erase, erase}
use torq_cli_python.Entitlements.{
  ok, pos, PlanWindow, check_window, replace_used, Ledger, window, pending, reserve, cancel,
  reconcile, store_window, reserve_window, reserve_in, cancel_window, cancel_pending, cancel_in,
  reconcile_window, reconcile_pending, reconcile_in, put_pending, window_of, unknown_window,
  checked, remove_first, reconcile_invalid, reservation_missing, Result, err, EntitlementError,
}
use torq_cli_python.Entitlements.Bounds.{IsValid}

text_ne : (s t : String) → (s == t) ≡ false → s ≢ t
text_ne s t h e = ground (arith, eq_iff s t)

unknown≢plan : ◌≢◌ {A = String} "unknown" "plan_covered"
unknown≢plan = text_ne "unknown" "plan_covered" refl

-- A reservation that succeeds for a provider with a plan-covered window adds its calls to the
-- window's use and to the end of the provider's pending list.
reserve-plan :
    (s : Ledger) (p : String) (n : ℕ) (w : PlanWindow)
    → window s p ≡ ok w
    → w.settlement ≡ "plan_covered"
    → (reserve s p (pos n)).1 ≡ none
    → (reserve s p (pos n)).0 ≡ record s {
      windows = insert w.account (record w { used = w.used + n }) s.windows;
      reservations = insert p (pending s p ++ n ∷ []) s.reservations;
    }
unfolding reserve reserve_in reserve_window replace_used checked
reserve-plan s p n w e c h = ground (arith, e, eq_iff w.settlement "plan_covered")

-- A plan-covered window that a provider resolves to is stored under its own account.
window-stored :
    (s : Ledger) (p : String) (w : PlanWindow)
    → IsValid s
    → window s p ≡ ok w
    → w.settlement ≡ "plan_covered"
    → (lookup p s.provider_accounts ≡ some w.account) × (lookup w.account s.windows ≡ some w)
unfolding window unknown_window window_of
window-stored s p w v e c = go (lookup p s.provider_accounts) refl
  where
    found :
        (a : String) (o : Option PlanWindow)
        → lookup a s.windows ≡ o
        → window_of o ≡ ok w
        → (a ≡ w.account) × (lookup a s.windows ≡ some w)
    found a none q h = cc
    found a (some x) q h = let q' : lookup a s.windows ≡ some w = cc in (sym (v.keyed a w q'), q')

    go :
        (o : Option String)
        → lookup p s.provider_accounts ≡ o
        → (lookup p s.provider_accounts ≡ some w.account) × (lookup w.account s.windows ≡ some w)
    go none q = absurd (unknown≢plan (cc))
    go (some a) q = ground (arith, found a (lookup a s.windows) refl)

sum-append : (l r : List ℕ) → sum (l ++ r) ≡ sum l + sum r
sum-append [] r = omega arith
sum-append (n ∷ l) r = omega (arith, sum-append l r)

remove_first-snoc :
    (n : ℕ) (l : List ℕ) → (r : List ℕ) × (remove_first n (l ++ n ∷ []) ≡ some r) × (sum r ≡ sum l)
unfolding remove_first
remove_first-snoc n [] = ([], ground arith, refl)
remove_first-snoc n (m ∷ l) = elim (Bool-cases (eqb m n)) [
  | inl e ↦ (l ++ n ∷ [], rw e, ground (arith, sum-append l (n ∷ []), eqb n m))
  | inr e ↦ let (r, h, k) = remove_first-snoc n l in (m ∷ r, rw (e, h), omega (arith, k))
]

cancel-plan :
    (s : Ledger) (p : String) (n : ℕ) (w : PlanWindow) (l : List ℕ)
    → window s p ≡ ok w
    → w.settlement ≡ "plan_covered"
    → remove_first (suc n) (pending s p) ≡ some l
    → suc n ≤ w.used
    → check_window (record w { used = w.used - suc n }) ≡ none
    → cancel s p (pos (suc n)) ≡ (
      record s {
        windows = insert w.account (record w { used = w.used - suc n }) s.windows;
        reservations = put_pending p l s.reservations;
      },
      none,
    )
unfolding cancel cancel_in cancel_pending cancel_window store_window replace_used checked
cancel-plan s p n w l e c r le k = ground (arith, e, eq_iff w.settlement "plan_covered")

-- Storing a window again under its account is seen by every provider of the account.
window-insert :
    (s : Ledger) (p : String) (w : PlanWindow) (d : Dict (List ℕ))
    → lookup p s.provider_accounts ≡ some w.account
    → window (record s { windows = insert w.account w s.windows; reservations = d }) p ≡ ok w
unfolding window window_of
window-insert s p w d e = rw (e, window) (rw (lookup-insert, eq_refl))

-- Cancelling what was just reserved succeeds and gives every account back the window it had.
pub cancel-reserve :
    (s : Ledger) (p : String) (n : ℕ) (w : PlanWindow)
    → IsValid s
    → window s p ≡ ok w
    → w.settlement ≡ "plan_covered"
    → (reserve s p (pos (suc n))).1 ≡ none
    → ((cancel (reserve s p (pos (suc n))).0 p (pos (suc n))).1 ≡ none)
      × ((a : String)
          → lookup a (cancel (reserve s p (pos (suc n))).0 p (pos (suc n))).0.windows
            ≡ lookup a s.windows)
unfolding pending
cancel-reserve s p n w v e c h =
    let s' : Ledger = record s {
      windows = insert w.account (record w { used = w.used + suc n }) s.windows;
      reservations = insert p (pending s p ++ suc n ∷ []) s.reservations;
    } in
    let w' : PlanWindow = record w { used = w.used + suc n } in
    let stored = window-stored s p w v e c in
    let back : w.used + suc n - suc n ≡ w.used = omega arith in
    let (l, removed, _) = remove_first-snoc (suc n) (pending s p) in
    let done =
      cancel-plan s' p n w' l (window-insert s p w' _ stored.0) c
        (rw (lookup-insert, eq_refl, pending) removed) (omega arith)
        (rw back (v.sound w.account w stored.1)) in
    rw (reserve-plan s p (suc n) w e c h) (
      rw done (
        refl,
        λ a. rw (lookup-insert, lookup-insert) (ground (arith, eq_iff w.account a, stored.1, back)),
      ))

store_window-refused :
    (s : Ledger) (o : Result PlanWindow) (e : EntitlementError)
    → (store_window s o).1 ≡ some e
    → (store_window s o).0 ≡ s
unfolding store_window
store_window-refused s (ok w) e h = cc
store_window-refused s (err f) e h = refl

-- A reconciliation that is refused, with one reservation pending, has dropped it and no more.
reconcile-refused :
    (s : Ledger) (p : String) (m held : ℕ) (w : PlanWindow)
    → window s p ≡ ok w
    → w.settlement ≡ "plan_covered"
    → pending s p ≡ held ∷ []
    → (reconcile s p (pos m)).1 ≡ some reconcile_invalid
    → (reconcile s p (pos m)).0 ≡ record s { reservations = erase p s.reservations }
unfolding reconcile reconcile_in reconcile_pending reconcile_window put_pending
reconcile-refused s p m held w e c q h =
    let kept = record s { reservations = erase p s.reservations } in
    ground (
      arith,
      e,
      q,
      eq_iff w.settlement "plan_covered",
      store_window-refused kept (replace_used w (w.used + m - held)) reconcile_invalid,
    )

cancel-missing :
    (s : Ledger) (p : String) (n : ℕ) (w : PlanWindow)
    → window s p ≡ ok w
    → w.settlement ≡ "plan_covered"
    → pending s p ≡ []
    → cancel s p (pos (suc n)) ≡ (s, some reservation_missing)
unfolding cancel cancel_in cancel_pending remove_first
cancel-missing s p n w e c q = rw (e, q) (ground (arith, eq_iff w.settlement "plan_covered"))

pending-insert :
    (s : Ledger) (p : String) (l : List ℕ) (ws : Dict PlanWindow)
    → pending (record s { windows = ws; reservations = insert p l s.reservations }) p ≡ l
unfolding pending
pending-insert s p l ws = rw (lookup-insert, eq_refl, pending)

pending-erase :
    (s : Ledger) (p : String) → pending (record s { reservations = erase p s.reservations }) p ≡ []
unfolding pending
pending-erase s p = rw (lookup-erase, eq_refl, pending)

-- A reservation is lost by a reconciliation that is refused: where a provider of a plan-covered
-- window has nothing pending, reserves calls, and a reconciliation of any amount is then refused
-- as invalid, the calls can be cancelled no more, and the windows count them as before.
pub cancel-reconcile_refused :
    (s : Ledger) (p : String) (n m : ℕ) (w : PlanWindow)
    → IsValid s
    → window s p ≡ ok w
    → w.settlement ≡ "plan_covered"
    → pending s p ≡ []
    → (reserve s p (pos (suc n))).1 ≡ none
    → (reconcile (reserve s p (pos (suc n))).0 p (pos m)).1 ≡ some reconcile_invalid
    → ((cancel (reconcile (reserve s p (pos (suc n))).0 p (pos m)).0 p (pos (suc n))).1
        ≡ some reservation_missing)
      × ((cancel (reconcile (reserve s p (pos (suc n))).0 p (pos m)).0 p (pos (suc n))).0.windows
          ≡ (reserve s p (pos (suc n))).0.windows)
cancel-reconcile_refused s p n m w v e c q h k =
    let s' : Ledger = record s {
      windows = insert w.account (record w { used = w.used + suc n }) s.windows;
      reservations = insert p (pending s p ++ suc n ∷ []) s.reservations;
    } in
    let w' : PlanWindow = record w { used = w.used + suc n } in
    let made : (reserve s p (pos (suc n))).0 ≡ s' = reserve-plan s p (suc n) w e c h in
    let stored = window-stored s p w v e c in
    let held : pending s' p ≡ suc n ∷ [] =
      pending-insert s p (pending s p ++ suc n ∷ []) s'.windows ∙ rw q in
    let refused = rw made at k in
    let dropped : Ledger = record s' { reservations = erase p s'.reservations } in
    let left : (reconcile s' p (pos m)).0 ≡ dropped =
      reconcile-refused s' p m (suc n) w' (window-insert s p w' _ stored.0) c held refused in
    let missing : cancel dropped p (pos (suc n)) ≡ (dropped, some reservation_missing) =
      cancel-missing dropped p n w' (window-insert s p w' _ stored.0) c (pending-erase s' p) in
    rw (made, left, missing) (refl, refl)
