-- ===== src/Entitlements/Bounds.antt =====
-- What every operation of the entitlement ledger keeps: each stored window passes
-- `__post_init__` and stands under its own account.
use torq_cli_python.Prelude.{
  ℕ, ap, zero, suc, ◌+◌, ◌-◌, ◌≤◌, String, ◌≡◌, refl, Option, none, some, List, [], ◌∷◌, eq_iff,
  arith,
}
use torq_cli_python.Dict.{Dict, lookup, insert, lookup-insert}
use torq_cli_python.Entitlements.{
  Result, ok, err, ℤ, pos, negsuc, PlanWindow, check_window, replace_used, Ledger, window, pending,
  reserve, cancel, reconcile, store_window, reserve_window, reserve_in, cancel_window,
  cancel_pending, cancel_in, reconcile_window, reconcile_pending, reconcile_in, checked,
  remove_first, bind_providers, bind_windows, with_bindings, init,
}

pub record IsValid (s : Ledger) : Type 0 where
  pub sound : (a : String) (w : PlanWindow) → lookup a s.windows ≡ some w → check_window w ≡ none
  pub keyed : (a : String) (w : PlanWindow) → lookup a s.windows ≡ some w → w.account ≡ a

check_window-le : (w : PlanWindow) → check_window w ≡ none → w.used + w.reserved ≤ w.limit
unfolding check_window
check_window-le w h = ground arith

replace_used-ok :
    (w : PlanWindow) (n : ℕ) (w' : PlanWindow)
    → replace_used w n ≡ ok w'
    → (check_window w' ≡ none) × (w' ≡ record w { used = n })
unfolding replace_used checked
replace_used-ok w n w' h = ground arith

replaced-account :
    (w : PlanWindow) (n : ℕ) (w' : PlanWindow) → replace_used w n ≡ ok w' → w'.account ≡ w.account
replaced-account w n w' h = ap (λ (x : PlanWindow). x.account) (replace_used-ok w n w' h).1

insert-IsValid :
    (s : Ledger) (w : PlanWindow) (d : Dict (List ℕ))
    → IsValid s
    → check_window w ≡ none
    → IsValid (record s { windows = insert w.account w s.windows; reservations = d })
insert-IsValid s w d v c = record {
  sound = λ a x. rw lookup-insert (ground (arith, v.sound a x, eq_iff w.account a));
  keyed = λ a x. rw lookup-insert (ground (arith, v.keyed a x, eq_iff w.account a));
}

reservations-IsValid :
    (s : Ledger) (d : Dict (List ℕ)) → IsValid s → IsValid (record s { reservations = d })
reservations-IsValid s d v = record { sound = v.sound; keyed = v.keyed }

store-IsValid :
    (s : Ledger) (w : PlanWindow) (n : ℕ)
    → IsValid s
    → IsValid (store_window s (replace_used w n)).0
store-IsValid s w n v = go (replace_used w n) refl
  where
    go : (r : Result PlanWindow) → replace_used w n ≡ r → IsValid (store_window s r).0
    go (err e) h = unfold store_window in v
    go (ok w') h =
        unfold store_window in insert-IsValid s w' s.reservations v (replace_used-ok w n w' h).0

-- `reserve` keeps every window within its limit and under its account, whatever it raises.
reserve-IsValid :
    (s : Ledger) (provider : String) (calls : ℤ) → IsValid s → IsValid (reserve s provider calls).0
reserve-IsValid s p (negsuc n) v = unfold reserve in v
reserve-IsValid s p (pos n) v = unfold reserve in go (window s p)
  where
    step :
        (w : PlanWindow) (r : Result PlanWindow)
        → replace_used w (w.used + n) ≡ r
        → IsValid (reserve_window s p n r).0
    step w (err e) h = unfold reserve_window in v
    step w (ok w') h =
        unfold reserve_window in insert-IsValid s w' _ v (replace_used-ok w (w.used + n) w' h).0

    go : (r : Result PlanWindow) → IsValid (reserve_in s p n r).0
    go (err e) = unfold reserve_in in v
    go (ok w) = unfold reserve_in in ground (arith, step w (replace_used w (w.used + n)) refl)

module _ (s : Ledger) (v : IsValid s) where
  cancel_window-IsValid :
      (n : ℕ) (w : PlanWindow) (d : Dict (List ℕ))
      → IsValid (cancel_window (record s { reservations = d }) n w).0
  unfolding cancel_window
  cancel_window-IsValid n w d =
      let s' = record s { reservations = d } in
      let v' = reservations-IsValid s d v in ground (arith, v', store-IsValid s' w (w.used - n) v')

  cancel_in-IsValid : (p : String) (n : ℕ) (r : Result PlanWindow) → IsValid (cancel_in s p n r).0
  unfolding cancel_in
  cancel_in-IsValid p n (err e) = v
  cancel_in-IsValid p n (ok w) = ground (arith, step (remove_first n (pending s p)))
    where
      step : (l : Option (List ℕ)) → IsValid (cancel_pending s p n w l).0
      step none = unfold cancel_pending in v
      step (some l) = unfold cancel_pending in cancel_window-IsValid n w _

  reconcile_window-IsValid :
      (w : PlanWindow) (held n : ℕ) (d : Dict (List ℕ))
      → IsValid (reconcile_window (record s { reservations = d }) w held n).0
  unfolding reconcile_window
  reconcile_window-IsValid w held n d =
      let s' = record s { reservations = d } in
      let v' = reservations-IsValid s d v in
      ground (arith, v', store-IsValid s' w (w.used + n - held) v')

  reconcile_in-IsValid :
      (p : String) (n : ℕ) (r : Result PlanWindow) → IsValid (reconcile_in s p n r).0
  unfolding reconcile_in
  reconcile_in-IsValid p n (err e) = v
  reconcile_in-IsValid p n (ok w) = ground (arith, step (pending s p))
    where
      step : (l : List ℕ) → IsValid (reconcile_pending s p n w l).0
      step [] = unfold reconcile_pending in reconcile_window-IsValid w 0 n _
      step (h ∷ l) = unfold reconcile_pending in reconcile_window-IsValid w h n _

-- `cancel` and `reconcile` keep every window within its limit and under its account, also where
-- they raise after the reservation was taken out of the pending list.
settle-IsValid :
    (s : Ledger) (provider : String) (calls : ℤ)
    → IsValid s
    → IsValid (cancel s provider calls).0 × IsValid (reconcile s provider calls).0
unfolding cancel reconcile
settle-IsValid s p (negsuc n) v = (v, v)
settle-IsValid s p (pos zero) v = (v, reconcile_in-IsValid s v p 0 (window s p))
settle-IsValid s p (pos (suc n)) v =
    (cancel_in-IsValid s v p (suc n) (window s p), reconcile_in-IsValid s v p (suc n) (window s p))

-- A call that a run makes on the ledger.
pub data Call : Type 0 where
  reserving cancelling reconciling : String → ℤ → Call

unfoldable pub step : Ledger → Call → Ledger
step s (reserving p n) = (reserve s p n).0
step s (cancelling p n) = (cancel s p n).0
step s (reconciling p n) = (reconcile s p n).0

-- A run goes on after a refused call, from the state that the call left.
unfoldable pub run : Ledger → List Call → Ledger
run s [] = s
run s (c ∷ cs) = run (step s c) cs

step-IsValid : (s : Ledger) (c : Call) → IsValid s → IsValid (step s c)
unfolding step
step-IsValid s (reserving p n) v = reserve-IsValid s p n v
step-IsValid s (cancelling p n) v = (settle-IsValid s p n v).0
step-IsValid s (reconciling p n) v = (settle-IsValid s p n v).1

run-IsValid : (s : Ledger) (cs : List Call) → IsValid s → IsValid (run s cs)
unfolding run
run-IsValid s [] v = v
run-IsValid s (c ∷ cs) v = run-IsValid (step s c) cs (step-IsValid s c v)

-- The windows that a caller hands in were made by `PlanWindow`, which runs `__post_init__`.
abbrev pub Sound : Dict PlanWindow → Type 0
Sound d = (a : String) (w : PlanWindow) → lookup a d ≡ some w → check_window w ≡ none

bind_windows-cons :
    (k : String) (x : PlanWindow) (d : Dict PlanWindow) (b b' : Dict String)
    → bind_windows ((k, x) ∷ d) b ≡ ok b'
    → (x.account ≡ k) × (b₁ : Dict String) × (bind_windows d b₁ ≡ ok b')
unfolding bind_windows
bind_windows-cons k x d b b' h = go (bind_providers k x.providers b) refl
  where
    go :
        (r : Result (Dict String))
        → bind_providers k x.providers b ≡ r
        → (x.account ≡ k) × (b₁ : Dict String) × (bind_windows d b₁ ≡ ok b')
    go (err e) q = ground (arith, eq_iff k x.account)
    go (ok b₁) q = (ground (arith, eq_iff k x.account), b₁, ground (arith, eq_iff k x.account))

bind_windows-keyed :
    (d : Dict PlanWindow) (b b' : Dict String)
    → bind_windows d b ≡ ok b'
    → (a : String) (w : PlanWindow) → lookup a d ≡ some w
    → w.account ≡ a
unfolding lookup
bind_windows-keyed [] b b' h a w e = cc
bind_windows-keyed ((k, x) ∷ d) b b' h a w e =
    let (keyed, b₁, h') = bind_windows-cons k x d b b' h in
    ground (arith, eq_iff k a, bind_windows-keyed d b₁ b' h' a w)

pub init-IsValid : (d : Dict PlanWindow) (s : Ledger) → Sound d → init d ≡ ok s → IsValid s
unfolding init with_bindings
init-IsValid d s h e = go (bind_windows d []) refl
  where
    go : (r : Result (Dict String)) → bind_windows d [] ≡ r → IsValid s
    go (err x) q = ground arith
    go (ok b) q =
        let same : s.windows ≡ d = ground arith in
        record {
          sound = λ a w l. h a w (ground arith);
          keyed = λ a w l. bind_windows-keyed d [] b q a w (ground arith);
        }

-- From a ledger that the constructor accepted, whatever calls are made and whichever of them are
-- refused, every window stands under its own account and its used and reserved calls are
-- together within its limit.
pub run-within-limit :
    (d : Dict PlanWindow) (s : Ledger) (calls : List Call) (a : String) (w : PlanWindow)
    → Sound d
    → init d ≡ ok s
    → lookup a (run s calls).windows ≡ some w
    → (w.used + w.reserved ≤ w.limit) × (w.account ≡ a)
run-within-limit d s calls a w h e l =
    let v = run-IsValid s calls (init-IsValid d s h e) in
    (check_window-le w (v.sound a w l), v.keyed a w l)
