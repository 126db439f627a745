-- ===== src/Evidence/Contract/Run/Steps.antt =====
-- What a receipt that the loop accepts has passed, and how an accepted list is made of such steps.
use torq_cli_python.Prelude.{
  ℕ, suc, ◌≡◌, refl, subst, Bool, true, false, none, List, [], ◌∷◌, arith,
}
use torq_cli_python.Json.{Value, int, obj, Fields}
use torq_cli_python.Evidence.Names.{Role, Transition}
use torq_cli_python.Evidence.World.{World}
use torq_cli_python.Evidence.Payload.Validate.{validate_receipt_payload, validate_transition}
use torq_cli_python.Evidence.Contract.State.{State, Receipt, initial, any_open, any_pending}
use torq_cli_python.Evidence.Contract.Outcome.{Outcome, go_on, stop}
use torq_cli_python.Evidence.Contract.Run.{
  apply, accept, shaped, step, run, authority, validate_lifecycle, at_end, ended,
}

-- The receipt has a positive sequence and a payload that its validator passes, the run was not
-- decided before it, and its branch led to the new state.
pub record Passed (w : World) (r : Receipt) (s s' : State) : Type 0 where
  pub seq : ℕ
  pub payload : Fields
  numbered : r.sequence ≡ int (suc seq)
  pub mapping : r.payload ≡ obj payload
  pub undecided : s.terminal_decision ≡ false
  authorized : authority r payload ≡ none
  pub valid : validate_transition w r.transition payload r.writer_role ≡ none
  pub applied : apply r.transition (suc seq) r.writer_role payload s ≡ go_on s'

valid_transition :
    (w : World) (t : Transition) (p : Fields) (r : Role)
    → validate_receipt_payload w t p r ≡ none
    → validate_transition w t p r ≡ none
unfolding validate_receipt_payload
valid_transition w t p r h = ground arith

accept-Passed :
    (w : World) (r : Receipt) (n : ℕ) (p : Fields) (s s' : State)
    → accept w r (suc n) p s ≡ go_on s'
    → (s.terminal_decision ≡ false)
      × (authority r p ≡ none)
      × (validate_receipt_payload w r.transition p r.writer_role ≡ none)
      × (apply r.transition (suc n) r.writer_role p s ≡ go_on s')
unfolding accept
accept-Passed w r n p s s' h = ground arith

pub step-Passed : (w : World) (r : Receipt) (s s' : State) → step w r s ≡ go_on s' → Passed w r s s'
unfolding step
step-Passed w r s s' h = go r.sequence refl r.payload refl h
  where
    passed :
        (n : ℕ) (p : Fields)
        → r.sequence ≡ int (suc n)
        → r.payload ≡ obj p
        → accept w r (suc n) p s ≡ go_on s'
        → Passed w r s s'
    passed n p a b k =
        let (u, x, v, y) = accept-Passed w r n p s s' k in
        record {
          seq = n;
          payload = p;
          numbered = a;
          mapping = b;
          undecided = u;
          authorized = x;
          valid = valid_transition w r.transition p r.writer_role v;
          applied = y;
        }

    go :
        (q : Value)
        → r.sequence ≡ q
        → (v : Value) → r.payload ≡ v
        → shaped w r q v s ≡ go_on s'
        → Passed w r s s'
    go (int (suc n)) a (obj p) b k = passed n p a b k
    go _ a _ b k = unfold shaped in cc

-- An accepted list is an accepted first receipt and an accepted rest.
pub run-cons :
    (w : World) (r : Receipt) (rs : List Receipt) (s s' : State)
    → run w (r ∷ rs) s ≡ go_on s'
    → (t : State) × (step w r s ≡ go_on t) × (run w rs t ≡ go_on s')
unfolding run
run-cons w r rs s s' h = go (step w r s) refl
  where
    go :
        (o : Outcome)
        → step w r s ≡ o
        → (t : State) × (step w r s ≡ go_on t) × (run w rs t ≡ go_on s')
    go (go_on t) e = (t, e, rw (e, run) at h)
    go (stop f) e = let clash : stop f ≡ go_on s' = rw (e, run) at h in cc

-- A state property that each accepted receipt keeps holds after every accepted list.
pub run-keeps {ℓ} :
    (w : World) (P : State → Type ℓ)
    → ((r : Receipt) (s s' : State) → Passed w r s s' → P s → P s')
    → (rs : List Receipt) (s s' : State) → run w rs s ≡ go_on s'
    → P s
    → P s'
unfolding run
run-keeps w P keep [] s s' h p = subst P (cc) p
run-keeps w P keep (r ∷ rs) s s' h p =
    let (t, e, h') = run-cons w r rs s s' h in
    run-keeps w P keep rs t s' h' (keep r s t (step-Passed w r s t e) p)

at_end-none :
    (sealed : Bool) (s : State)
    → at_end sealed s ≡ none
    → sealed ≡ true
    → (any_open s.attempts ≡ false) × (s.run_terminating ≡ false) × (any_pending s.commands ≡ false)
unfolding at_end
at_end-none sealed s h e = ground arith

-- An accepted list runs to a state, and if it is sealed nothing is left open in it.
pub lifecycle-accepted :
    (w : World) (sealed : Bool) (rs : List Receipt)
    → validate_lifecycle w sealed rs ≡ none
    → (s : State) × (run w rs initial ≡ go_on s)
      × (sealed ≡ true
          → (any_open s.attempts ≡ false)
            × (s.run_terminating ≡ false)
            × (any_pending s.commands ≡ false))
unfolding validate_lifecycle
lifecycle-accepted w sealed rs h = go (run w rs initial) refl h
  where
    go :
        (o : Outcome)
        → run w rs initial ≡ o
        → ended sealed o ≡ none
        → (s : State) × (run w rs initial ≡ go_on s)
          × (sealed ≡ true
              → (any_open s.attempts ≡ false)
                × (s.run_terminating ≡ false)
                × (any_pending s.commands ≡ false))
    go (go_on s) e k = (s, e, at_end-none sealed s k)
    go (stop f) e k = cc
