-- ===== src/Evidence/Contract/Attempts/Single.antt =====
-- One lane, one open attempt.
use torq_cli_python.Prelude.{
  ℕ, String, ◌≡◌, refl, true, false, Option, none, some, [], ◌∷◌, ◌==◌, eq_iff, arith,
  if◌then◌else◌,
}
use torq_cli_python.Dict.{Dict, lookup, insert, lookup-insert}
use torq_cli_python.Evidence.Names.{Transition}
use torq_cli_python.Evidence.Contract.State.{Attempt, State, is_open, role_open}
use torq_cli_python.Evidence.Contract.Outcome.{Ends}
use torq_cli_python.Evidence.Contract.Attempts.{
  AttemptPayload, on_attempt_created, on_attempt, attempt_known, attempt_moves, dispatch, terminate,
}

-- Two open attempts of the same role are the same attempt.
abbrev pub OneOpen : Dict Attempt → Type 0
OneOpen d =
    (i j : String) (a b : Attempt)
    → lookup i d ≡ some a
    → lookup j d ≡ some b
    → a.role ≡ b.role
    → is_open a ≡ true
    → is_open b ≡ true
    → i ≡ j

role_open-lookup :
    (role : String) (d : Dict Attempt) (j : String) (b : Attempt)
    → role_open role d ≡ false
    → lookup j d ≡ some b
    → b.role ≡ role
    → is_open b ≡ false
unfolding role_open lookup
role_open-lookup role [] j b h l e = cc
role_open-lookup role ((k, a) ∷ d) j b h l e =
    ground (arith, role_open-lookup role d j b, eq_iff a.role role, eq_iff k j)

-- A new attempt of a role without an open one.
insert-new :
    (d : Dict Attempt) (k : String) (n : Attempt)
    → OneOpen d
    → role_open n.role d ≡ false
    → OneOpen (insert k n d)
insert-new d k n o h i j a b l m =
    let l' : (if k == i then some n else lookup i d) ≡ some a = rw lookup-insert at l in
    let m' : (if k == j then some n else lookup j d) ≡ some b = rw lookup-insert at m in
    λ e x y. ground (
      arith,
      eq_iff k i,
      eq_iff k j,
      o i j a b,
      role_open-lookup n.role d i a h,
      role_open-lookup n.role d j b h,
    )

-- A change of an open attempt that keeps its role.
insert-known :
    (d : Dict Attempt) (k : String) (c n : Attempt)
    → OneOpen d
    → lookup k d ≡ some c
    → n.role ≡ c.role
    → is_open c ≡ true
    → OneOpen (insert k n d)
insert-known d k c n o h r v i j a b l m =
    let l' : (if k == i then some n else lookup i d) ≡ some a = rw lookup-insert at l in
    let m' : (if k == j then some n else lookup j d) ≡ some b = rw lookup-insert at m in
    λ e x y. ground (arith, eq_iff k i, eq_iff k j, o i j a b, o k j c b, o i k a c)

module _ (s : State) (o : OneOpen s.attempts) where
  pub on_attempt_created-OneOpen :
      (seq : ℕ) (p : AttemptPayload) → Ends (λ s'. OneOpen s'.attempts) (on_attempt_created seq p s)
  unfolding on_attempt_created
  on_attempt_created-OneOpen seq p =
      let n : Attempt = record {
        role = p.role;
        ordinal = p.ordinal;
        cycle = p.cycle;
        dispatched = false;
        terminal = none;
        created_sequence = seq;
      } in
      ground (arith, insert-new s.attempts p.attempt_id n o)

  pub on_attempt-OneOpen :
      (t : Transition) (seq : ℕ) (p : AttemptPayload)
      → Ends (λ s'. OneOpen s'.attempts) (on_attempt t seq p s)
  unfolding on_attempt
  on_attempt-OneOpen t seq p = go (lookup p.attempt_id s.attempts) refl
    where
      sent :
          (a : Attempt)
          → lookup p.attempt_id s.attempts ≡ some a
          → is_open a ≡ true
          → Ends (λ s'. OneOpen s'.attempts) (dispatch p a s)
      sent a l v =
          unfold dispatch in
          ground (
            arith,
            insert-known s.attempts p.attempt_id a (record a { dispatched = true }) o l refl v,
          )

      done :
          (a : Attempt)
          → lookup p.attempt_id s.attempts ≡ some a
          → is_open a ≡ true
          → Ends (λ s'. OneOpen s'.attempts) (terminate t seq p a s)
      done a l v =
          unfold terminate in
          ground (
            arith,
            insert-known s.attempts p.attempt_id a (record a { terminal = some t }) o l refl v,
          )

      go :
          (x : Option Attempt)
          → lookup p.attempt_id s.attempts ≡ x
          → Ends (λ s'. OneOpen s'.attempts) (attempt_known t seq p s x)
      go none l = unfold attempt_known in tt
      go (some a) l = unfold attempt_known attempt_moves in ground (arith, sent a l, done a l)
