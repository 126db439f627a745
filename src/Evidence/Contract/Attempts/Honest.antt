-- ===== src/Evidence/Contract/Attempts/Honest.antt =====
-- What the terminal transition of an attempt says of its dispatch.
use torq_cli_python.Prelude.{
  ℕ, ◌≤◌, String, ◌≡◌, ◌≢◌, refl, sym, ◌∙◌, ◌⊎◌, Bool, true, false, ◌&&◌, not, Option, none, some,
  [], ◌∷◌, ◌==◌, eq_iff, ltb, arith, Bool-cases, inl, inr,
}
use torq_cli_python.Dict.{Dict, lookup, insert}
use torq_cli_python.Evidence.Names.{
  Transition, stage_blocked, stage_rejected, stage_completed, same_transition,
}
use torq_cli_python.Evidence.Contract.State.{Attempt, State, ended_as, latest, later}
use torq_cli_python.Evidence.Contract.Outcome.{Ends}
use torq_cli_python.Evidence.Contract.Attempts.{
  AttemptPayload, on_attempt_created, on_attempt, attempt_known, attempt_moves, dispatch, terminate,
}

-- A completed or rejected attempt was dispatched, a blocked one was not.
abbrev pub Honest : Attempt → Type 0
Honest a =
    (ended_as stage_completed a ≡ true → a.dispatched ≡ true)
    × (ended_as stage_rejected a ≡ true → a.dispatched ≡ true)
    × (ended_as stage_blocked a ≡ true → a.dispatched ≡ false)

-- Something holds of every attempt of the run.
abbrev pub Each {ℓ} : (Attempt → Type ℓ) → Dict Attempt → Type ℓ
Each P [] = Unit
Each P ((k, a) ∷ d) = P a × Each P d

-- The later of two attempts is one of them, and has the higher ordinal.
later-or :
    (a b : Attempt) (o : Option Attempt)
    → later a o ≡ some b
    → ((a ≡ b) ⊎ (o ≡ some b)) × (a.ordinal ≤ b.ordinal)
unfolding later
later-or a b none h = let same : a ≡ b = cc in (inl same, rw same (omega arith))
later-or a b (some c) h = go (ltb a.ordinal c.ordinal) refl
  where
    go :
        (t : Bool)
        → ltb a.ordinal c.ordinal ≡ t
        → ((a ≡ b) ⊎ (some c ≡ some b)) × (a.ordinal ≤ b.ordinal)
    go true e =
        let same : some c ≡ some b = rw (e, later) at h in
        let c_b : c ≡ b = cc in (inr same, rw⁻¹ c_b (ground arith))
    go false e =
        let same : some a ≡ some b = rw (e, later) at h in
        let a_b : a ≡ b = cc in (inl a_b, rw a_b (omega arith))

later-max : (a b c : Attempt) → later a (some c) ≡ some b → c.ordinal ≤ b.ordinal
unfolding later
later-max a b c h = ground arith

module _ {ℓ} (P : Attempt → Type ℓ) where
  Each-insert :
      (k : String) (a : Attempt) (d : Dict Attempt) → P a → Each P d → Each P (insert k a d)
  unfolding insert
  Each-insert k a [] p e = (p, tt)
  Each-insert k a ((j, b) ∷ d) p e = elim (Bool-cases (j == k)) [
    | inl q ↦ rw q (p, e.1)
    | inr q ↦ rw q (e.0, Each-insert k a d p e.1)
  ]

  pub Each-lookup :
      (k : String) (a : Attempt) (d : Dict Attempt) → lookup k d ≡ some a → Each P d → P a
  unfolding lookup
  Each-lookup k a [] h e = cc
  Each-lookup k a ((j, b) ∷ d) h e = elim (Bool-cases (j == k)) [
    | inl q ↦ let same : b ≡ a = ground arith in subst_P b a same e.0
    | inr q ↦ Each-lookup k a d (rw q at h) e.1
  ]
    where
      subst_P : (x y : Attempt) → x ≡ y → P x → P y
      subst_P x y q p = rw⁻¹ q p

  pub Each-latest :
      (role : String) (a : Attempt) (d : Dict Attempt)
      → latest role d ≡ some a
      → Each P d
      → P a × (a.role ≡ role)
  unfolding latest
  Each-latest role a [] h e = cc
  Each-latest role a ((k, b) ∷ d) h e = elim (Bool-cases (b.role == role)) [
    | inl q ↦ elim (later-or b a (latest role d) (rw q at h)).0 [
      | inl same ↦ rw⁻¹ same (e.0, ground (arith, eq_iff b.role role))
      | inr w ↦ Each-latest role a d w e.1
    ]
    | inr q ↦ Each-latest role a d (rw q at h) e.1
  ]

Each-map {ℓ κ} :
    (P : Attempt → Type ℓ) (Q : Attempt → Type κ) (d : Dict Attempt)
    → ((a : Attempt) → P a → Q a)
    → Each P d
    → Each Q d
Each-map P Q [] f e = tt
Each-map P Q ((k, a) ∷ d) f e = (f a e.0, Each-map P Q d f e.1)

later≢none : (a : Attempt) (o : Option Attempt) → later a o ≢ none
unfolding later
later≢none a none h = cc
later≢none a (some c) h = ground arith

-- The latest attempt of a role has the highest ordinal of the role.
latest-none :
    (role : String) (d : Dict Attempt)
    → latest role d ≡ none
    → Each (λ b. (b.role == role) ≡ false) d
unfolding latest
latest-none role [] h = tt
latest-none role ((k, b) ∷ d) h = elim (Bool-cases (b.role == role)) [
  | inl q ↦ absurd (later≢none b (latest role d) (rw q at h))
  | inr q ↦ (q, latest-none role d (rw q at h))
]

pub latest-max :
    (role : String) (a : Attempt) (d : Dict Attempt)
    → latest role d ≡ some a
    → Each (λ b. (b.role == role) ≡ true → b.ordinal ≤ a.ordinal) d
unfolding latest
latest-max role a [] h = tt
latest-max role a ((k, b) ∷ d) h = elim (Bool-cases (b.role == role)) [
  | inl q ↦
      let top = later-or b a (latest role d) (rw q at h) in
      (λ _. top.1, go (λ c. latest-max role c d) (latest role d) refl (rw q at h))
  | inr q ↦ (λ e. let clash : true ≡ false = sym e ∙ q in cc, latest-max role a d (rw q at h))
]
  where
    go :
        ((c : Attempt)
          → latest role d ≡ some c
          → Each (λ x. (x.role == role) ≡ true → x.ordinal ≤ c.ordinal) d)
        → (o : Option Attempt) → latest role d ≡ o
        → later b o ≡ some a
        → Each (λ x. (x.role == role) ≡ true → x.ordinal ≤ a.ordinal) d
    go rest none e m =
        Each-map _ _ d (λ x f t. let clash : true ≡ false = sym t ∙ f in cc) (latest-none role d e)
    go rest (some c) e m =
        Each-map _ _ d (λ x f t. omega (arith, f t, later-max b a c m)) (rest c e)

-- An attempt that is open, dispatched or not, says nothing that is not so.
open-Honest : (a : Attempt) → a.terminal ≡ none → Honest a
open-Honest a h = ground arith

terminated-Honest :
    (t : Transition) (a : Attempt)
    → (same_transition t stage_blocked && a.dispatched) ≡ false
    → (same_transition t stage_completed && not a.dispatched) ≡ false
    → (same_transition t stage_rejected && not a.dispatched) ≡ false
    → Honest (record a { terminal = some t })
terminated-Honest t a f g h = (ground arith, ground arith, ground arith)

module _ (s : State) (e : Each Honest s.attempts) where
  pub on_attempt_created-Honest :
      (seq : ℕ) (p : AttemptPayload)
      → Ends (λ s'. Each Honest s'.attempts) (on_attempt_created seq p s)
  unfolding on_attempt_created
  on_attempt_created-Honest seq p =
      let a : Attempt = record {
        role = p.role;
        ordinal = p.ordinal;
        cycle = p.cycle;
        dispatched = false;
        terminal = none;
        created_sequence = seq;
      } in
      ground (arith, Each-insert Honest p.attempt_id a s.attempts (open-Honest a refl) e)

  dispatch-Honest :
      (p : AttemptPayload) (a : Attempt)
      → a.terminal ≡ none
      → Ends (λ s'. Each Honest s'.attempts) (dispatch p a s)
  unfolding dispatch
  dispatch-Honest p a h =
      let b : Attempt = record a { dispatched = true } in
      ground (arith, Each-insert Honest p.attempt_id b s.attempts (open-Honest b h) e)

  terminated-Each :
      (t : Transition) (p : AttemptPayload) (a : Attempt)
      → (same_transition t stage_blocked && a.dispatched) ≡ false
      → (same_transition t stage_completed && not a.dispatched) ≡ false
      → (same_transition t stage_rejected && not a.dispatched) ≡ false
      → Each Honest (insert p.attempt_id (record a { terminal = some t }) s.attempts)
  terminated-Each t p a f g h =
      Each-insert Honest p.attempt_id (record a { terminal = some t }) s.attempts
        (terminated-Honest t a f g h) e

  terminate-Honest :
      (t : Transition) (seq : ℕ) (p : AttemptPayload) (a : Attempt)
      → Ends (λ s'. Each Honest s'.attempts) (terminate t seq p a s)
  unfolding terminate
  terminate-Honest t seq p a = ground (arith, terminated-Each t p a)

  pub on_attempt-Honest :
      (t : Transition) (seq : ℕ) (p : AttemptPayload)
      → Ends (λ s'. Each Honest s'.attempts) (on_attempt t seq p s)
  unfolding on_attempt
  on_attempt-Honest t seq p = go (lookup p.attempt_id s.attempts)
    where
      go : (o : Option Attempt) → Ends (λ s'. Each Honest s'.attempts) (attempt_known t seq p s o)
      go none = unfold attempt_known in tt
      go (some a) =
          unfold attempt_known attempt_moves in
          ground (arith, dispatch-Honest p a, terminate-Honest t seq p a)
