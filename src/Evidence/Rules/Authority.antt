-- ===== src/Evidence/Rules/Authority.antt =====
-- What the authority matrix allows.
use torq_cli_python.Prelude.{
  String, ◌≡◌, refl, sym, ap, ◌∙◌, not, subst, all-mem, Bool-cases, &&-eq_true, ◌↔◌, ◌⊎◌, inl, inr,
  true, false, Option, none, some, List, [], ◌∷◌, arith, eq_iff, eq_refl,
}
use mathlib.Core.List.Memᴰ.{Memᴰ, head, tail}
use torq_cli_python.Json.{Fields}
use torq_cli_python.Evidence.Names.{
  Transition, Role, Basis, orchestrator, observed, same_transition, same_role, same_basis,
}
use torq_cli_python.Evidence.Rules.{
  TransitionRule, transition_rules, is_current_audit, same_decision, find_rule, normalized,
  transition_rule, decision_of, without_rule, by_rule, current_authority, key_free, keys_distinct,
  same_key, transition_authority_finding,
}

same_transition-eq : (t u : Transition) → same_transition t u ≡ true → t ≡ u
same_transition-eq t u h = ground arith

same_role-eq : (t u : Role) → same_role t u ≡ true → t ≡ u
same_role-eq t u h = ground arith

same_basis-eq : (t u : Basis) → same_basis t u ≡ true → t ≡ u
same_basis-eq t u h = ground arith

-- The writer, the transition and the decision of a rule are those given.
abbrev Matches : TransitionRule → Role → Transition → Option String → Type 0
Matches x r t d = (x.writer_role ≡ r) × (x.transition ≡ t) × (x.decision_value ≡ d)

same_decision-eq : (a b : Option String) → same_decision a b ≡ true → a ≡ b
unfolding same_decision
same_decision-eq none none h = refl
same_decision-eq (some a) (some b) h = ground (arith, eq_iff a b)
same_decision-eq none (some b) h = cc
same_decision-eq (some a) none h = cc

same_decision_refl : (a : Option String) → same_decision a a ≡ true
unfolding same_decision
same_decision_refl none = refl
same_decision_refl (some a) = eq_refl a

same_key_sound :
    (x : TransitionRule) (r : Role) (t : Transition) (d : Option String)
    → same_key x r t d ≡ true
    → Matches x r t d
unfolding same_key
same_key_sound x r t d h =
    let (a, h') = &&-eq_true _ _ h in
    let (b, c) = &&-eq_true _ _ h' in
    (same_role-eq _ _ a, same_transition-eq _ _ b, same_decision-eq _ _ c)

same_role_refl : (r : Role) → same_role r r ≡ true
same_role_refl r = ground arith

same_transition_refl : (t : Transition) → same_transition t t ≡ true
same_transition_refl t = ground arith

same_basis_refl : (b : Basis) → same_basis b b ≡ true
same_basis_refl b = ground arith

same_key_refl : (x : TransitionRule) → same_key x x.writer_role x.transition x.decision_value ≡ true
unfolding same_key
same_key_refl x = rw (same_role_refl, same_transition_refl, same_decision_refl)

find_rule_sound :
    (xs : List TransitionRule) (r : Role) (t : Transition) (d : Option String) (x : TransitionRule)
    → find_rule xs r t d ≡ some x
    → Memᴰ x xs × Matches x r t d
unfolding find_rule
find_rule_sound [] r t d x h = cc
find_rule_sound (y ∷ ys) r t d x h = elim (Bool-cases (same_key y r t d)) [
  | inl e ↦
      let at_y : some y ≡ some x = rw e at h in
      let at_x : y ≡ x = cc in (head (sym at_x), same_key_sound x r t d (rw at_x at e))
  | inr e ↦ let (m, k) = find_rule_sound ys r t d x (rw e at h) in (tail m, k)
]

-- The source's load-time check: the keys of the table are distinct.
keys_distinct_lem : keys_distinct transition_rules ≡ true
unfolding keys_distinct transition_rules key_free same_key same_decision
keys_distinct_lem = refl

key_free-mem :
    (x y : TransitionRule) (ys : List TransitionRule)
    → key_free y ys ≡ true
    → Memᴰ x ys
    → same_key x y.writer_role y.transition y.decision_value ≡ false
unfolding key_free
key_free-mem x y [] h m = elim m [ ]
key_free-mem x y (z ∷ ys) h (head e) = rw e (ground arith)
key_free-mem x y (z ∷ ys) h (tail m) = key_free-mem x y ys (&&-eq_true _ _ h).1 m

same_key_symm :
    (x y : TransitionRule)
    → same_key x y.writer_role y.transition y.decision_value ≡ true
    → same_key y x.writer_role x.transition x.decision_value ≡ true
same_key_symm x y h =
    let (a, b, c) = same_key_sound x y.writer_role y.transition y.decision_value h in
    rw (a, b, c) (same_key_refl y)

-- A rule of a table with distinct keys is what a lookup at its key finds.
find_rule_complete :
    (xs : List TransitionRule) (x : TransitionRule)
    → keys_distinct xs ≡ true
    → Memᴰ x xs
    → find_rule xs x.writer_role x.transition x.decision_value ≡ some x
unfolding find_rule keys_distinct
find_rule_complete [] x h m = elim m [ ]
find_rule_complete (y ∷ ys) x h (head e) = rw e (rw same_key_refl)
find_rule_complete (y ∷ ys) x h (tail m) =
    elim (Bool-cases (same_key y x.writer_role x.transition x.decision_value)) [
      | inl e ↦
          let clash : true ≡ false =
            sym (same_key_symm y x e) ∙ key_free-mem x y ys (&&-eq_true _ _ h).0 m in
          cc
      | inr e ↦ rw e (find_rule_complete ys x (&&-eq_true _ _ h).1 m)
    ]

-- What the matrix allows: a rule for the writer, the transition and the decision, on its basis;
-- or a declared audit event that the orchestrator observed.
abbrev pub Allowed : Role → Transition → Basis → Fields → Type 0
Allowed r t b payload =
    (x : TransitionRule) × Memᴰ x transition_rules
    × Matches x r t (normalized (decision_of t payload))
    × (x.evidence_basis ≡ b)

abbrev pub AuditEvent : Role → Transition → Basis → Type 0
AuditEvent r t b = (is_current_audit t ≡ true) × (r ≡ orchestrator) × (b ≡ observed)

no_audit_rule :
    (x : TransitionRule) → Memᴰ x transition_rules → not (is_current_audit x.transition) ≡ true
unfolding transition_rules is_current_audit
no_audit_rule x m =
    all-mem (λ (y : TransitionRule). not (is_current_audit y.transition)) x transition_rules refl m

no_rule-audit :
    (o : Option TransitionRule) (r : Role) (t : Transition) (d : Option String)
    → is_current_audit t ≡ true
    → find_rule transition_rules r t d ≡ o
    → o ≡ none
no_rule-audit none r t d a e = refl
no_rule-audit (some x) r t d a e =
    let (m, k) = find_rule_sound transition_rules r t d x e in
    let free : not (is_current_audit t) ≡ true =
      subst (λ u. not (is_current_audit u) ≡ true) k.1 (no_audit_rule x m) in
    cc (ap not a, free)

without_rule-none :
    (r : Role) (t : Transition) (b : Basis) → without_rule r t b ≡ none → AuditEvent r t b
unfolding without_rule
without_rule-none r t b h = ground (arith, same_role-eq r orchestrator, same_basis-eq b observed)

audit-none :
    (t : Transition) → is_current_audit t ≡ true → without_rule orchestrator t observed ≡ none
unfolding without_rule is_current_audit
audit-none t h = ground arith

authority_sound :
    (r : Role) (t : Transition) (b : Basis) (payload : Fields)
    → current_authority r t b payload ≡ none
    → Allowed r t b payload ⊎ AuditEvent r t b
unfolding current_authority transition_rule by_rule
authority_sound r t b payload h =
    go (find_rule transition_rules r t (normalized (decision_of t payload))) refl h
  where
    basis_at :
        (x : TransitionRule) → by_rule r t b (some x) ≡ none → same_basis b x.evidence_basis ≡ true
    basis_at x q = unfold by_rule in ground arith

    go :
        (o : Option TransitionRule)
        → find_rule transition_rules r t (normalized (decision_of t payload)) ≡ o
        → by_rule r t b o ≡ none
        → Allowed r t b payload ⊎ AuditEvent r t b
    go none e q = inr (without_rule-none r t b q)
    go (some x) e q =
        let (m, k) = find_rule_sound transition_rules r t _ x e in
        inl (x, m, k, sym (same_basis-eq b x.evidence_basis (basis_at x q)))

authority_complete :
    (r : Role) (t : Transition) (b : Basis) (payload : Fields)
    → Allowed r t b payload ⊎ AuditEvent r t b
    → current_authority r t b payload ≡ none
unfolding current_authority transition_rule by_rule
authority_complete r t b payload (inl (x, m, (p, q, d), e)) =
    rw (← d, ← p, ← q, find_rule_complete transition_rules x keys_distinct_lem m, by_rule, e)
      (rw same_basis_refl)
authority_complete r t b payload (inr (a, p, e)) =
    rw (no_rule-audit _ r t (normalized (decision_of t payload)) a refl, by_rule, p, e)
      (audit-none t a)

-- The authority check of a current receipt passes exactly when a rule of the matrix names its
-- writer, transition, basis and, for a run decision, its decision, or when the receipt is a
-- declared audit event that the orchestrator observed.
pub authority_iff :
    (r : Role) (t : Transition) (b : Basis) (payload : Fields)
    → (transition_authority_finding (some r) (some t) b payload false ≡ none)
      ↔ (Allowed r t b payload ⊎ AuditEvent r t b)
unfolding transition_authority_finding
authority_iff r t b payload = (authority_sound r t b payload, authority_complete r t b payload)
