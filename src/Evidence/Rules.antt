-- ===== src/Evidence/Rules.antt =====
-- src/torq_cli/domain/evidence_transitions.py: who may write which transition, on what basis.
pub mod Authority
use torq_cli_python.Prelude.{
  ℕ, String, Bool, true, false, ◌&&◌, ◌||◌, not, Option, none, some, List, [], ◌∷◌, ◌==◌, any, elem,
  if◌then◌else◌,
}
use torq_cli_python.Json.{Value, Fields, str, null, bool, int, neg, arr, obj, get}
use torq_cli_python.Evidence.Names.{
  Transition, run_planned, stage_attempt_created, stage_dispatch_started, stage_blocked,
  stage_rejected, stage_completed, stage_failed, stage_interrupted, repair_routed, action_opened,
  action_resolved, terminalization_started, run_decision, run_replanned, run_abandoned,
  command_accepted, command_rejected, command_unapplied, context_injected, approval_apply, audit,
  build, design, done, portable_export_requested, reaudit, repair, run_attested, stage_started,
  usage, Role, orchestrator, supervisor, operator_gateway, recovery, other_role, Basis, observed,
  derived, submitted, same_transition, same_role, same_basis,
}
use torq_cli_python.Evidence.Finding.{
  Finding, receipt_writer_unauthorized, run_decision_value_unauthorized, raised,
}

-- `precondition` is documentation in the source: no code reads it. `terminal` is read by none either.
pub record TransitionRule : Type 0 where
  pub writer_role : Role
  pub transition : Transition
  pub evidence_basis : Basis
  pub decision_value : Option String
  pub terminal : Bool

rule : Role → Transition → Basis → Option String → Bool → TransitionRule
rule r t b d e = record {
  writer_role = r;
  transition = t;
  evidence_basis = b;
  decision_value = d;
  terminal = e;
}

pub transition_rules : List TransitionRule
unfolding rule
transition_rules =
    rule orchestrator run_planned observed none false
    ∷ rule orchestrator stage_attempt_created observed none false
    ∷ rule orchestrator stage_dispatch_started observed none false
    ∷ rule orchestrator stage_blocked observed none true
    ∷ rule orchestrator stage_rejected observed none true
    ∷ rule orchestrator stage_completed observed none true
    ∷ rule orchestrator stage_failed observed none true
    ∷ rule orchestrator repair_routed derived none false
    ∷ rule orchestrator action_opened derived none false
    ∷ rule orchestrator terminalization_started derived none false
    ∷ rule orchestrator run_decision derived (some "completed") true
    ∷ rule orchestrator run_decision derived (some "blocked") true
    ∷ rule orchestrator run_decision derived (some "failed") true
    ∷ rule orchestrator run_decision derived (some "awaiting_approval") false
    ∷ rule supervisor stage_interrupted observed none true
    ∷ rule supervisor run_decision derived (some "failed") true
    ∷ rule operator_gateway command_accepted submitted none false
    ∷ rule operator_gateway command_rejected submitted none false
    ∷ rule operator_gateway context_injected submitted none false
    ∷ rule orchestrator context_injected derived none false
    ∷ rule orchestrator command_unapplied derived none false
    ∷ rule orchestrator run_replanned derived none false
    ∷ rule operator_gateway action_resolved submitted none false
    ∷ rule operator_gateway run_decision derived (some "completed") true
    ∷ rule operator_gateway run_decision derived (some "blocked") true
    ∷ rule operator_gateway run_decision derived (some "failed") true
    ∷ rule recovery run_abandoned submitted none true
    ∷ []

-- `CURRENT_AUDIT_TRANSITIONS`
pub is_current_audit : Transition → Bool
is_current_audit approval_apply = true
is_current_audit audit = true
is_current_audit build = true
is_current_audit design = true
is_current_audit done = true
is_current_audit portable_export_requested = true
is_current_audit reaudit = true
is_current_audit repair = true
is_current_audit run_attested = true
is_current_audit stage_started = true
is_current_audit usage = true
is_current_audit _ = false

pub same_decision : Option String → Option String → Bool
same_decision none none = true
same_decision (some a) (some b) = a == b
same_decision _ _ = false

pub same_key : TransitionRule → Role → Transition → Option String → Bool
same_key x r t d =
    same_role x.writer_role r
    && (same_transition x.transition t && same_decision x.decision_value d)

-- `transition_rule`: a lookup in `_RULE_INDEX`, whose keys are distinct.
pub find_rule : List TransitionRule → Role → Transition → Option String → Option TransitionRule
find_rule [] r t d = none
find_rule (x ∷ xs) r t d =
    let rest = find_rule xs r t d in if same_key x r t d then some x else rest

-- `decision_value if isinstance(decision_value, str) else None`
pub normalized : Value → Option String
normalized (str s) = some s
normalized _ = none

pub transition_rule : Role → Transition → Value → Option TransitionRule
transition_rule r t d = find_rule transition_rules r t (normalized d)

-- `payload.get("decision") if transition == "run_decision" else None`
pub decision_of : Transition → Fields → Value
decision_of run_decision payload = get "decision" payload
decision_of _ payload = null

-- A rule of this writer for this transition, whatever decision it names.
abbrev has_rule : List TransitionRule → Role → Transition → Bool
has_rule xs r t =
    any (λ (x : TransitionRule). same_role x.writer_role r && same_transition x.transition t) xs

-- No rule: an unlisted decision, a declared audit event, or an unauthorized writer.
without_rule : Role → Transition → Basis → Option Finding
without_rule r t b =
    if same_transition t run_decision && has_rule transition_rules r t
    then some run_decision_value_unauthorized
    else if is_current_audit t && (same_role r orchestrator && same_basis b observed)
    then none
    else some receipt_writer_unauthorized

by_rule : Role → Transition → Basis → Option TransitionRule → Option Finding
by_rule r t b none = without_rule r t b
by_rule r t b (some x) =
    if same_basis b x.evidence_basis then none else some receipt_writer_unauthorized

-- `transition_authority_finding` with `legacy=False`, for a writer and a transition that are texts.
pub current_authority : Role → Transition → Basis → Fields → Option Finding
current_authority r t b payload = by_rule r t b (transition_rule r t (decision_of t payload))

-- `_LEGACY_BASES`
legacy_basis : Role → Transition → Option Basis
legacy_basis orchestrator run_planned = some derived
legacy_basis orchestrator stage_attempt_created = some observed
legacy_basis orchestrator stage_dispatch_started = some observed
legacy_basis orchestrator stage_blocked = some observed
legacy_basis orchestrator stage_completed = some observed
legacy_basis orchestrator stage_failed = some observed
legacy_basis orchestrator repair_routed = some derived
legacy_basis orchestrator action_opened = some derived
legacy_basis supervisor stage_interrupted = some derived
legacy_basis operator_gateway command_accepted = some submitted
legacy_basis operator_gateway command_rejected = some submitted
legacy_basis operator_gateway context_injected = some submitted
legacy_basis orchestrator context_injected = some derived
legacy_basis orchestrator command_unapplied = some derived
legacy_basis orchestrator run_replanned = some derived
legacy_basis operator_gateway action_resolved = some submitted
legacy_basis recovery run_abandoned = some submitted
legacy_basis _ _ = none

-- `_LEGACY_STATUSES.get(writer_role, ())`
legacy_statuses : Role → List String
legacy_statuses orchestrator =
    "awaiting_approval" ∷ "blocked" ∷ "execution_complete_action_open" ∷ "terminating"
    ∷ "workflow_closed" ∷ []
legacy_statuses supervisor = "workflow_failed" ∷ []
legacy_statuses operator_gateway = "workflow_closed" ∷ []
legacy_statuses _ = []

-- `status not in statuses` for a frozen set of texts.
status_finding : Value → List String → Option Finding
status_finding (str s) xs = if elem s xs then none else some receipt_writer_unauthorized
status_finding (arr vs) xs = some raised
status_finding (obj fs) xs = some raised
status_finding _ xs = some receipt_writer_unauthorized

-- A writer with no statuses of its own is tested against the empty tuple, which hashes nothing.
legacy_decision : Role → Value → Option Finding
legacy_decision orchestrator v = status_finding v (legacy_statuses orchestrator)
legacy_decision supervisor v = status_finding v (legacy_statuses supervisor)
legacy_decision operator_gateway v = status_finding v (legacy_statuses operator_gateway)
legacy_decision _ v = some receipt_writer_unauthorized

-- `transition not in _GOVERNED_TRANSITIONS`
is_governed : Transition → Bool
is_governed t = any (λ (x : TransitionRule). same_transition x.transition t) transition_rules

legacy_open : Role → Transition → Basis → Option Finding
legacy_open r t b =
    if not (is_governed t) && (same_role r orchestrator && not (same_basis b submitted))
    then none
    else some receipt_writer_unauthorized

legacy_by_basis : Role → Transition → Basis → Option Basis → Option Finding
legacy_by_basis r t b none = legacy_open r t b
legacy_by_basis r t b (some x) = if same_basis b x then none else some receipt_writer_unauthorized

-- `_legacy_authority_finding`
pub legacy_authority : Role → Transition → Basis → Fields → Option Finding
legacy_authority r t b payload =
    if same_transition t run_decision
    then (if same_basis b derived
        then legacy_decision r (get "status" payload)
        else some receipt_writer_unauthorized)
    else legacy_by_basis r t b (legacy_basis r t)

-- `none` for a writer or a transition stands for a value that is no text.
unfoldable pub transition_authority_finding :
    Option Role → Option Transition → Basis → Fields → Bool → Option Finding
unfolding current_authority by_rule without_rule transition_rule find_rule transition_rules same_key
    same_decision normalized decision_of
transition_authority_finding none t b payload legacy = some receipt_writer_unauthorized
transition_authority_finding (some r) none b payload legacy = some receipt_writer_unauthorized
transition_authority_finding (some r) (some t) b payload true = legacy_authority r t b payload
transition_authority_finding (some r) (some t) b payload false = current_authority r t b payload

-- The module refuses to load unless the keys of `_RULE_INDEX` are distinct.
pub key_free : TransitionRule → List TransitionRule → Bool
key_free x [] = true
key_free x (y ∷ ys) = not (same_key y x.writer_role x.transition x.decision_value) && key_free x ys

pub keys_distinct : List TransitionRule → Bool
keys_distinct [] = true
keys_distinct (x ∷ xs) = key_free x xs && keys_distinct xs
