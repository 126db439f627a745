-- ===== src/Evidence/Names.antt =====
-- The closed vocabularies of src/torq_cli/domain/evidence_transitions.py and run_evidence.py.
-- The code compares texts with these names alone, so every other text is the one `other`.
use torq_cli_python.Prelude.{ℕ, Bool, eqb}

pub data Transition : Type 0 where
  run_planned stage_attempt_created stage_dispatch_started stage_blocked : Transition
  stage_rejected stage_completed stage_failed stage_interrupted : Transition
  repair_routed action_opened action_resolved terminalization_started : Transition
  run_decision run_replanned run_abandoned : Transition
  command_accepted command_rejected command_unapplied context_injected : Transition
  approval_apply audit build design done portable_export_requested : Transition
  reaudit repair run_attested stage_started usage : Transition
  other : Transition

pub data Role : Type 0 where
  orchestrator supervisor operator_gateway recovery : Role
  other_role : Role

pub data Basis : Type 0 where
  observed derived submitted : Basis
  other_basis : Basis

abbrev transition_code : Transition → ℕ
transition_code run_planned = 0
transition_code stage_attempt_created = 1
transition_code stage_dispatch_started = 2
transition_code stage_blocked = 3
transition_code stage_rejected = 4
transition_code stage_completed = 5
transition_code stage_failed = 6
transition_code stage_interrupted = 7
transition_code repair_routed = 8
transition_code action_opened = 9
transition_code action_resolved = 10
transition_code terminalization_started = 11
transition_code run_decision = 12
transition_code run_replanned = 13
transition_code run_abandoned = 14
transition_code command_accepted = 15
transition_code command_rejected = 16
transition_code command_unapplied = 17
transition_code context_injected = 18
transition_code approval_apply = 19
transition_code audit = 20
transition_code build = 21
transition_code design = 22
transition_code done = 23
transition_code portable_export_requested = 24
transition_code reaudit = 25
transition_code repair = 26
transition_code run_attested = 27
transition_code stage_started = 28
transition_code usage = 29
transition_code other = 30

abbrev role_code : Role → ℕ
role_code orchestrator = 0
role_code supervisor = 1
role_code operator_gateway = 2
role_code recovery = 3
role_code other_role = 4

abbrev basis_code : Basis → ℕ
basis_code observed = 0
basis_code derived = 1
basis_code submitted = 2
basis_code other_basis = 3

abbrev pub same_transition : Transition → Transition → Bool
same_transition t u = eqb (transition_code t) (transition_code u)

abbrev pub same_role : Role → Role → Bool
same_role r q = eqb (role_code r) (role_code q)

abbrev pub same_basis : Basis → Basis → Bool
same_basis b c = eqb (basis_code b) (basis_code c)
