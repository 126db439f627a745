-- ===== src/Evidence/Contract/Attempts.antt =====
-- Stage attempts, from their creation to their one terminal transition.
pub mod Honest
pub mod Single
use torq_cli_python.Prelude.{
  ℕ, ◌+◌, String, Bool, true, false, ◌&&◌, ◌||◌, not, Option, none, some, List, [], ◌∷◌, ◌==◌, eqb,
  elem, if◌then◌else◌,
}
use torq_cli_python.Json.{Fields, get, is_true, text, number}
use torq_cli_python.Dict.{Dict, lookup, insert}
use torq_cli_python.Evidence.Names.{
  Transition, stage_dispatch_started, stage_blocked, stage_rejected, stage_completed,
  stage_interrupted, command_unapplied, same_transition,
}
use torq_cli_python.Evidence.Finding.{
  attempt_id_duplicate, attempt_lane_not_cataloged, attempt_lane_already_open,
  attempt_ordinal_discontinuity, command_unapplied_precondition_invalid,
  repair_route_attempt_mismatch, attempt_created_missing, attempt_identity_mismatch,
  attempt_transition_after_terminal, attempt_dispatch_duplicate, attempt_blocked_after_dispatch,
  attempt_completed_without_dispatch, attempt_rejected_without_dispatch,
  attempt_dispatch_evidence_missing,
}
use torq_cli_python.Evidence.Payload.Shape.{conditional_lanes}
use torq_cli_python.Evidence.Contract.State.{
  Attempt, Command, Repair, State, is_some, is_empty, is_open, role_open,
}
use torq_cli_python.Evidence.Contract.Outcome.{Outcome, go_on, stop, stop_if}
use torq_cli_python.Evidence.Contract.Commands.{targets}

-- What the branch reads from the payload of an attempt transition.
pub record AttemptPayload : Type 0 where
  pub attempt_id : String
  pub role : String
  pub ordinal : ℕ
  pub cycle : ℕ
  dispatch_true : Bool

unfoldable pub attempt_payload : Fields → AttemptPayload
attempt_payload p = record {
  attempt_id = text (get "attempt_id" p);
  role = text (get "role" p);
  ordinal = number (get "attempt_ordinal" p);
  cycle = number (get "repair_cycle" p);
  dispatch_true = is_true (get "provider_dispatch" p);
}

-- `ordinals.get(role, 0) + 1`
unfoldable pub next_ordinal : String → Dict ℕ → ℕ
next_ordinal role d = elim (lookup role d) [ none ↦ 1 | some n ↦ n + 1 ]

-- A command that was given up for this role, or for the lead.
unfoldable pub given_up : String → Command → Bool
given_up role c = elim c.finalized [
  | none ↦ false
  | some t ↦ same_transition t command_unapplied && (targets "lead" c || targets role c)
]

unfoldable pub any_given_up : String → Dict Command → Bool
any_given_up role [] = false
any_given_up role ((k, c) ∷ d) = given_up role c || any_given_up role d

-- `routed == (role, ordinal, cycle)`
unfoldable pub routed_here : AttemptPayload → Option Repair → Bool
routed_here p none = false
routed_here p (some r) =
    r.target_role == p.role && (eqb r.attempt_ordinal p.ordinal && eqb r.cycle p.cycle)

unfoldable pub on_attempt_created : ℕ → AttemptPayload → State → Outcome
on_attempt_created seq p s =
    stop_if (is_some (lookup p.attempt_id s.attempts)) attempt_id_duplicate (
      stop_if (not (is_empty s.catalog_roles) && not (elem p.role s.catalog_roles))
        attempt_lane_not_cataloged
        (stop_if (role_open p.role s.attempts) attempt_lane_already_open (
          stop_if (not (eqb p.ordinal (next_ordinal p.role s.ordinals)))
            attempt_ordinal_discontinuity
            (stop_if (any_given_up p.role s.commands) command_unapplied_precondition_invalid (
              stop_if
                (elem p.role conditional_lanes
                  && not (routed_here p (lookup p.attempt_id s.repairs)))
                repair_route_attempt_mismatch
                (go_on (record s {
                  ordinals = insert p.role p.ordinal s.ordinals;
                  attempts =
                      insert p.attempt_id
                        (record {
                          role = p.role;
                          ordinal = p.ordinal;
                          cycle = p.cycle;
                          dispatched = false;
                          terminal = none;
                          created_sequence = seq;
                        })
                        s.attempts;
                })))))))

unfoldable pub identity_matches : AttemptPayload → Attempt → Bool
identity_matches p a = a.role == p.role && (eqb a.ordinal p.ordinal && eqb a.cycle p.cycle)

unfoldable pub dispatch : AttemptPayload → Attempt → State → Outcome
dispatch p a s = stop_if a.dispatched attempt_dispatch_duplicate (
    go_on (record s { attempts = insert p.attempt_id (record a { dispatched = true }) s.attempts }))

-- An interruption is remembered by its sequence.
interruption : Transition → ℕ → List ℕ → List ℕ
interruption stage_interrupted seq l = seq ∷ l
interruption _ seq l = l

unfoldable pub terminate : Transition → ℕ → AttemptPayload → Attempt → State → Outcome
unfolding interruption
terminate t seq p a s =
    stop_if (same_transition t stage_blocked && a.dispatched) attempt_blocked_after_dispatch (
      stop_if (same_transition t stage_completed && not a.dispatched)
        attempt_completed_without_dispatch
        (stop_if (same_transition t stage_rejected && not a.dispatched)
          attempt_rejected_without_dispatch
          (stop_if (p.dispatch_true && not a.dispatched) attempt_dispatch_evidence_missing (
            go_on (record s {
              attempts = insert p.attempt_id (record a { terminal = some t }) s.attempts;
              interruptions = interruption t seq s.interruptions;
            })))))

unfoldable pub attempt_moves : Transition → ℕ → AttemptPayload → Attempt → State → Outcome
unfolding dispatch terminate identity_matches
attempt_moves t seq p a s = stop_if (not (identity_matches p a)) attempt_identity_mismatch (
    stop_if (not (is_open a)) attempt_transition_after_terminal
      (if same_transition t stage_dispatch_started then dispatch p a s else terminate t seq p a s))

unfoldable pub attempt_known : Transition → ℕ → AttemptPayload → State → Option Attempt → Outcome
unfolding attempt_moves
attempt_known t seq p s none = stop attempt_created_missing
attempt_known t seq p s (some a) = attempt_moves t seq p a s

-- Every attempt transition but the creation.
unfoldable pub on_attempt : Transition → ℕ → AttemptPayload → State → Outcome
unfolding attempt_known
on_attempt t seq p s = attempt_known t seq p s (lookup p.attempt_id s.attempts)
