-- ===== src/Evidence/Contract/State.antt =====
-- The local variables of the loop, and the tests that its branches share.
use torq_cli_python.Prelude.{
  ℕ, String, Bool, true, false, ◌&&◌, ◌||◌, not, Option, none, some, List, [], ◌∷◌, ◌==◌, ltb,
  if◌then◌else◌,
}
use torq_cli_python.Json.{Value, Fields}
use torq_cli_python.Dict.{Dict}
use torq_cli_python.Evidence.Names.{Transition, same_transition, Role, Basis}

pub record Attempt : Type 0 where
  pub role : String
  pub ordinal : ℕ
  pub cycle : ℕ
  pub dispatched : Bool
  pub terminal : Option Transition
  pub created_sequence : ℕ

-- The attempt that a command takes effect in.
pub record Effective : Type 0 where
  pub role : String
  pub attempt_id : String
  pub attempt_ordinal : ℕ
  pub attempt_created_sequence : ℕ

-- `accepted` tells `command_accepted` from `command_rejected`; `finalized` is `none` while an
-- accepted command waits.
pub record Command : Type 0 where
  pub accepted : Bool
  pub sequence : ℕ
  pub payload : Fields
  pub finalized : Option Transition
  pub replanned : Bool

pub record Repair : Type 0 where
  pub target_role : String
  pub attempt_ordinal : ℕ
  pub cycle : ℕ

-- An action that was resolved, with the decision that its outcome map names.
pub record Resolution : Type 0 where
  pub sequence : ℕ
  pub action_id : String
  pub decision : Option String

pub record State : Type 0 where
  pub attempts : Dict Attempt
  pub ordinals : Dict ℕ
  pub repairs : Dict Repair
  pub open_actions : Dict ℕ
  pub action_outcomes : Dict Fields
  pub commands : Dict Command
  pub run_terminating : Bool
  pub resolved_actions : List Resolution
  pub interruptions : List ℕ
  pub terminal_decision : Bool
  pub execution_complete_action_open : Bool
  pub waiting_on_operator : Bool
  pub saw_run_planned : Bool
  pub saw_catalog : Bool
  pub catalog_roles : List String
  pub required_roles : List String
  pub current_plan_hash : Option String
  pub plan_revision : ℕ
  pub last_replan_sequence : Option ℕ
  pub replanned_attempts : Dict Effective
  -- The loop's variable `effective`, which keeps its value from one receipt to the next.
  pub effective : Option Effective

abbrev pub initial : State
initial = record {
  attempts = [];
  ordinals = [];
  repairs = [];
  open_actions = [];
  action_outcomes = [];
  commands = [];
  run_terminating = false;
  resolved_actions = [];
  interruptions = [];
  terminal_decision = false;
  execution_complete_action_open = false;
  waiting_on_operator = false;
  saw_run_planned = false;
  saw_catalog = false;
  catalog_roles = [];
  required_roles = [];
  current_plan_hash = none;
  plan_revision = 0;
  last_replan_sequence = none;
  replanned_attempts = [];
  effective = none;
}

-- A receipt as the loop reads it. `evidence_basis` is `none` where the key is absent.
pub record Receipt : Type 0 where
  pub transition : Transition
  pub sequence : Value
  pub payload : Value
  pub writer_role : Role
  pub evidence_basis : Option Basis

abbrev pub is_some {ℓ} : {A : Type ℓ} → Option A → Bool
is_some none = false
is_some (some a) = true

abbrev pub is_empty {ℓ} : {A : Type ℓ} → List A → Bool
is_empty [] = true
is_empty (x ∷ xs) = false

-- `attempt["terminal"] is None`
abbrev pub is_open : Attempt → Bool
is_open a = not (is_some a.terminal)

-- `any(attempt["terminal"] is None for attempt in attempts.values())`
unfoldable pub any_open : Dict Attempt → Bool
any_open [] = false
any_open ((k, a) ∷ d) = is_open a || any_open d

-- An accepted command that is not finalized.
abbrev pub is_pending : Command → Bool
is_pending c = c.accepted && not (is_some c.finalized)

unfoldable pub any_pending : Dict Command → Bool
any_pending [] = false
any_pending ((k, c) ∷ d) = is_pending c || any_pending d

-- An attempt of this role that is still open.
unfoldable pub role_open : String → Dict Attempt → Bool
role_open r [] = false
role_open r ((k, a) ∷ d) = (a.role == r && is_open a) || role_open r d

-- The attempt of a role with the highest ordinal, the first of them on a tie.
unfoldable pub later : Attempt → Option Attempt → Option Attempt
later a none = some a
later a (some b) = if ltb a.ordinal b.ordinal then some b else some a

unfoldable pub latest : String → Dict Attempt → Option Attempt
unfolding later
latest r [] = none
latest r ((k, a) ∷ d) = let rest = latest r d in if a.role == r then later a rest else rest

-- `attempt["terminal"] == transition`
abbrev pub ended_as : Transition → Attempt → Bool
ended_as t a = elim a.terminal [ none ↦ false | some u ↦ same_transition u t ]

abbrev pub latest_ended_as : Transition → Option Attempt → Bool
latest_ended_as t none = false
latest_ended_as t (some a) = ended_as t a
