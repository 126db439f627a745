-- ===== src/Evidence/Contract/Actions.antt =====
-- Operator actions: opened by the orchestrator, resolved by the operator's gateway.
use torq_cli_python.Prelude.{
  ℕ, String, ◌||◌, not, Option, none, some, List, [], ◌∷◌, ◌==◌, leb, eqb, any, if◌then◌else◌,
}
use torq_cli_python.Json.{Fields, get, has, text, number, fields}
use torq_cli_python.Dict.{lookup, insert, erase}
use torq_cli_python.Evidence.Finding.{
  action_id_duplicate, action_cause_invalid, action_open_missing, action_open_link_invalid,
  action_resolution_unauthorized,
}
use torq_cli_python.Evidence.Contract.State.{Resolution, State, is_some}
use torq_cli_python.Evidence.Contract.Outcome.{Outcome, go_on, stop, stop_if}

unfoldable pub on_action_opened : ℕ → Fields → State → Outcome
on_action_opened seq p s =
    let action_id = text (get "action_id" p) in
    stop_if
      (is_some (lookup action_id s.open_actions)
        || any (λ (r : Resolution). r.action_id == action_id) s.resolved_actions)
      action_id_duplicate
      (stop_if (leb seq (number (get "caused_by_sequence" p))) action_cause_invalid (
        go_on (record s {
          open_actions = insert action_id seq s.open_actions;
          action_outcomes = insert action_id (fields (get "outcome_map" p)) s.action_outcomes;
        })))

-- `action_outcomes.get(action_id, {}).get(resolution)`
mapped : Option Fields → String → Option String
mapped none resolution = none
mapped (some m) resolution = if has resolution m then some (text (get resolution m)) else none

-- `resolved_actions[sequence] = ...`
pub put_resolution : Resolution → List Resolution → List Resolution
put_resolution r [] = r ∷ []
put_resolution r (x ∷ xs) = if eqb x.sequence r.sequence then r ∷ xs else x ∷ put_resolution r xs

pub resolve : ℕ → String → State → Option String → Outcome
resolve seq action_id s none = stop action_resolution_unauthorized
resolve seq action_id s (some d) = go_on (record s {
  open_actions = erase action_id s.open_actions;
  resolved_actions =
      put_resolution (record { sequence = seq; action_id = action_id; decision = some d })
        s.resolved_actions;
})

resolve_open : ℕ → String → Fields → State → Option ℕ → Outcome
unfolding resolve mapped
resolve_open seq action_id p s none = stop action_open_missing
resolve_open seq action_id p s (some opened) =
    stop_if (not (eqb (number (get "opened_sequence" p)) opened)) action_open_link_invalid (
      resolve seq action_id s
        (mapped (lookup action_id s.action_outcomes) (text (get "resolution" p))))

unfoldable pub on_action_resolved : ℕ → Fields → State → Outcome
unfolding resolve_open
on_action_resolved seq p s =
    let action_id = text (get "action_id" p) in
    resolve_open seq action_id p s (lookup action_id s.open_actions)
