-- ===== src/Engine/Graph.antt =====
-- src/torq_cli/core/graph.py: strategies are compiled to a chain of nodes, which is executed
-- through gates. A callback is a function of how often it was called before, so a stateful one is
-- covered too. `ExecutionEvidenceStore` only writes files and is left out.
pub mod Execution
mod Tests
use torq_cli_python.Prelude.{
  ℕ, zero, suc, ◌/◌, ◌%◌, String, Bool, true, false, ◌&&◌, ◌||◌, not, Option, none, some, List, [],
  ◌∷◌, ◌++◌, ◌==◌, any, elem, if◌then◌else◌,
}
use Prim.Native.String.{◌++◌ as concat}

pub data ExecutionMode : Type 0 where
  dry_run live : ExecutionMode

pub record GraphNode : Type 0 where
  pub node_id : String
  pub role : String
  pub depends_on : List String
  pub optional : Bool

pub record CompiledGraph : Type 0 where
  pub strategy : String
  pub nodes : List GraphNode

pub record ExecutionResult : Type 0 where
  pub status : String
  pub completed : List String
  pub stopped_at : Option String
  pub recompiles : ℕ

-- The `ValueError`s of the module.
pub data GraphError : Type 0 where
  unknown_strategy opt_in_required role_forbidden : GraphError

pub data Returned {ℓ} (A : Type ℓ) : Type ℓ where
  returned : A → Returned A
  refused : GraphError → Returned A

digit_at : ℕ → List String → String
digit_at n [] = ""
digit_at zero (d ∷ ds) = d
digit_at (suc n) (d ∷ ds) = digit_at n ds

digit : ℕ → String
unfolding digit_at
digit n = digit_at n ("0" ∷ "1" ∷ "2" ∷ "3" ∷ "4" ∷ "5" ∷ "6" ∷ "7" ∷ "8" ∷ "9" ∷ [])

-- `f"node-{index:02d}"` for an index below 100; a profile has four roles at most.
pub node_name : ℕ → String
unfolding digit
node_name n = concat "node-" (concat (digit (n / 10)) (digit (n % 10)))

-- `prior[-1:]`
pub last_of : List String → List String
last_of [] = []
last_of (x ∷ []) = x ∷ []
last_of (x ∷ y ∷ xs) = last_of (y ∷ xs)

pub compile_nodes : ℕ → List String → List String → List GraphNode
compile_nodes index prior [] = []
compile_nodes index prior (role ∷ roles) =
    record { node_id = node_name index; role = role; depends_on = last_of prior; optional = false }
    ∷ compile_nodes (suc index) (prior ++ node_name index ∷ []) roles

-- `_PROFILES`
pub profile : String → Option (List String)
profile strategy =
    if strategy == "light_v1"
    then some ("g1d" ∷ "builder" ∷ "g2a" ∷ [])
    else if strategy == "standard_v1"
    then some ("g1d" ∷ "g1r" ∷ "builder" ∷ "g2a" ∷ [])
    else none

pub compile_profile : String → Option (List String) → Returned CompiledGraph
compile_profile strategy none = refused unknown_strategy
compile_profile strategy (some roles) =
    returned (record { strategy = strategy; nodes = compile_nodes 1 [] roles })

pub compile_graph : String → Returned CompiledGraph
unfolding compile_profile
compile_graph strategy = compile_profile strategy (profile strategy)

-- The loop over the nodes: the roles that passed, and the one that a gate stopped.
pub run_gates : (ℕ → String → Bool) → ℕ → List GraphNode → List String × Option String
run_gates gate calls [] = ([], none)
run_gates gate calls (n ∷ ns) =
    let rest = run_gates gate (suc calls) ns in
    if gate calls n.role then (n.role ∷ rest.0, rest.1) else ([], some n.role)

-- `while recompile(count)`, with what is left of `max_recompiles`: whether the limit was met, and
-- the count. A negative limit behaves as 0.
pub recompile_loop : (ℕ → Bool) → ℕ → ℕ → Bool × ℕ
recompile_loop recompile zero count = (recompile count, count)
recompile_loop recompile (suc left) count =
    let rest = recompile_loop recompile left (suc count) in
    if recompile count then rest else (false, count)

finish : List String → Bool × ℕ → ExecutionResult
finish completed (true, count) = record {
  status = "recompile_limit";
  completed = completed;
  stopped_at = none;
  recompiles = count;
}
finish completed (false, count) = record {
  status = "completed";
  completed = completed;
  stopped_at = none;
  recompiles = count;
}

pub after_gates : ℕ → (ℕ → Bool) → List String × Option String → ExecutionResult
unfolding finish
after_gates limit recompile (completed, some role) = record {
  status = "gate_stopped";
  completed = completed;
  stopped_at = some role;
  recompiles = 0;
}
after_gates limit recompile (completed, none) = finish completed (recompile_loop recompile limit 0)

is_live : ExecutionMode → Bool
is_live live = true
is_live dry_run = false

-- `GraphExecutor.execute`, with the executor's `max_recompiles`
pub execute :
    ℕ
    → CompiledGraph
    → ExecutionMode
    → Bool
    → Bool
    → (ℕ → String → Bool)
    → (ℕ → Bool)
    → Returned ExecutionResult
unfolding is_live
execute limit graph mode live_opt_in policy_opt_in gate recompile =
    if is_live mode && not (live_opt_in && policy_opt_in)
    then refused opt_in_required
    else if any (λ (n : GraphNode). elem n.role ("push" ∷ "merge" ∷ [])) graph.nodes
    then refused role_forbidden
    else returned (after_gates limit recompile (run_gates gate 0 graph.nodes))
