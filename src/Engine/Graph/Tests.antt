-- ===== src/Engine/Graph/Tests.antt =====
-- A graph and an execution at concrete inputs.
use torq_cli_python.Prelude.{
  List, arith, ℕ, ◌||◌, String, ◌≡◌, refl, Bool, true, false, some, [], ◌∷◌, any, elem, ◌==◌,
}
use torq_cli_python.Engine.Graph.{
  live, GraphNode, CompiledGraph, ExecutionResult, Returned, returned, compile_graph, compile_nodes,
  profile, compile_profile, execute, run_gates, after_gates,
}
use torq_cli_python.Engine.Graph.Execution.{
  IsChained, Passes, Recompiled, compile_profile-IsChained, execute-Passes,
}

abbrev graph_of : Returned CompiledGraph → CompiledGraph
graph_of (returned g) = g
graph_of _ = record { strategy = ""; nodes = [] }

abbrev light : CompiledGraph
light = graph_of (compile_graph "light_v1")

abbrev light_roles : List String
light_roles = "g1d" ∷ "builder" ∷ "g2a" ∷ []

light-compiled : compile_graph "light_v1" ≡ returned light
unfolding compile_graph profile compile_nodes
light-compiled = refl

light-profile : compile_profile "light_v1" (some light_roles) ≡ returned light
unfolding compile_profile compile_graph profile compile_nodes
light-profile = refl

compile_profile-IsChained_example : IsChained light_roles light.nodes
compile_profile-IsChained_example =
    compile_profile-IsChained "light_v1" light_roles light (omega arith) light-profile

-- A gate that lets only the planner and the builder through, and no recompilation.
abbrev gate : ℕ → String → Bool
gate k role = role == "g1d" || role == "builder"

abbrev never : ℕ → Bool
never k = false

abbrev stopped : ExecutionResult
stopped = record {
  status = "gate_stopped";
  completed = "g1d" ∷ "builder" ∷ [];
  stopped_at = some "g2a";
  recompiles = 0;
}

light-stopped : execute 2 light live true true gate never ≡ returned stopped
unfolding execute compile_graph profile compile_nodes run_gates after_gates
light-stopped = refl

execute-Passes_example :
    (live ≡ live → (true ≡ true) × (true ≡ true))
    × (any (λ (n : GraphNode). elem n.role ("push" ∷ "merge" ∷ [])) light.nodes ≡ false)
    × Passes gate 0 light.nodes stopped.completed stopped.stopped_at
    × Recompiled 2 never stopped
execute-Passes_example = execute-Passes 2 light live true true gate never stopped light-stopped
