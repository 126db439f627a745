-- ===== src/Engine/Graph/Execution.antt =====
-- What an execution has run, and how often it recompiled.
use mathlib.Core.List.Memᴰ.{Memᴰ, head, tail}
use torq_cli_python.Prelude.{
  ◌||◌, all, all-mem, ◌==◌, ◌&&◌, not, ℕ, zero, suc, ◌+◌, ◌≤◌, ◌<◌, String, ◌≡◌, refl, sym, ap, ◌∙◌,
  ◌⊎◌, subst, inl, inr, Bool, true, false, Option, none, some, List, [], ◌∷◌, ◌++◌, length, map,
  any, elem, eqb, Bool-cases, arith,
}
use torq_cli_python.Engine.Graph.{
  digit, digit_at, ExecutionMode, live, GraphNode, CompiledGraph, ExecutionResult, returned,
  compile_nodes, node_name, last_of, run_gates, recompile_loop, after_gates, finish, execute,
  compile_profile, is_live,
}

-- Each node depends on the one before it alone.
pub Chain : List String → List GraphNode → Type 0
Chain before [] = Unit
Chain before (n ∷ ns) = (n.depends_on ≡ before) × Chain (n.node_id ∷ []) ns

last_of-snoc : (xs : List String) (x : String) → last_of (xs ++ x ∷ []) ≡ x ∷ []
unfolding last_of
last_of-snoc [] x = refl
last_of-snoc (y ∷ []) x = refl
last_of-snoc (y ∷ z ∷ xs) x = last_of-snoc (z ∷ xs) x

compile_nodes-Chain :
    (index : ℕ) (prior roles before : List String)
    → last_of prior ≡ before
    → Chain before (compile_nodes index prior roles)
unfolding compile_nodes Chain
compile_nodes-Chain index prior [] before h = tt
compile_nodes-Chain index prior (r ∷ roles) before h = (
  h,
  compile_nodes-Chain (suc index) (prior ++ node_name index ∷ []) roles (node_name index ∷ [])
      (last_of-snoc prior (node_name index)),
)

compile_nodes-roles :
    (index : ℕ) (prior roles : List String)
    → map (λ (n : GraphNode). n.role) (compile_nodes index prior roles) ≡ roles
unfolding compile_nodes
compile_nodes-roles index prior [] = refl
compile_nodes-roles index prior (r ∷ roles) =
    ap (λ xs. r ∷ xs) (compile_nodes-roles (suc index) (prior ++ node_name index ∷ []) roles)

-- No text stands twice in the list.
abbrev pub distinct : List String → Bool
distinct [] = true
distinct (x ∷ xs) = not (elem x xs) && distinct xs

abbrev pub node_ids : List GraphNode → List String
node_ids ns = map (λ (n : GraphNode). n.node_id) ns

abbrev below : ℕ → List ℕ
below zero = []
below (suc n) = n ∷ below n

below-mem : (n k : ℕ) → n < k → Memᴰ n (below k)
below-mem n zero h = absurd (omega arith)
below-mem n (suc k) h = elim (Bool-cases (eqb n k)) [
  | inl same ↦ head (ground arith)
  | inr other ↦ tail (below-mem n k (ground arith))
]

-- A name of two digits is no other's.
apart :
    all (λ n. all (λ m. eqb n m || not (node_name n == node_name m)) (below 100)) (below 100) ≡ true
unfolding node_name digit digit_at
apart = refl

unequal : (n m : ℕ) (b : Bool) → n < m → (eqb n m || not b) ≡ true → b ≡ false
unequal n m b h e = ground arith

node_name-ne : (n m : ℕ) → n < m → m < 100 → (node_name n == node_name m) ≡ false
node_name-ne n m h k =
    let row =
      all-mem (λ x. all (λ y. eqb x y || not (node_name x == node_name y)) (below 100)) n
        (below 100) apart (below-mem n 100 (omega arith)) in
    let cell =
      all-mem (λ y. eqb n y || not (node_name n == node_name y)) m (below 100) row
        (below-mem m 100 k) in
    unequal n m (node_name n == node_name m) h cell

-- The nodes after an index have other names.
elem-names :
    (x index : ℕ) (prior roles : List String)
    → x < index
    → index + length roles ≤ 100
    → elem (node_name x) (node_ids (compile_nodes index prior roles)) ≡ false
unfolding compile_nodes
elem-names x index prior [] h k = refl
elem-names x index prior (r ∷ roles) h k =
    rw
      (
        node_name-ne x index h (omega arith),
        elem-names x (suc index) (prior ++ node_name index ∷ []) roles (omega arith) (omega arith),
      )
      refl

compile_nodes-distinct :
    (index : ℕ) (prior roles : List String)
    → index + length roles ≤ 100
    → distinct (node_ids (compile_nodes index prior roles)) ≡ true
unfolding compile_nodes
compile_nodes-distinct index prior [] k = refl
compile_nodes-distinct index prior (r ∷ roles) k =
    let later = prior ++ node_name index ∷ [] in
    rw
      (
        elem-names index (suc index) later roles (omega arith) (omega arith),
        compile_nodes-distinct (suc index) later roles (omega arith),
      )
      refl

-- These roles in order, as nodes with distinct ids that make a chain: the first depends on none, and
-- each other on the node before it alone.
abbrev pub IsChained : List String → List GraphNode → Type 0
IsChained roles ns =
    (map (λ (n : GraphNode). n.role) ns ≡ roles) × (distinct (node_ids ns) ≡ true) × Chain [] ns

-- Whatever roles a profile has, if they are less than a hundred, the graph compiled from it has
-- these roles in order, as nodes with distinct ids that make a chain: the first depends on none,
-- and each other on the node before it alone.
pub compile_profile-IsChained :
    (strategy : String) (roles : List String) (g : CompiledGraph)
    → length roles < 100
    → compile_profile strategy (some roles) ≡ returned g
    → IsChained roles g.nodes
unfolding compile_profile
compile_profile-IsChained strategy roles g k e =
    let same : g ≡ record { strategy = strategy; nodes = compile_nodes 1 [] roles } =
      ground arith in
    rw same (
      compile_nodes-roles 1 [] roles,
      compile_nodes-distinct 1 [] roles (omega arith),
      compile_nodes-Chain 1 [] roles [] (unfold last_of in refl),
    )

-- Every role passed its gate, which was called for the roles in turn.
abbrev AllPass : (ℕ → String → Bool) → ℕ → List String → Type 0
AllPass gate k [] = Unit
AllPass gate k (role ∷ roles) = (gate k role ≡ true) × AllPass gate (suc k) roles

-- The roles that passed are the first of the graph; if not all did, the gate of the next refused.
abbrev pub Passes : (ℕ → String → Bool) → ℕ → List GraphNode → List String → Option String → Type 0
Passes gate k ns done stopped =
    AllPass gate k done
    × ((stopped ≡ none × (done ≡ map (λ (n : GraphNode). n.role) ns))
        ⊎ ((role : String) × (rest : List String) × (stopped ≡ some role)
            × (map (λ (n : GraphNode). n.role) ns ≡ done ++ role ∷ rest)
            × (gate (k + length done) role ≡ false)))

run_gates-Passes :
    (gate : ℕ → String → Bool) (k : ℕ) (ns : List GraphNode)
    → Passes gate k ns (run_gates gate k ns).0 (run_gates gate k ns).1
unfolding run_gates
run_gates-Passes gate k [] = (tt, inl (refl, refl))
run_gates-Passes gate k (n ∷ ns) = elim (Bool-cases (gate k n.role)) [
  | inl h ↦
      let (passed, end) = run_gates-Passes gate (suc k) ns in
      rw h (
        (h, passed),
        elim end [
          | inl (a, b) ↦ inl (a, ap (λ xs. n.role ∷ xs) b)
          | inr (role, rest, a, b, c) ↦
              let turn : suc k + length (run_gates gate (suc k) ns).0
                  ≡ k + suc (length (run_gates gate (suc k) ns).0) =
                omega arith in
              inr (role, rest, a, ap (λ xs. n.role ∷ xs) b, rw turn at c)
        ],
      )
  | inr h ↦
      let turn : k + 0 ≡ k = omega arith in
      rw h (tt, inr (n.role, map (λ (m : GraphNode). m.role) ns, refl, refl, rw turn h))
]

-- How the loop of recompilations ends.
recompile_loop-count :
    (rc : ℕ → Bool) (left count : ℕ)
    → (count ≤ (recompile_loop rc left count).1)
      × ((recompile_loop rc left count).1 ≤ count + left)
      × ((i : ℕ) → count ≤ i → i < (recompile_loop rc left count).1 → rc i ≡ true)
      × (rc (recompile_loop rc left count).1 ≡ (recompile_loop rc left count).0)
      × ((recompile_loop rc left count).0 ≡ true → (recompile_loop rc left count).1 ≡ count + left)
unfolding recompile_loop
recompile_loop-count rc zero count =
    (omega arith, omega arith, (λ i a b. absurd (omega arith)), refl, λ e. omega arith)
recompile_loop-count rc (suc left) count = elim (Bool-cases (rc count)) [
  | inl h ↦
      let (a, b, c, d, e) = recompile_loop-count rc left (suc count) in
      let earlier : (i : ℕ) → count ≤ i → i < (recompile_loop rc left (suc count)).1 → rc i ≡ true =
        λ i x y. elim (Bool-cases (eqb count i)) [
          | inl same ↦
              let at_count : count ≡ i = ground arith in subst (λ j. rc j ≡ true) at_count h
          | inr other ↦ c i (ground arith) y
        ] in
      rw h (omega (arith, a), omega (arith, b), earlier, d, λ q. omega (arith, e q))
  | inr h ↦ rw h (omega arith, omega arith, (λ i a b. absurd (omega arith)), h, λ e. cc)
]

-- The recompilations of a result: each was asked for, none is beyond the limit, and where no gate
-- stopped the execution, one more is asked for only at the limit.
abbrev pub Recompiled : ℕ → (ℕ → Bool) → ExecutionResult → Type 0
Recompiled limit rc res =
    (res.recompiles ≤ limit)
    × ((i : ℕ) → i < res.recompiles → rc i ≡ true)
    × (res.stopped_at ≡ none → rc res.recompiles ≡ true → res.recompiles ≡ limit)

finish-Recompiled :
    (limit : ℕ) (rc : ℕ → Bool) (done : List String)
    → Recompiled limit rc (finish done (recompile_loop rc limit 0))
finish-Recompiled limit rc done = go (recompile_loop rc limit 0) (recompile_loop-count rc limit 0)
  where
    go :
        (r : Bool × ℕ)
        → (0 ≤ r.1)
          × (r.1 ≤ 0 + limit)
          × ((i : ℕ) → 0 ≤ i → i < r.1 → rc i ≡ true)
          × (rc r.1 ≡ r.0)
          × (r.0 ≡ true → r.1 ≡ 0 + limit)
        → Recompiled limit rc (finish done r)
    go (true, n) (a, b, c, d, e) =
        unfold finish in (omega arith, λ i x. c i (omega arith) x, λ p q. omega (arith, e refl))
    go (false, n) (a, b, c, d, e) =
        unfold finish in
        (omega arith, λ i x. c i (omega arith) x, λ p q. let clash : true ≡ false = sym q ∙ d in cc)

after_gates-Recompiled :
    (limit : ℕ) (rc : ℕ → Bool) (done : List String) (stopped : Option String)
    → Recompiled limit rc (after_gates limit rc (done, stopped))
      × ((after_gates limit rc (done, stopped)).completed ≡ done)
      × ((after_gates limit rc (done, stopped)).stopped_at ≡ stopped)
unfolding after_gates
after_gates-Recompiled limit rc done (some role) =
    ((omega arith, (λ i x. absurd (omega arith)), λ p q. cc), refl, refl)
after_gates-Recompiled limit rc done none =
    let (a, b) = go (recompile_loop rc limit 0) in (finish-Recompiled limit rc done, a, b)
  where
    go : (r : Bool × ℕ) → ((finish done r).completed ≡ done) × ((finish done r).stopped_at ≡ none)
    go (true, n) = unfold finish in (refl, refl)
    go (false, n) = unfold finish in (refl, refl)

-- An execution that is not refused has both opt-ins if it is live, and no push or merge in its
-- graph. Its completed roles are the first roles of the graph, each let through by its gate; they
-- are all of them unless a gate stopped the next. Each recompilation was asked for and none is
-- beyond the limit, which alone ends them while more are asked for.
pub execute-Passes :
    (limit : ℕ) (g : CompiledGraph) (mode : ExecutionMode) (live_opt_in policy_opt_in : Bool)
    (gate : ℕ → String → Bool) (rc : ℕ → Bool) (res : ExecutionResult)
    → execute limit g mode live_opt_in policy_opt_in gate rc ≡ returned res
    → (mode ≡ live → (live_opt_in ≡ true) × (policy_opt_in ≡ true))
      × (any (λ (n : GraphNode). elem n.role ("push" ∷ "merge" ∷ [])) g.nodes ≡ false)
      × Passes gate 0 g.nodes res.completed res.stopped_at
      × Recompiled limit rc res
unfolding execute is_live
execute-Passes limit g mode l p gate rc res h =
    let gates = run_gates gate 0 g.nodes in
    let same : after_gates limit rc gates ≡ res = ground arith in
    let (again, done, stopped) = after_gates-Recompiled limit rc gates.0 gates.1 in
    let passed = run_gates-Passes gate 0 g.nodes in
    ((λ e. ground arith), ground arith, rw⁻¹ same (rw (done, stopped) passed), rw⁻¹ same again)
