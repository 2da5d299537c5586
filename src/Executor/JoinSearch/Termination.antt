-- ===== src/Executor/JoinSearch/Termination.antt =====
-- The search for a join ends by itself: its fuel is never used up.
use mini_bpm_engine.Prelude.{
  ℕ, zero, suc, ◌+◌, ◌≤◌, ◌<◌, String, ◌≡◌, ◌≢◌, refl, false, List, [], ◌∷◌, ◌++◌, Map, length,
  contains, get, length-append, length-map, Bool-cases, inl, inr, if◌then◌else◌, arith, string_eq,
}
use mini_bpm_engine.Domain.Element.{BpmnElement, SequenceFlow}
use mini_bpm_engine.Domain.Definition.{ProcessDefinition, flows, next_nodes, or_nil}
use mini_bpm_engine.Executor.JoinSearch.{
  Queue, at_depth, Visit, stop, push, visit, Search, out_of_fuel, join_loop, edges, join_fuel,
  join_search,
}

-- The flows that leave nodes not yet visited.
weight : List String → Map String (List SequenceFlow) → ℕ
weight visited [] = 0
weight visited ((from, targets) ∷ rest) =
    (if contains visited from then 0 else length targets) + weight visited rest

weight-nil : (fs : Map String (List SequenceFlow)) → weight [] fs ≡ edges fs
unfolding weight edges
weight-nil [] = refl
weight-nil ((from, targets) ∷ rest) = omega (arith, weight-nil rest)

weight-cons_le :
    (node : String) (visited : List String) (fs : Map String (List SequenceFlow))
    → weight (node ∷ visited) fs ≤ weight visited fs
unfolding weight
weight-cons_le node visited [] = omega arith
weight-cons_le node visited ((from, targets) ∷ rest) =
    ground (arith, weight-cons_le node visited rest)

-- A visit takes the flows of the visited node out of the weight.
weight-visit :
    (node : String) (visited : List String) (fs : Map String (List SequenceFlow))
    → contains visited node ≡ false
    → length (or_nil (get fs node)) + weight (node ∷ visited) fs ≤ weight visited fs
unfolding weight get
weight-visit node visited [] h = omega arith
weight-visit node visited ((from, targets) ∷ rest) h = ground (
  arith,
  weight-visit node visited rest,
  weight-cons_le node visited rest,
  string_eq.equal_iff from node,
  string_eq.equal_iff node from,
)

length-at_depth : (d : ℕ) (out : List SequenceFlow) → length (at_depth d out) ≡ length out
length-at_depth d out = length-map _ out

length-next_nodes :
    (def : ProcessDefinition) (d : ℕ) (node : String)
    → length (at_depth d (next_nodes def node)) ≡ length (or_nil (get (flows def) node))
unfolding next_nodes
length-next_nodes def d node = length-at_depth d (or_nil (get (flows def) node))

-- With more fuel than queue and weight together, the loop does not run out.
join_loop_ends :
    (fuel : ℕ) (def : ProcessDefinition) (split : BpmnElement) (queue : Queue)
    (visited : List String)
    → length queue + weight visited (flows def) < fuel
    → join_loop fuel def split queue visited ≢ out_of_fuel
unfolding join_loop
join_loop_ends zero def split queue visited h = absurd (omega arith)
join_loop_ends (suc fuel) def split [] visited h = λ e. cc
join_loop_ends (suc fuel) def split ((node, depth) ∷ queue) visited h =
    elim (Bool-cases (contains visited node)) [
      | inl old ↦ rw (old, join_loop) (join_loop_ends fuel def split queue visited (omega arith))
      | inr new ↦
          rw (new, join_loop)
            (arrive (join_loop_ends fuel def split) new (visit def split node depth))
    ]
  where
    arrive :
        ((q : Queue) (vs : List String)
          → length q + weight vs (flows def) < fuel
          → join_loop fuel def split q vs ≢ out_of_fuel)
        → contains visited node ≡ false
        → (v : Visit)
        → elim v [
          | stop ↦ Search.found node
          | push d ↦
              join_loop fuel def split (queue ++ at_depth d (next_nodes def node)) (node ∷ visited)
        ]
          ≢ out_of_fuel
    arrive later new stop = λ e. cc
    arrive later new (push d) = later (queue ++ at_depth d (next_nodes def node)) (node ∷ visited) (
        omega (
          arith,
          length-append queue (at_depth d (next_nodes def node)),
          length-next_nodes def d node,
          weight-visit node visited (flows def) new,
        ))

-- The search that starts at any split of any definition ends before its fuel does.
pub join_search_ends :
    (def : ProcessDefinition) (start_node : String) (split : BpmnElement)
    → join_search def start_node split ≢ out_of_fuel
unfolding edges
join_search_ends def start_node split =
    join_loop_ends (join_fuel def start_node) def split (at_depth 1 (next_nodes def start_node)) []
      (omega (arith, weight-nil (flows def), length-at_depth 1 (next_nodes def start_node)))
