-- ===== src/Executor/JoinSearch.antt =====
-- `find_downstream_join` of engine-core/src/engine/executor/helpers.rs: the breadth-first search for
-- the join that closes a split, on fuel.
pub mod Termination
pub mod Soundness
pub mod Nesting
pub mod Closure
pub mod Completeness
pub mod Walk
use mini_bpm_engine.Prelude.{
  ℕ, zero, suc, ◌+◌, ◌-◌, String, Bool, true, false, ◌&&◌, Option, none, some, List, [], ◌∷◌, ◌++◌,
  Map, map, length, contains, get, nat_beq, if◌then◌else◌, string_eq,
}
use mini_bpm_engine.Domain.Element.{BpmnElement, SequenceFlow}
use mini_bpm_engine.Domain.Definition.{
  ProcessDefinition, nodes, flows, next_nodes, is_join_gateway, is_split_gateway,
}
use mini_bpm_engine.Executor.Helpers.{same_gateway_type}

abbrev pub Queue : Type 0
Queue = List (String × ℕ)

abbrev pub at_depth : ℕ → List SequenceFlow → Queue
at_depth depth = map λ flow. (flow.target, depth)

-- What the loop does at a node that it has not visited.
pub data Visit : Type 0 where
  stop : Visit
  push : (depth : ℕ) → Visit

unfoldable pub visit_element : ProcessDefinition → BpmnElement → String → ℕ → BpmnElement → Visit
visit_element def split_element node depth element =
    if is_join_gateway def node && same_gateway_type split_element element
    then (if nat_beq depth 1 then stop else push (depth - 1))
    else if is_split_gateway def node && same_gateway_type split_element element
    then push (depth + 1)
    else push depth

unfoldable pub visit : ProcessDefinition → BpmnElement → String → ℕ → Visit
unfolding visit_element
visit def split_element node depth = elim (get (nodes def) node) [
  | none ↦ push depth
  | some element ↦ visit_element def split_element node depth element
]

pub data Search : Type 0 where
  found : String → Search
  exhausted out_of_fuel : Search

unfoldable pub join_loop : ℕ → ProcessDefinition → BpmnElement → Queue → List String → Search
join_loop zero def split_element queue visited = out_of_fuel
join_loop (suc fuel) def split_element [] visited = exhausted
join_loop (suc fuel) def split_element ((node, depth) ∷ queue) visited =
    elim (contains visited node) [
      | true ↦ join_loop fuel def split_element queue visited
      | false ↦ elim (visit def split_element node depth) [
        | stop ↦ found node
        | push d ↦
            join_loop fuel def split_element (queue ++ at_depth d (next_nodes def node))
              (node ∷ visited)
      ]
    ]

-- The number of flows of a definition.
unfoldable pub edges : Map String (List SequenceFlow) → ℕ
edges [] = 0
edges ((from, targets) ∷ rest) = length targets + edges rest

-- Each flow enters the queue at most once after the start.
abbrev pub join_fuel : ProcessDefinition → String → ℕ
join_fuel def start_node = suc (length (next_nodes def start_node) + edges (flows def))

abbrev pub join_search : ProcessDefinition → String → BpmnElement → Search
join_search def start_node split_element =
    join_loop (join_fuel def start_node) def split_element (at_depth 1 (next_nodes def start_node))
      []

abbrev pub answer : Search → Option String
answer (found node) = some node
answer exhausted = none
answer out_of_fuel = none

unfoldable pub find_downstream_join : ProcessDefinition → (start_node : String) → Option String
unfolding join_loop edges
find_downstream_join def start_node = elim (get (nodes def) start_node) [
  | none ↦ none
  | some split_element ↦ answer (join_search def start_node split_element)
]
