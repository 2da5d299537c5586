-- ===== src/Domain/Definition.antt =====
-- engine-core/src/domain/definition.rs: process definitions, their lookups and the builder.
-- Validation and the builder stand in the children.
pub mod Validation
pub mod Builder
use mini_bpm_engine.Prelude.{
  ℕ, ◌+◌, String, Bool, false, ◌&&◌, Option, none, some, List, [], ◌∷◌, Map, length, count,
  find_map, get, leb, ◌==◌, if◌then◌else◌, string_eq,
}
use mini_bpm_engine.Prelude.Int.{ℤ}
use mini_bpm_engine.Domain.Element.{
  BpmnElement, SequenceFlow, ExecutionListener, ScopeEventListener, is_start, is_gateway,
}

mutual
  pub data ProcessDefinition : Type 0 where
    definition :
        (key : ℕ) (id : String) (version : ℤ) (nodes : Map String BpmnElement)
        (flows : Map String (List SequenceFlow)) (listeners : Map String (List ExecutionListener))
        (event_listeners : List ScopeEventListener) (sub_processes : SubProcesses)
        → ProcessDefinition

  -- `Vec<ProcessDefinition>`.
  pub data SubProcesses : Type 0 where
    nil : SubProcesses
    cons : ProcessDefinition → SubProcesses → SubProcesses

-- The fields.
abbrev pub key : ProcessDefinition → ℕ
key (definition k i v n f l e s) = k

abbrev pub id : ProcessDefinition → String
id (definition k i v n f l e s) = i

abbrev pub version : ProcessDefinition → ℤ
version (definition k i v n f l e s) = v

abbrev pub nodes : ProcessDefinition → Map String BpmnElement
nodes (definition k i v n f l e s) = n

abbrev pub flows : ProcessDefinition → Map String (List SequenceFlow)
flows (definition k i v n f l e s) = f

abbrev pub listeners : ProcessDefinition → Map String (List ExecutionListener)
listeners (definition k i v n f l e s) = l

abbrev pub event_listeners : ProcessDefinition → List ScopeEventListener
event_listeners (definition k i v n f l e s) = e

start_of : String × BpmnElement → Option (String × BpmnElement)
start_of (i, e) = if is_start e then some (i, e) else none

unfoldable pub start_event : ProcessDefinition → Option (String × BpmnElement)
unfolding start_of
start_event d = find_map start_of (nodes d)

unfoldable pub get_node : ProcessDefinition → String → Option BpmnElement
get_node d i = get (nodes d) i

abbrev pub or_nil : Option (List SequenceFlow) → List SequenceFlow
or_nil none = []
or_nil (some v) = v

unfoldable pub next_nodes : ProcessDefinition → String → List SequenceFlow
next_nodes d from_id = or_nil (get (flows d) from_id)

only_target : List SequenceFlow → Option String
only_target (sf ∷ []) = some sf.target
only_target _ = none

unfoldable pub next_node : ProcessDefinition → String → Option String
unfolding only_target
next_node d from_id = only_target (next_nodes d from_id)

-- `values().flat_map(iter).filter(target == node_id).count()`.
unfoldable pub incoming : Map String (List SequenceFlow) → String → ℕ
incoming [] node_id = 0
incoming ((from, targets) ∷ rest) node_id =
    count (λ sf. sf.target == node_id) targets + incoming rest node_id

unfoldable pub incoming_flow_count : ProcessDefinition → String → ℕ
incoming_flow_count d node_id = incoming (flows d) node_id

unfoldable pub is_join_gateway : ProcessDefinition → String → Bool
is_join_gateway d node_id = leb 2 (incoming_flow_count d node_id)

unfoldable pub is_split_gateway : ProcessDefinition → String → Bool
is_split_gateway d node_id = elim (get (nodes d) node_id) [
  | none ↦ false
  | some element ↦ is_gateway element && leb 2 (length (next_nodes d node_id))
]
