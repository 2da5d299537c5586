-- ===== src/Domain/Definition/Validation.antt =====
-- `ProcessDefinition::new` of engine-core/src/domain/definition.rs: the checks that a definition must
-- pass, in the order of the code. A map is walked in the order of its list.
pub mod Structure
use Prim.Native.String.{◌++◌ as concat}
use mini_bpm_engine.Prelude.{
  ℕ, String, Bool, true, false, ◌&&◌, not, Option, none, some, List, [], ◌∷◌, Map, length, count,
  get, contains_key, values, ltb, nat_beq, if◌then◌else◌, string_eq,
}
use mini_bpm_engine.Prelude.Int.{ℤ}
use mini_bpm_engine.Domain.Element.{
  BpmnElement, SequenceFlow, ExecutionListener, ScopeEventListener, is_start, is_end,
  may_be_terminal, is_gateway, is_event_based_gateway, is_message_or_timer_catch, attached_to,
}
use mini_bpm_engine.Domain.Error.{
  EngineError, invalid_definition, no_such_node, Result, ok, err, ◌>>=◌, ◌>>◌, fail_if,
}
use mini_bpm_engine.Domain.Definition.{
  ProcessDefinition, definition, SubProcesses, or_nil, incoming,
}

abbrev pub Nodes : Type 0
Nodes = Map String BpmnElement

abbrev pub Flows : Type 0
Flows = Map String (List SequenceFlow)

-- The message of an error that quotes one node.
abbrev pub quoting : String → String → String → String
quoting before node_id after = concat before (concat node_id after)

check_targets : Nodes → List SequenceFlow → Result (Unit {0})
check_targets nodes [] = ok tt
check_targets nodes (sf ∷ rest) =
    fail_if (not (contains_key nodes sf.target)) (no_such_node sf.target)
    >> check_targets nodes rest

check_flows : Nodes → Flows → Result (Unit {0})
check_flows nodes [] = ok tt
check_flows nodes ((from, targets) ∷ rest) =
    fail_if (not (contains_key nodes from)) (no_such_node from)
    >> check_targets nodes targets
    >> check_flows nodes rest

check_attached : Nodes → String → Option String → Result (Unit {0})
check_attached nodes node_id none = ok tt
check_attached nodes node_id (some a) = fail_if (not (contains_key nodes a)) (
    invalid_definition
      (concat (quoting "Boundary event '" node_id "' attached to missing node '") (concat a "'")))

check_boundary_events : Nodes → Nodes → Result (Unit {0})
check_boundary_events nodes [] = ok tt
check_boundary_events nodes ((node_id, element) ∷ rest) =
    check_attached nodes node_id (attached_to element) >> check_boundary_events nodes rest

abbrev pub outgoing : Flows → String → List SequenceFlow
outgoing flows node_id = or_nil (get flows node_id)

check_outgoing : Flows → Nodes → Result (Unit {0})
check_outgoing flows [] = ok tt
check_outgoing flows ((node_id, element) ∷ rest) =
    fail_if (not (may_be_terminal element) && nat_beq (length (outgoing flows node_id)) 0)
      (invalid_definition (quoting "Node '" node_id "' has no outgoing sequence flow"))
    >> check_outgoing flows rest

is_catch_or_absent : Option BpmnElement → Bool
is_catch_or_absent none = true
is_catch_or_absent (some e) = is_message_or_timer_catch e

check_event_targets : Nodes → String → List SequenceFlow → Result (Unit {0})
check_event_targets nodes node_id [] = ok tt
check_event_targets nodes node_id (sf ∷ rest) =
    fail_if (not (is_catch_or_absent (get nodes sf.target))) (
      invalid_definition (
        concat
          (quoting "EventBasedGateway '" node_id
            "' can only connect to MessageCatchEvent or TimerCatchEvent targets. Node '")
          (concat sf.target "' is invalid.")))
    >> check_event_targets nodes node_id rest

check_gateways : Nodes → Flows → Nodes → Result (Unit {0})
check_gateways nodes flows [] = ok tt
check_gateways nodes flows ((node_id, element) ∷ rest) =
    fail_if
      (is_gateway element
        && ltb (length (outgoing flows node_id)) 2
        && ltb (incoming flows node_id) 2)
      (invalid_definition
        (quoting "Gateway '" node_id "' must have at least 2 incoming or 2 outgoing flows"))
    >> (if is_event_based_gateway element
        then check_event_targets nodes node_id (outgoing flows node_id)
        else ok tt)
    >> check_gateways nodes flows rest

unfoldable pub validate : Nodes → Flows → Result (Unit {0})
unfolding check_targets check_flows check_attached check_boundary_events check_outgoing
    is_catch_or_absent check_event_targets check_gateways
validate nodes flows =
    fail_if (nat_beq (count is_start (values nodes)) 0)
      (invalid_definition "No start event defined")
    >> fail_if (ltb 1 (count is_start (values nodes)))
        (invalid_definition "Multiple start events are not supported")
    >> fail_if (nat_beq (count is_end (values nodes)) 0) (invalid_definition "No end event defined")
    >> check_flows nodes flows
    >> check_boundary_events nodes nodes
    >> check_outgoing flows nodes
    >> check_gateways nodes flows nodes

-- `Uuid::new_v4()` is the first argument.
unfoldable pub new :
    (uuid : ℕ) (id : String) (version : ℤ) (nodes : Nodes) (flows : Flows)
    (listeners : Map String (List ExecutionListener)) (event_listeners : List ScopeEventListener)
    (sub_processes : SubProcesses)
    → Result ProcessDefinition
new uuid id version nodes flows listeners event_listeners sub_processes =
    validate nodes flows >>= λ _.
    ok (definition uuid id version nodes flows listeners event_listeners sub_processes)
