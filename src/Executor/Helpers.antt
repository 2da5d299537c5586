-- ===== src/Executor/Helpers.antt =====
-- engine-core/src/engine/executor/helpers.rs: lookups in a process definition.
use Prim.Native.String.{◌++◌ as concat}
use mini_bpm_engine.Prelude.{
  String, Bool, true, false, ◌&&◌, Option, none, some, List, [], ◌∷◌, find, find_map, ◌==◌,
  if◌then◌else◌, string_eq,
}
use mini_bpm_engine.Domain.Json.{Json, Variables}
use mini_bpm_engine.Domain.Element.{
  BpmnElement, SequenceFlow, boundary_error_event, boundary_escalation_event,
  boundary_compensation_event, exclusive_gateway, inclusive_gateway, parallel_gateway,
}
use mini_bpm_engine.Domain.Error.{Result, invalid_definition, ok_or}
use mini_bpm_engine.Domain.Definition.{ProcessDefinition, nodes, next_nodes}
use mini_bpm_engine.Gateway.{is_open, target_of}

unfoldable pub resolve_next_target : Json → ProcessDefinition → String → Variables → Result String
resolve_next_target J def from variables =
    ok_or (target_of (find (is_open J variables) (next_nodes def from)))
      (invalid_definition (concat "No matching outgoing flow from '" (concat from "'")))

-- `bound.is_none() || bound == Some(code)`.
abbrev pub catches : Option String → String → Bool
catches none code = true
catches (some bound) code = bound == code

error_boundary : String → String → String × BpmnElement → Option String
error_boundary node error_code (node_id, boundary_error_event attached_to bound_err) =
    if attached_to == node && catches bound_err error_code then some node_id else none
error_boundary node error_code (node_id, _) = none

unfoldable pub find_boundary_error_event :
    ProcessDefinition → (attached_to_node error_code : String) → Option String
unfolding error_boundary
find_boundary_error_event def attached_to_node error_code =
    find_map (error_boundary attached_to_node error_code) (nodes def)

escalation_boundary : String → String × BpmnElement → Option (String × String × Bool)
escalation_boundary code
      (node_id, boundary_escalation_event attached_to bound_esc cancel_activity) =
    if catches bound_esc code then some (node_id, attached_to, cancel_activity) else none
escalation_boundary code (node_id, _) = none

unfoldable pub find_any_boundary_escalation_event :
    ProcessDefinition → (escalation_code : String) → Option (String × String × Bool)
unfolding escalation_boundary
find_any_boundary_escalation_event def escalation_code =
    find_map (escalation_boundary escalation_code) (nodes def)

compensation_boundary : String → String × BpmnElement → Option String
compensation_boundary activity_id (node_id, boundary_compensation_event attached_to) =
    if attached_to == activity_id then some node_id else none
compensation_boundary activity_id (node_id, _) = none

abbrev first_target : List SequenceFlow → Option String
first_target [] = none
first_target (sf ∷ rest) = some sf.target

unfoldable pub find_compensation_handler :
    ProcessDefinition → (activity_id : String) → Option String
unfolding compensation_boundary
find_compensation_handler def activity_id =
    elim (find_map (compensation_boundary activity_id) (nodes def)) [
      | none ↦ none
      | some boundary_id ↦ first_target (next_nodes def boundary_id)
    ]

unfoldable pub same_gateway_type : BpmnElement → BpmnElement → Bool
same_gateway_type (exclusive_gateway d) (exclusive_gateway d') = true
same_gateway_type inclusive_gateway inclusive_gateway = true
same_gateway_type parallel_gateway parallel_gateway = true
same_gateway_type _ _ = false
