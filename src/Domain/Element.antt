-- ===== src/Domain/Element.antt =====
-- engine-core/src/domain/element.rs, flow.rs, multi_instance.rs and listener.rs: flow nodes and edges.
use mini_bpm_engine.Prelude.{String, Bool, true, false, Option, none, some}
use mini_bpm_engine.Domain.Timer.{TimerDefinition}

pub record MultiInstanceDef : Type 0 where
  pub is_sequential : Bool
  pub loop_cardinality : Option String
  pub collection : Option String
  pub element_variable : Option String

pub data BpmnElement : Type 0 where
  start_event : BpmnElement
  timer_start_event : TimerDefinition → BpmnElement
  end_event : BpmnElement
  terminate_end_event : BpmnElement
  service_task : (topic : String) (multi_instance : Option MultiInstanceDef) → BpmnElement
  user_task : String → BpmnElement
  script_task : (script : String) (multi_instance : Option MultiInstanceDef) → BpmnElement
  send_task : (message_name : String) (multi_instance : Option MultiInstanceDef) → BpmnElement
  exclusive_gateway : (default : Option String) → BpmnElement
  inclusive_gateway : BpmnElement
  parallel_gateway : BpmnElement
  event_based_gateway : BpmnElement
  complex_gateway : (join_condition default : Option String) → BpmnElement
  timer_catch_event : TimerDefinition → BpmnElement
  boundary_timer_event :
      (attached_to : String) (timer : TimerDefinition) (cancel_activity : Bool) → BpmnElement
  message_start_event : (message_name : String) → BpmnElement
  message_catch_event : (message_name : String) → BpmnElement
  boundary_message_event :
      (attached_to message_name : String) (cancel_activity : Bool) → BpmnElement
  boundary_error_event : (attached_to : String) (error_code : Option String) → BpmnElement
  error_end_event : (error_code : String) → BpmnElement
  escalation_end_event : (escalation_code : String) → BpmnElement
  escalation_throw_event : (escalation_code : String) → BpmnElement
  boundary_escalation_event :
      (attached_to : String) (escalation_code : Option String) (cancel_activity : Bool)
      → BpmnElement
  compensation_throw_event : (activity_ref : Option String) → BpmnElement
  compensation_end_event : (activity_ref : Option String) → BpmnElement
  boundary_compensation_event : (attached_to : String) → BpmnElement
  call_activity : (called_element : String) → BpmnElement
  embedded_sub_process : (start_node_id : String) → BpmnElement
  sub_process_end_event : (sub_process_id : String) → BpmnElement

-- The `matches!` tests of definition.rs.
abbrev pub is_start : BpmnElement → Bool
is_start start_event = true
is_start (timer_start_event t) = true
is_start (message_start_event m) = true
is_start _ = false

abbrev pub is_end : BpmnElement → Bool
is_end end_event = true
is_end (error_end_event c) = true
is_end (escalation_end_event c) = true
is_end (compensation_end_event r) = true
is_end terminate_end_event = true
is_end (sub_process_end_event s) = true
is_end _ = false

-- Nodes that may have no outgoing flow.
abbrev pub may_be_terminal : BpmnElement → Bool
may_be_terminal end_event = true
may_be_terminal (error_end_event c) = true
may_be_terminal (escalation_end_event c) = true
may_be_terminal (compensation_end_event r) = true
may_be_terminal terminate_end_event = true
may_be_terminal (sub_process_end_event s) = true
may_be_terminal (embedded_sub_process s) = true
may_be_terminal (boundary_compensation_event a) = true
may_be_terminal _ = false

abbrev pub is_gateway : BpmnElement → Bool
is_gateway (exclusive_gateway d) = true
is_gateway inclusive_gateway = true
is_gateway parallel_gateway = true
is_gateway event_based_gateway = true
is_gateway (complex_gateway j d) = true
is_gateway _ = false

abbrev pub is_event_based_gateway : BpmnElement → Bool
is_event_based_gateway event_based_gateway = true
is_event_based_gateway _ = false

abbrev pub is_message_or_timer_catch : BpmnElement → Bool
is_message_or_timer_catch (message_catch_event m) = true
is_message_or_timer_catch (timer_catch_event t) = true
is_message_or_timer_catch _ = false

-- The node that a boundary event is attached to.
abbrev pub attached_to : BpmnElement → Option String
attached_to (boundary_timer_event a t c) = some a
attached_to (boundary_message_event a m c) = some a
attached_to (boundary_error_event a c) = some a
attached_to (boundary_escalation_event a e c) = some a
attached_to (boundary_compensation_event a) = some a
attached_to _ = none

pub record SequenceFlow : Type 0 where
  pub target : String
  pub condition : Option String

unfoldable pub simple : String → SequenceFlow
simple target = record { target = target; condition = none }

unfoldable pub conditional : String → String → SequenceFlow
conditional target condition = record { target = target; condition = some condition }

pub data ListenerEvent : Type 0 where
  start end : ListenerEvent

pub record ExecutionListener : Type 0 where
  pub event : ListenerEvent
  pub script : String

pub data ScopeEventListener : Type 0 where
  timer :
      (timer : TimerDefinition) (is_interrupting : Bool) (target_definition : String)
      → ScopeEventListener
  message :
      (message_name : String) (is_interrupting : Bool) (target_definition : String)
      → ScopeEventListener
  error : (error_code : Option String) (target_definition : String) → ScopeEventListener
