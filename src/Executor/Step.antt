-- ===== src/Executor/Step.antt =====
-- `execute_step` of engine-core/src/engine/executor/mod.rs: one node for one token.
-- `nested` is `run_instance_batch`, which the compensation handlers call.
use mini_bpm_engine.Prelude.{ℕ, String, true, false, ◌++◌, contains_key, if◌then◌else◌, string_eq}
use mini_bpm_engine.Domain.Error.{no_such_node, ok_or}
use mini_bpm_engine.Domain.Element.{
  BpmnElement, start_event, timer_start_event, end_event, terminate_end_event, service_task,
  user_task, script_task, send_task, exclusive_gateway, inclusive_gateway, parallel_gateway,
  event_based_gateway, complex_gateway, timer_catch_event, boundary_timer_event,
  message_start_event, message_catch_event, boundary_message_event, boundary_error_event,
  error_end_event, escalation_end_event, escalation_throw_event, boundary_escalation_event,
  compensation_throw_event, compensation_end_event, boundary_compensation_event, call_activity,
  embedded_sub_process, sub_process_end_event, start,
}
use mini_bpm_engine.Domain.Definition.{ProcessDefinition, get_node, listeners}
use mini_bpm_engine.Domain.Token.{Token}
use mini_bpm_engine.Runtime.Action.{NextAction, complete}
use mini_bpm_engine.Runtime.Instance.{ProcessInstance}
use mini_bpm_engine.Run.{
  Env, Run, pure, ◌>>=◌, ◌>>◌, lift, instance_at, touch_instance, definition_at,
}
use mini_bpm_engine.Executor.Scripts.{Scripted, run_node_scripts, or_raise}
use mini_bpm_engine.Executor.Handlers.Tasks.{
  handle_user_task, handle_script_task, handle_send_task, handle_service_task,
}
use mini_bpm_engine.Executor.Handlers.Gateways.{
  handle_parallel_gateway, handle_exclusive_gateway, handle_inclusive_gateway,
  handle_complex_gateway, handle_event_based_gateway,
}
use mini_bpm_engine.Executor.Handlers.Events.{
  handle_timer_catch_event, handle_message_catch_event, handle_start_event, handle_boundary_event,
  handle_end_event, handle_terminate_end_event, handle_error_end_event, handle_escalation_end_event,
  handle_escalation_throw_event,
}
use mini_bpm_engine.Executor.Handlers.Compensation.{handle_compensation_throw_event}
use mini_bpm_engine.Executor.Handlers.SubProcesses.{
  handle_call_activity, handle_embedded_sub_process, handle_sub_process_end_event,
}

-- The write after the start scripts; without listeners at the node the variables stay.
abbrev pub after_start_scripts :
    ProcessDefinition → String → Scripted → ProcessInstance → ProcessInstance
after_start_scripts def current_id s inst = record inst {
  audit_log = inst.audit_log ++ s.entries;
  variables = if contains_key (listeners def) current_id then s.token.variables else inst.variables;
}

module _ (env : Env) (nested : ℕ → Token → Run (Unit {0})) (instance_id : ℕ) where
  unfoldable pub dispatch :
      Token → ProcessDefinition → (current_id : String) → BpmnElement → Run NextAction
  dispatch token def current_id start_event =
      handle_start_event env instance_id token def current_id
  dispatch token def current_id (timer_start_event t) =
      handle_start_event env instance_id token def current_id
  dispatch token def current_id (message_start_event m) =
      handle_start_event env instance_id token def current_id
  dispatch token def current_id end_event = handle_end_event env instance_id token def current_id
  dispatch token def current_id terminate_end_event =
      handle_terminate_end_event env instance_id token def current_id
  dispatch token def current_id (error_end_event error_code) =
      handle_error_end_event env instance_id token def current_id error_code
  dispatch token def current_id (user_task assignee) =
      handle_user_task env instance_id token def current_id assignee
  dispatch token def current_id (script_task script multi) =
      handle_script_task env instance_id token def current_id script
  dispatch token def current_id (send_task message_name multi) =
      handle_send_task env instance_id token def current_id message_name
  dispatch token def current_id (service_task topic multi) =
      handle_service_task env instance_id token def current_id topic
  dispatch token def current_id parallel_gateway =
      handle_parallel_gateway env instance_id token def current_id
  dispatch token def current_id (exclusive_gateway default) =
      handle_exclusive_gateway env instance_id token def current_id default
  dispatch token def current_id inclusive_gateway =
      handle_inclusive_gateway env instance_id token def current_id
  dispatch token def current_id (complex_gateway condition default) =
      handle_complex_gateway env instance_id token def current_id default
  dispatch token def current_id event_based_gateway =
      handle_event_based_gateway env instance_id token def current_id
  dispatch token def current_id (timer_catch_event timer_def) =
      handle_timer_catch_event env instance_id token current_id timer_def
  dispatch token def current_id (message_catch_event message_name) =
      handle_message_catch_event env instance_id token current_id message_name
  dispatch token def current_id (call_activity called_element) =
      handle_call_activity env instance_id token def current_id called_element
  dispatch token def current_id (embedded_sub_process start_node_id) =
      handle_embedded_sub_process env token start_node_id
  dispatch token def current_id (sub_process_end_event sub_process_id) =
      handle_sub_process_end_event env token def sub_process_id
  dispatch token def current_id (escalation_end_event escalation_code) =
      handle_escalation_end_event env instance_id token def current_id escalation_code
  dispatch token def current_id (escalation_throw_event escalation_code) =
      handle_escalation_throw_event env instance_id token def current_id escalation_code
  dispatch token def current_id (compensation_throw_event activity_ref) =
      handle_compensation_throw_event env nested instance_id def token current_id activity_ref false
  dispatch token def current_id (compensation_end_event activity_ref) =
      handle_compensation_throw_event env nested instance_id def token current_id activity_ref true
  dispatch token def current_id (boundary_timer_event a t c) =
      handle_boundary_event env instance_id token def current_id
  dispatch token def current_id (boundary_message_event a m c) =
      handle_boundary_event env instance_id token def current_id
  dispatch token def current_id (boundary_error_event a c) =
      handle_boundary_event env instance_id token def current_id
  dispatch token def current_id (boundary_escalation_event a e c) =
      handle_boundary_event env instance_id token def current_id
  dispatch token def current_id (boundary_compensation_event a) = pure complete

  unfoldable pub execute_step : Token → Run NextAction
  execute_step token = do
    inst ← instance_at instance_id
    def ← definition_at inst.definition_key
    let current_id = token.current_node
    element ← lift (ok_or (get_node def current_id) (no_such_node current_id))
    s ← run_node_scripts env token def current_id start
    after ← or_raise env s
    touch_instance instance_id (after_start_scripts def current_id s)
    dispatch after def current_id element
