-- ===== src/Filing/Steps.antt =====
-- Steps, their actions and whole batches keep the invariant.
use mini_bpm_engine.Prelude.{ℕ, String, true, false, nat_eq}
use mini_bpm_engine.Domain.Definition.{ProcessDefinition}
use mini_bpm_engine.Domain.Element.{
  BpmnElement, start_event, timer_start_event, end_event, terminate_end_event, service_task,
  user_task, script_task, send_task, exclusive_gateway, inclusive_gateway, parallel_gateway,
  event_based_gateway, complex_gateway, timer_catch_event, boundary_timer_event,
  message_start_event, message_catch_event, boundary_message_event, boundary_error_event,
  error_end_event, escalation_end_event, escalation_throw_event, boundary_escalation_event,
  compensation_throw_event, compensation_end_event, boundary_compensation_event, call_activity,
  embedded_sub_process, sub_process_end_event,
}
use mini_bpm_engine.Domain.Token.{Token}
use mini_bpm_engine.Run.{Env, Run}
use mini_bpm_engine.Run.Keeping.{Keeps, Keeps-pure}
use mini_bpm_engine.Executor.Handlers.Events.{
  handle_start_event, handle_boundary_event, handle_end_event, handle_terminate_end_event,
  handle_error_end_event, handle_escalation_end_event,
}
use mini_bpm_engine.Executor.Handlers.SubProcesses.{
  handle_embedded_sub_process, handle_sub_process_end_event,
}
use mini_bpm_engine.Executor.Step.{dispatch, execute_step}
use mini_bpm_engine.Filing.{IsFiled, filing}
use mini_bpm_engine.Filing.Handlers.{
  Keeps-run_node_scripts, Keeps-or_raise, Keeps-user_task, Keeps-service_task, Keeps-call_activity,
  Keeps-script_task, Keeps-send_task, Keeps-end_path, Keeps-pass_through, Keeps-escalation_throw,
  Keeps-timer_catch, Keeps-message_catch,
}
use mini_bpm_engine.Filing.Gateways.{
  Keeps-parallel_gateway, Keeps-exclusive_gateway, Keeps-inclusive_gateway, Keeps-complex_gateway,
  Keeps-event_based_gateway, Keeps-compensation_throw,
}

module _ (env : Env) (nested : ℕ → Token → Run (Unit {0}))
    (Keeps-nested : (instance_id : ℕ) (token : Token) → Keeps IsFiled (nested instance_id token))
    (instance_id : ℕ) where
  Keeps-dispatch :
      (token : Token) (def : ProcessDefinition) (current_id : String) (element : BpmnElement)
      → Keeps IsFiled (dispatch env nested instance_id token def current_id element)
  unfolding dispatch handle_start_event handle_boundary_event handle_end_event
      handle_terminate_end_event handle_error_end_event handle_escalation_end_event
      handle_embedded_sub_process handle_sub_process_end_event
  Keeps-dispatch t d c start_event = Keeps-pass_through env instance_id d c t
  Keeps-dispatch t d c (timer_start_event x) = Keeps-pass_through env instance_id d c t
  Keeps-dispatch t d c (message_start_event x) = Keeps-pass_through env instance_id d c t
  Keeps-dispatch t d c end_event = Keeps-end_path env instance_id d c t _ _
  Keeps-dispatch t d c terminate_end_event = Keeps-end_path env instance_id d c t _ _
  Keeps-dispatch t d c (error_end_event code) = Keeps-end_path env instance_id d c t _ _
  Keeps-dispatch t d c (escalation_end_event code) = Keeps-end_path env instance_id d c t _ _
  Keeps-dispatch t d c (user_task assignee) = Keeps-user_task env instance_id t d c assignee
  Keeps-dispatch t d c (script_task script m) = Keeps-script_task env instance_id d c t script
  Keeps-dispatch t d c (send_task name m) = Keeps-send_task env instance_id d c t name
  Keeps-dispatch t d c (service_task topic m) = Keeps-service_task env instance_id t d c topic
  Keeps-dispatch t d c parallel_gateway = Keeps-parallel_gateway env instance_id t d c
  Keeps-dispatch t d c (exclusive_gateway x) = Keeps-exclusive_gateway env instance_id t d c x
  Keeps-dispatch t d c inclusive_gateway = Keeps-inclusive_gateway env instance_id t d c
  Keeps-dispatch t d c (complex_gateway j x) = Keeps-complex_gateway env instance_id t d c x
  Keeps-dispatch t d c event_based_gateway = Keeps-event_based_gateway env instance_id t d c
  Keeps-dispatch t d c (timer_catch_event x) = Keeps-timer_catch env instance_id d c t x
  Keeps-dispatch t d c (message_catch_event x) = Keeps-message_catch env instance_id d c t x
  Keeps-dispatch t d c (call_activity called) = Keeps-call_activity env instance_id t d c called
  Keeps-dispatch t d c (embedded_sub_process s) = Keeps-pure _
  Keeps-dispatch t d c (sub_process_end_event s) = search (filing)
  Keeps-dispatch t d c (escalation_throw_event code) =
      Keeps-escalation_throw env instance_id d c t code
  Keeps-dispatch t d c (compensation_throw_event ref) =
      Keeps-compensation_throw env nested Keeps-nested instance_id d t c ref false
  Keeps-dispatch t d c (compensation_end_event ref) =
      Keeps-compensation_throw env nested Keeps-nested instance_id d t c ref true
  Keeps-dispatch t d c (boundary_timer_event a x k) = Keeps-pass_through env instance_id d c t
  Keeps-dispatch t d c (boundary_message_event a x k) = Keeps-pass_through env instance_id d c t
  Keeps-dispatch t d c (boundary_error_event a x) = Keeps-pass_through env instance_id d c t
  Keeps-dispatch t d c (boundary_escalation_event a x k) = Keeps-pass_through env instance_id d c t
  Keeps-dispatch t d c (boundary_compensation_event a) = Keeps-pure _

  pub Keeps-execute_step :
      (token : Token) → Keeps IsFiled (execute_step env nested instance_id token)
  unfolding execute_step
  Keeps-execute_step token =
      search (filing, Keeps-run_node_scripts env, Keeps-or_raise env, Keeps-dispatch) depth 40
