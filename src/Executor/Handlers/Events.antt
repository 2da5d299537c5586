-- ===== src/Executor/Handlers/Events.antt =====
-- engine-core/src/engine/handlers/events.rs without compensation: what happens at an event.
use mini_bpm_engine.Prelude.{ℕ, String, Bool, true, false, Option, none, some, [], ◌∷◌}
use mini_bpm_engine.Prelude.Text.{format}
use mini_bpm_engine.Domain.Timer.{TimerDefinition, next_expiry}
use mini_bpm_engine.Domain.Token.{Token, with_variables}
use mini_bpm_engine.Domain.Definition.{ProcessDefinition}
use mini_bpm_engine.Runtime.Action.{
  NextAction, continue, complete, error_end, escalation_end, spawn_and_continue, terminate,
  wait_for_timer, wait_for_message,
}
use mini_bpm_engine.Runtime.AuditLog.{push_audit_log}
use mini_bpm_engine.Runtime.Instance.{ProcessInstance}
use mini_bpm_engine.Runtime.Pending.{PendingTimer}
use mini_bpm_engine.Boundary.{expiry_or_now}
use mini_bpm_engine.Engine.{record_history_event, escalation_thrown}
use mini_bpm_engine.Run.{Env, Run, pure, ◌>>=◌, ◌>>◌, lift, ask, effect, write_instance}
use mini_bpm_engine.Executor.Helpers.{resolve_next_target, find_any_boundary_escalation_event}
use mini_bpm_engine.Executor.Scripts.{run_end_scripts}
use mini_bpm_engine.Executor.Handlers.{at_node, parked}

-- The instance with an entry, moved to a node.
abbrev pub moved : String → String → ProcessInstance → ProcessInstance
moved next entry inst = record (push_audit_log inst entry) { current_node = next }

module _ (env : Env) (instance_id : ℕ) (token : Token) where
  unfoldable pub timer_wait : (n : ℕ) (current_id : String) → TimerDefinition → PendingTimer
  timer_wait n current_id timer_def = record {
    id = env.uuid n;
    instance_id = instance_id;
    node_id = current_id;
    expires_at = expiry_or_now (next_expiry env.cron timer_def (env.now n)) (env.now n);
    token_id = token.id;
    timer_def = some timer_def;
    remaining_repetitions = none;
  }

  unfoldable pub handle_timer_catch_event : (current_id : String) → TimerDefinition → Run NextAction
  handle_timer_catch_event current_id timer_def = do
    pending ← ask (λ n. timer_wait n current_id timer_def)
    write_instance instance_id (
        parked token current_id
          (format ("⏱ Timer catch event '" ∷ current_id ∷ "' — waiting" ∷ [])))
    pure (wait_for_timer pending)

  unfoldable pub handle_message_catch_event : (current_id message_name : String) → Run NextAction
  handle_message_catch_event current_id message_name = do
    id ← ask env.uuid
    write_instance instance_id (
        parked token current_id (
          format (
            "✉\u{fe0f} Message catch event '" ∷ current_id ∷ "' waiting for '" ∷ message_name ∷ "'"
            ∷ [])))
    pure (
        wait_for_message (record {
          id = id;
          instance_id = instance_id;
          node_id = current_id;
          message_name = message_name;
          token_id = token.id;
        }))

module _ (env : Env) (instance_id : ℕ) (token : Token) (def_clone : ProcessDefinition)
    (current_id : String) where
  -- A start event, and a boundary event that has fired.
  unfoldable pub pass_through : Run NextAction
  pass_through = do
    next ← lift (resolve_next_target env.json def_clone current_id token.variables)
    after ← run_end_scripts env instance_id token def_clone current_id
    write_instance instance_id (λ inst. record inst { current_node = next })
    pure (continue (record after { current_node = next }))

  unfoldable pub handle_start_event : Run NextAction
  handle_start_event = pass_through

  unfoldable pub handle_boundary_event : Run NextAction
  handle_boundary_event = pass_through

  -- An event at which the path ends.
  unfoldable pub end_path : (entry : String) → NextAction → Run NextAction
  end_path entry action = do
    after ← run_end_scripts env instance_id token def_clone current_id
    write_instance instance_id (at_node current_id entry)
    pure action

  unfoldable pub handle_end_event : Run NextAction
  handle_end_event =
      end_path (format ("⏹ Process completed at end event '" ∷ current_id ∷ "'" ∷ [])) complete

  unfoldable pub handle_terminate_end_event : Run NextAction
  handle_terminate_end_event =
      end_path
        (format ("⛔ Terminate end event '" ∷ current_id ∷ "' — killing all active tokens" ∷ []))
        terminate

  unfoldable pub handle_error_end_event : (error_code : String) → Run NextAction
  handle_error_end_event error_code =
      end_path
        (format (
          "💥 Process completed at error end '"
          ∷ current_id
          ∷ "' with error '"
          ∷ env.debug_text error_code
          ∷ "'"
          ∷ []))
        (error_end error_code)

  unfoldable pub handle_escalation_end_event : (escalation_code : String) → Run NextAction
  handle_escalation_end_event escalation_code =
      end_path
        (format
          ("⚡ Escalation end event '" ∷ current_id ∷ "' with code '" ∷ escalation_code ∷ "'" ∷ []))
        (escalation_end escalation_code)

  module _ (escalation_code : String) where
    unfoldable pub escalate : Token → Option (String × String × Bool) → Run NextAction
    escalate after none = do
      next ← lift (resolve_next_target env.json def_clone current_id after.variables)
      write_instance instance_id (
          moved next (
            format (
              "⚡ Escalation '" ∷ escalation_code ∷ "' thrown at '" ∷ current_id
              ∷ "' — no handler found, continuing" ∷ [])))
      pure (continue (record after { current_node = next }))
    escalate after (some (boundary_id, attached_to, true)) = do
      handler_target ← lift (resolve_next_target env.json def_clone boundary_id after.variables)
      write_instance instance_id (
          moved handler_target (
            format (
              "⚡ Escalation '" ∷ escalation_code ∷ "' caught (interrupting) by '" ∷ boundary_id
              ∷ "'" ∷ [])))
      pure (continue (record after { current_node = handler_target }))
    escalate after (some (boundary_id, attached_to, false)) = do
      handler_target ← lift (resolve_next_target env.json def_clone boundary_id after.variables)
      handler_token ← ask (λ n. with_variables (env.uuid n) handler_target after.variables)
      next ← lift (resolve_next_target env.json def_clone current_id after.variables)
      write_instance instance_id (
          moved next (
            format (
              "⚡ Escalation '" ∷ escalation_code ∷ "' caught (non-interrupting) by '" ∷ boundary_id
              ∷ "' — spawned handler token" ∷ [])))
      pure (spawn_and_continue (record after { current_node = next }) (handler_token ∷ []))

    unfoldable pub handle_escalation_throw_event : Run NextAction
    handle_escalation_throw_event = do
      after ← run_end_scripts env instance_id token def_clone current_id
      effect (record_history_event instance_id escalation_thrown)
      escalate after (find_any_boundary_escalation_event def_clone escalation_code)
