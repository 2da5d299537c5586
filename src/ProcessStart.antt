-- ===== src/ProcessStart.antt =====
-- engine-core/src/engine/process_start.rs: starting instances.
-- `nested` is `run_instance_batch`.
pub mod Resuming
use mini_bpm_engine.Prelude.{
  ℕ, String, Bool, true, false, Option, none, some, List, [], ◌∷◌, ◌&&◌, not, length, insert,
  remove, extend, ◌==◌, if◌then◌else◌, nat_eq, string_eq,
}
use mini_bpm_engine.Prelude.Text.{format, decimal}
use mini_bpm_engine.Domain.Error.{EngineError, Result, ok, err, invalid_definition}
use mini_bpm_engine.Domain.Json.{Variables}
use mini_bpm_engine.Domain.Token.{Token, with_variables}
use mini_bpm_engine.Domain.Timer.{next_expiry}
use mini_bpm_engine.Domain.Element.{
  BpmnElement, timer_start_event, ScopeEventListener, timer, message, error,
}
use mini_bpm_engine.Domain.Definition.{ProcessDefinition, start_event, event_listeners}
use mini_bpm_engine.Runtime.AuditLog.{push_audit_log}
use mini_bpm_engine.Runtime.Instance.{
  InstanceState, running, waiting_on_call_activity, completed_with_error, ActiveToken,
  ProcessInstance,
}
use mini_bpm_engine.Boundary.{expiry_or_now}
use mini_bpm_engine.Engine.{
  Engine, record_history_event, persist_instance, instance_started, call_activity_started,
  call_activity_completed, definition_of, set_instance,
}
use mini_bpm_engine.Run.{
  Env, Run, pure, raise, ◌>>=◌, ◌>>◌, modify, attempt, lift, ask, effect, instance_at,
  write_instance, touch_instance, definition_at, for_each,
}
use mini_bpm_engine.Executor.Helpers.{resolve_next_target, find_boundary_error_event}
use mini_bpm_engine.Executor.Scripts.{try_end_scripts}

abbrev pub is_timer_start : BpmnElement → Bool
is_timer_start (timer_start_event t) = true
is_timer_start _ = false

unfoldable pub validate_start_request :
    Engine → (definition_key : ℕ) → Result (ProcessDefinition × String)
validate_start_request e definition_key = elim (definition_of e definition_key) [
  | err x ↦ err x
  | ok def ↦ elim (start_event def) [
    | none ↦ err (invalid_definition "No start event")
    | some (start_id, start_element) ↦
        if is_timer_start start_element
        then err (invalid_definition "Use trigger_timer_start() for timer start events")
        else ok (def, start_id)
  ]
]

-- `business_key` and `started_at` are what the uuid crate and the clock give.
unfoldable pub build_initial_instance :
    (definition_key instance_id : ℕ) (start_id : String)
    → Variables
    → (parent_instance_id : Option ℕ) (business_key : String) (started_at : ℕ) → ProcessInstance
build_initial_instance definition_key instance_id start_id variables parent_instance_id business_key
      started_at =
    record {
      id = instance_id;
      definition_key = definition_key;
      business_key = business_key;
      parent_instance_id = parent_instance_id;
      state = running;
      current_node = start_id;
      audit_log =
          format (
            "▶ Process started at node '"
            ∷ start_id
            ∷ "' with "
            ∷ decimal (length variables)
            ∷ " variable(s)"
            ∷ [])
          ∷ [];
      variables = variables;
      tokens = [];
      active_tokens = [];
      join_barriers = [];
      multi_instance_state = [];
      compensation_log = [];
      started_at = some started_at;
      completed_at = none;
    }

-- `Uuid::nil()`.
abbrev pub nil_uuid : ℕ
nil_uuid = 0

abbrev pub text_or : Option String → String → String
text_or none other = other
text_or (some text) other = text

module _ (env : Env) where
  -- One scope event listener.
  unfoldable pub register_listener : (instance_id : ℕ) → ScopeEventListener → Run (Unit {0})
  register_listener instance_id (timer timer_def is_interrupting target_definition) = do
    now ← ask env.now
    id ← ask env.uuid
    modify (λ e. record e {
      pending_timers = insert e.pending_timers id (record {
        id = id;
        instance_id = instance_id;
        node_id = target_definition;
        expires_at = expiry_or_now (next_expiry env.cron timer_def now) now;
        token_id = nil_uuid;
        timer_def = some timer_def;
        remaining_repetitions = none;
      });
    })
  register_listener instance_id (message message_name is_interrupting target_definition) = do
    id ← ask env.uuid
    modify (λ e. record e {
      pending_message_catches = insert e.pending_message_catches id (record {
        id = id;
        instance_id = instance_id;
        node_id = target_definition;
        message_name = message_name;
        token_id = nil_uuid;
      });
    })
  register_listener instance_id (error error_code target_definition) = pure tt

  module _ (nested : ℕ → Token → Run (Unit {0})) where
    unfoldable pub start_instance_with_variables_and_parent :
        (definition_key : ℕ) → Variables → (parent_instance_id : Option ℕ) → Run ℕ
    start_instance_with_variables_and_parent definition_key given parent_instance_id = do
      r ← attempt (λ e. validate_start_request e definition_key)
      instance_id ← ask env.uuid
      drawn ← ask (λ n. env.uuid_text (env.uuid n))
      started_at ← ask env.now
      let variables = remove given "business_key"
      let business_key = text_or (env.text_of given "business_key") drawn
      modify (λ e. set_instance e instance_id (
          build_initial_instance definition_key instance_id r.1 variables parent_instance_id
            business_key started_at))
      effect (record_history_event instance_id instance_started)
      token ← ask (λ n. with_variables (env.uuid n) r.1 variables)
      for_each (event_listeners r.0) (register_listener instance_id)
      nested instance_id token
      effect (persist_instance instance_id)
      pure instance_id

    unfoldable pub spawn_call_activity : (child_def_key parent_instance_id : ℕ) → Variables → Run ℕ
    spawn_call_activity child_def_key parent_instance_id variables = do
      child_id ←
          start_instance_with_variables_and_parent child_def_key variables (some parent_instance_id)
      effect (record_history_event parent_instance_id call_activity_started)
      pure child_id
