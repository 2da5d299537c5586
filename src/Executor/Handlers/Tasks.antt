-- ===== src/Executor/Handlers/Tasks.antt =====
-- engine-core/src/engine/handlers/tasks.rs: what happens at a task.
use mini_bpm_engine.Prelude.{ℕ, String, none, [], ◌∷◌}
use mini_bpm_engine.Prelude.Int.{pos}
use mini_bpm_engine.Prelude.Text.{format}
use mini_bpm_engine.Domain.Token.{Token}
use mini_bpm_engine.Domain.Definition.{ProcessDefinition, key}
use mini_bpm_engine.Runtime.Action.{NextAction, continue, wait_for_user, wait_for_service_task}
use mini_bpm_engine.Runtime.AuditLog.{push_audit_log}
use mini_bpm_engine.Runtime.Pending.{PendingUserTask, PendingServiceTask}
use mini_bpm_engine.Run.{Env, Run, pure, ◌>>=◌, ◌>>◌, lift, ask, instance_at, write_instance}
use mini_bpm_engine.Executor.Helpers.{resolve_next_target}
use mini_bpm_engine.Executor.Scripts.{run_end_scripts}
use mini_bpm_engine.Executor.Handlers.{arm_boundary_events, at_node, parked, key_of}
use mini_bpm_engine.Executor.Handlers.Compensation.{register_compensation_handler}

module _ (env : Env) (instance_id : ℕ) (token : Token) (def_clone : ProcessDefinition)
    (current_id : String) where
  unfoldable pub handle_user_task : (assignee : String) → Run NextAction
  handle_user_task assignee = do
    arm_boundary_events env def_clone current_id instance_id token
    inst ← instance_at instance_id
    task_id ← ask env.uuid
    created_at ← ask env.now
    let pending : PendingUserTask = record {
      task_id = task_id;
      instance_id = instance_id;
      node_id = current_id;
      assignee = assignee;
      token_id = token.id;
      created_at = created_at;
      business_key = key_of inst;
    }
    write_instance instance_id (
        parked token current_id (
          format (
            "👤 User task '"
            ∷ current_id
            ∷ "' assigned to '"
            ∷ env.debug_text assignee
            ∷ "' — waiting (task_id: "
            ∷ env.uuid_text task_id
            ∷ ")"
            ∷ [])))
    pure (wait_for_user pending)

  unfoldable pub handle_script_task : (script : String) → Run NextAction
  handle_script_task script = do
    result ← ask (λ n. env.run_script n script token.variables)
    variables ← lift result
    after ←
        run_end_scripts env instance_id (record token { variables = variables }) def_clone
          current_id
    register_compensation_handler instance_id current_id def_clone
    next ← lift (resolve_next_target env.json def_clone current_id after.variables)
    write_instance instance_id (λ inst.
        push_audit_log (record inst { current_node = next; variables = after.variables })
          (format ("📜 Script task '" ∷ current_id ∷ "' executed" ∷ [])))
    pure (continue (record after { current_node = next }))

  unfoldable pub handle_send_task : (message_name : String) → Run NextAction
  handle_send_task message_name = do
    after ← run_end_scripts env instance_id token def_clone current_id
    next ← lift (resolve_next_target env.json def_clone current_id after.variables)
    write_instance instance_id (
        at_node next (
          format
            ("📤 Send task '" ∷ current_id ∷ "' published message '" ∷ message_name ∷ "'" ∷ [])))
    pure (continue (record after { current_node = next }))

  unfoldable pub handle_service_task : (topic : String) → Run NextAction
  handle_service_task topic = do
    arm_boundary_events env def_clone current_id instance_id token
    inst ← instance_at instance_id
    id ← ask env.uuid
    created_at ← ask env.now
    let svc_task : PendingServiceTask = record {
      id = id;
      instance_id = instance_id;
      definition_key = key def_clone;
      node_id = current_id;
      topic = topic;
      token_id = token.id;
      business_key = key_of inst;
      variables_snapshot = token.variables;
      created_at = created_at;
      worker_id = none;
      lock_expiration = none;
      retries = pos 3;
      error_message = none;
      error_details = none;
    }
    write_instance instance_id (
        parked token current_id (
          format (
            "🔗 Service task '"
            ∷ current_id
            ∷ "' created for topic '"
            ∷ topic
            ∷ "' (task_id: "
            ∷ env.uuid_text id
            ∷ ")"
            ∷ [])))
    pure (wait_for_service_task svc_task)
