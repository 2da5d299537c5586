-- ===== src/ServiceTask/Completion.antt =====
-- The operations of engine-core/src/engine/service_task.rs that take a task out of the store and let its
-- token go on. `batch` is `run_instance_batch`.
use mini_bpm_engine.Prelude.{
  ℕ, String, Bool, true, false, Option, none, some, [], ◌∷◌, get, remove, extend, ◌==◌, nat_eq,
  string_eq,
}
use mini_bpm_engine.Prelude.Text.{format}
use mini_bpm_engine.Prelude.Int.{is_nonpositive}
use mini_bpm_engine.Domain.Error.{
  EngineError, service_task_not_found, service_task_not_locked, service_task_locked,
  instance_suspended, invalid_definition,
}
use mini_bpm_engine.Domain.Json.{Variables}
use mini_bpm_engine.Domain.Token.{Token}
use mini_bpm_engine.Domain.Definition.{ProcessDefinition}
use mini_bpm_engine.Runtime.AuditLog.{push_audit_log}
use mini_bpm_engine.Runtime.Instance.{running, ProcessInstance}
use mini_bpm_engine.Runtime.Pending.{PendingServiceTask}
use mini_bpm_engine.Engine.{
  record_history_event, remove_persisted_service_task, persist_instance, task_completed,
  token_advanced,
}
use mini_bpm_engine.Run.{
  Env, Run, pure, raise, ◌>>=◌, ◌>>◌, reads, modify, lift, effect, instance_at, write_instance,
  touch_instance, definition_at,
}
use mini_bpm_engine.Executor.Helpers.{resolve_next_target, find_boundary_error_event}
use mini_bpm_engine.Executor.Scripts.{run_end_scripts}
use mini_bpm_engine.Executor.Handlers.Compensation.{register_compensation_handler}
use mini_bpm_engine.WaitStates.{
  cancel_boundary_timers, cancel_boundary_message_catches, restore_service_task,
  is_instance_suspended, run_again, take_token,
}

-- `worker_id.as_deref() == Some(worker_id)`.
abbrev pub is_holder : String → Option String → Bool
is_holder worker_id none = false
is_holder worker_id (some locked_by) = locked_by == worker_id

abbrev pub refusal_of : ℕ → Option String → EngineError
refusal_of task_id none = service_task_not_locked task_id
refusal_of task_id (some locked_by) = service_task_locked task_id locked_by

abbrev pub owned_by : String → PendingServiceTask → Bool
owned_by worker_id task = is_holder worker_id task.worker_id

abbrev pub not_owned : ℕ → PendingServiceTask → EngineError
not_owned task_id task = refusal_of task_id task.worker_id

-- `remove_if`, with the error for a task that stays.
unfoldable pub take_if :
    (task_id : ℕ) (passes : Bool) (refusal : EngineError)
    → PendingServiceTask
    → Run PendingServiceTask
take_if task_id false refusal task = raise refusal
take_if task_id true refusal task =
    modify (λ e. record e { pending_service_tasks = remove e.pending_service_tasks task_id })
    >> pure task

unfoldable pub take_found :
    (task_id : ℕ) (test : PendingServiceTask → Bool) (refusal : PendingServiceTask → EngineError)
    → Option PendingServiceTask
    → Run PendingServiceTask
take_found task_id test refusal none = raise (service_task_not_found task_id)
take_found task_id test refusal (some task) = take_if task_id (test task) (refusal task) task

unfoldable pub take_task :
    (task_id : ℕ) (test : PendingServiceTask → Bool) (refusal : PendingServiceTask → EngineError)
    → Run PendingServiceTask
take_task task_id test refusal =
    reads (λ e. get e.pending_service_tasks task_id) >>= take_found task_id test refusal

abbrev pub completed_by : String → String → Variables → ProcessInstance → ProcessInstance
completed_by node_id worker_id variables inst =
    record (run_again (
      push_audit_log inst (
        format
          ("✅ Service task '" ∷ node_id ∷ "' completed by worker '" ∷ worker_id ∷ "'" ∷ [])))) {
            variables = variables;
          }

abbrev pub resolved_at : String → ProcessInstance → ProcessInstance
resolved_at node_id inst =
    record (run_again (
      push_audit_log inst
        (format ("✅ Incident on service task '" ∷ node_id ∷ "' resolved manually" ∷ [])))) {
          current_node = node_id;
        }

module _ (env : Env) (batch : ℕ → Token → Run (Unit {0})) (task_id : ℕ) where
  -- The task's token, with the given variables merged into its own.
  unfoldable pub token_with : Variables → PendingServiceTask → Run Token
  token_with variables task = do
    stored ← take_token env task.instance_id task.token_id
    modify (cancel_boundary_timers task.instance_id task.node_id)
    modify (cancel_boundary_message_catches task.instance_id task.node_id)
    pure (record stored { variables = extend stored.variables variables })

  unfoldable pub go_on : PendingServiceTask → String → Token → Run (Unit {0})
  go_on task next token = do
    write_instance task.instance_id (λ inst. record inst { current_node = next })
    effect (remove_persisted_service_task task_id)
    effect (record_history_event task.instance_id task_completed)
    batch task.instance_id (record token { current_node = next })

  unfoldable pub complete_task :
      (worker_id : String) → Variables → PendingServiceTask → Run (Unit {0})
  complete_task worker_id variables task = do
    token ← token_with variables task
    write_instance task.instance_id (completed_by task.node_id worker_id token.variables)
    inst ← instance_at task.instance_id
    def ← definition_at inst.definition_key
    after ← run_end_scripts env task.instance_id token def task.node_id
    next ← lift (resolve_next_target env.json def task.node_id after.variables)
    go_on task next after

  unfoldable pub complete_service_task : (worker_id : String) → Variables → Run (Unit {0})
  complete_service_task worker_id variables = do
    task ← take_task task_id (owned_by worker_id) (not_owned task_id)
    suspended ← reads (λ e. is_instance_suspended e task.instance_id)
    elim suspended [
      | true ↦ modify (restore_service_task task) >> raise (instance_suspended task.instance_id)
      | false ↦ complete_task worker_id variables task
    ]

  unfoldable pub resolve_incident : Variables → Run (Unit {0})
  resolve_incident variables = do
    task ←
        take_task task_id (λ t. is_nonpositive t.retries)
          (λ t. invalid_definition "Task is not an incident (retries > 0)")
    token ← token_with variables task
    write_instance task.instance_id (resolved_at task.node_id)
    inst ← instance_at task.instance_id
    def ← definition_at inst.definition_key
    after ← run_end_scripts env task.instance_id token def task.node_id
    register_compensation_handler task.instance_id task.node_id def
    next ← lift (resolve_next_target env.json def task.node_id after.variables)
    write_instance task.instance_id (λ i. record i { current_node = next })
    effect (record_history_event task.instance_id task_completed)
    effect (remove_persisted_service_task task_id)
    batch task.instance_id (record after { current_node = next })

  unfoldable pub at_error_boundary :
      (error_code : String) → PendingServiceTask → ProcessInstance → String → Run (Unit {0})
  at_error_boundary error_code task inst boundary_id = do
    write_instance task.instance_id (λ i.
        record (push_audit_log i (
          format (
            "💥 BPMN Error '" ∷ error_code ∷ "' caught by boundary event '" ∷ boundary_id ∷ "'"
            ∷ []))) { state = running })
    effect (record_history_event task.instance_id token_advanced)
    token ← take_token env task.instance_id task.token_id
    def ← definition_at inst.definition_key
    next ← lift (resolve_next_target env.json def boundary_id token.variables)
    write_instance task.instance_id (λ i. record i { current_node = next })
    effect (remove_persisted_service_task task_id)
    effect (persist_instance task.instance_id)
    batch task.instance_id (record token { current_node = next })

  unfoldable pub uncaught : (worker_id error_code : String) → PendingServiceTask → Run (Unit {0})
  uncaught worker_id error_code task = do
    touch_instance task.instance_id (λ i. push_audit_log i (
        format (
          "🚨 BPMN error '" ∷ error_code ∷ "' thrown by worker '" ∷ worker_id ∷ "' at service task '"
          ∷ task.node_id ∷ "' (No boundary event caught it)" ∷ [])))
    effect (remove_persisted_service_task task_id)
    effect (persist_instance task.instance_id)

  abbrev pub boundary_for : Option ProcessDefinition → String → String → Option String
  boundary_for none node_id error_code = none
  boundary_for (some def) node_id error_code = find_boundary_error_event def node_id error_code

  unfoldable pub handle_bpmn_error : (worker_id error_code : String) → Run (Unit {0})
  handle_bpmn_error worker_id error_code = do
    task ← take_task task_id (owned_by worker_id) (not_owned task_id)
    inst ← instance_at task.instance_id
    modify (cancel_boundary_timers task.instance_id task.node_id)
    modify (cancel_boundary_message_catches task.instance_id task.node_id)
    def ← reads (λ e. get e.definitions inst.definition_key)
    elim (boundary_for def task.node_id error_code) [
      | some boundary_id ↦ at_error_boundary error_code task inst boundary_id
      | none ↦ uncaught worker_id error_code task
    ]
