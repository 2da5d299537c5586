-- ===== src/Operations.antt =====
-- The calls that the engine of engine-core/src/engine answers, in any order. A call that fails leaves the
-- engine as it has written it so far, and the next call finds it so. `depth` bounds the nesting of batches.
pub mod Ownership
pub mod Exclusion
use mini_bpm_engine.Prelude.{ℕ, String, Bool, Option, none, List, [], ◌∷◌, Map}
use mini_bpm_engine.Prelude.Int.{ℤ}
use mini_bpm_engine.Domain.Error.{Result}
use mini_bpm_engine.Domain.Json.{Variables}
use mini_bpm_engine.Domain.Definition.{ProcessDefinition}
use mini_bpm_engine.Domain.Token.{Token}
use mini_bpm_engine.Runtime.Pending.{
  PendingUserTask, PendingServiceTask, PendingTimer, PendingMessageCatch,
}
use mini_bpm_engine.Run.{Env, World, Run, pure, ◌>>=◌, ◌>>◌, modify, update, ask}
use mini_bpm_engine.Executor.Batch.{run_instance_batch}
use mini_bpm_engine.ProcessStart.{start_instance_with_variables_and_parent}
use mini_bpm_engine.UserTask.{complete_user_task}
use mini_bpm_engine.ServiceTask.{
  fetch_and_lock_service_tasks, fail_service_task, retry_incident, extend_lock,
}
use mini_bpm_engine.ServiceTask.Completion.{
  complete_service_task, resolve_incident, handle_bpmn_error,
}
use mini_bpm_engine.TimerProcessor.{process_timers}
use mini_bpm_engine.MessageProcessor.{correlate_message}
use mini_bpm_engine.InstanceOps.{suspend_instance, resume_instance}
use mini_bpm_engine.InstanceOps.Migration.{migrate_instance}
use mini_bpm_engine.InstanceOps.Deletion.{delete_instance}
use mini_bpm_engine.DefinitionOps.{deploy_definition, delete_definition}
use mini_bpm_engine.WaitStates.{
  restore_user_task, restore_service_task, restore_timer, restore_message_catch,
}

pub data Operation : Type 0 where
  start_instance : (definition_key : ℕ) (variables : Variables) → Operation
  user_task_done : (task_id : ℕ) (additional_vars : Variables) → Operation
  fetch :
      (worker_id : String) (max_tasks : ℕ) (topics : List String) (lock_duration : ℤ) → Operation
  service_task_done : (task_id : ℕ) (worker_id : String) (variables : Variables) → Operation
  service_task_failed :
      (task_id : ℕ) (worker_id : String) (retries : Option ℤ)
      (error_message error_details : Option String)
      → Operation
  incident_retried : (task_id : ℕ) (new_retries : Option ℤ) → Operation
  incident_resolved : (task_id : ℕ) (variables : Variables) → Operation
  lock_extended : (task_id : ℕ) (worker_id : String) (additional_duration : ℤ) → Operation
  bpmn_error : (task_id : ℕ) (worker_id error_code : String) → Operation
  timers : Operation
  message : (name : String) (business_key : Option String) (variables : Variables) → Operation
  suspend resume : (instance_id : ℕ) → Operation
  migrate : (instance_id target_definition_key : ℕ) (node_mapping : Map String String) → Operation
  user_task_restored : PendingUserTask → Operation
  service_task_restored : PendingServiceTask → Operation
  timer_restored : PendingTimer → Operation
  message_catch_restored : PendingMessageCatch → Operation
  definition_deployed : ProcessDefinition → Operation
  definition_deleted :
      (deleted : Result (Unit {0})) (definition_key : ℕ) (cascade : Bool) → Operation
  instance_deleted : (deleted : Result (Unit {0})) (instance_id : ℕ) → Operation

module _ (env : Env) (depth : ℕ) where
  abbrev batch : ℕ → Token → Run (Unit {0})
  batch = run_instance_batch env depth

  -- One call; what it returns is dropped.
  unfoldable pub operate : Operation → Run (Unit {0})
  operate (start_instance definition_key variables) =
      start_instance_with_variables_and_parent env batch definition_key variables none >>= λ id.
      pure tt
  operate (user_task_done task_id additional_vars) =
      complete_user_task env batch task_id additional_vars
  operate (fetch worker_id max_tasks topics lock_duration) = ask env.now >>= λ now.
      modify (λ e. (fetch_and_lock_service_tasks now worker_id max_tasks topics lock_duration e).0)
  operate (service_task_done task_id worker_id variables) =
      complete_service_task env batch task_id worker_id variables
  operate (service_task_failed task_id worker_id retries error_message error_details) =
      update (λ e. fail_service_task e task_id worker_id retries error_message error_details)
  operate (incident_retried task_id new_retries) =
      update (λ e. retry_incident e task_id new_retries)
  operate (incident_resolved task_id variables) = resolve_incident env batch task_id variables
  operate (lock_extended task_id worker_id additional_duration) =
      ask env.now >>= λ now. update (λ e. extend_lock now e task_id worker_id additional_duration)
  operate (bpmn_error task_id worker_id error_code) =
      handle_bpmn_error env batch task_id worker_id error_code
  operate timers = process_timers env batch >>= λ count. pure tt
  operate (message name business_key variables) =
      correlate_message env batch name business_key variables >>= λ affected. pure tt
  operate (suspend instance_id) = update (λ e. suspend_instance e instance_id)
  operate (resume instance_id) = update (λ e. resume_instance e instance_id)
  operate (migrate instance_id target_definition_key node_mapping) =
      update (migrate_instance instance_id target_definition_key node_mapping)
  operate (user_task_restored task) = modify (restore_user_task task)
  operate (service_task_restored task) = modify (restore_service_task task)
  operate (timer_restored timer) = modify (restore_timer timer)
  operate (message_catch_restored catch) = modify (restore_message_catch catch)
  operate (definition_deployed def) = modify (λ e. (deploy_definition def e).1)
  operate (definition_deleted deleted definition_key cascade) =
      delete_definition deleted definition_key cascade
  operate (instance_deleted deleted instance_id) = delete_instance deleted instance_id

  -- The world after any sequence of calls.
  unfoldable pub replay : List Operation → World → World
  replay [] w = w
  replay (op ∷ ops) w = replay ops (operate op w).1
