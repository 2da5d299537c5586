-- ===== src/Engine.antt =====
-- `WorkflowEngine` of engine-core/src/engine/mod.rs: the state that the engine's operations share.
-- Operations run one after the other; a call into persistence_ops.rs or of `emit_event` is recorded, in
-- order, in `effects`.
use mini_bpm_engine.Prelude.{ℕ, none, some, List, ◌++◌, Map, get, insert, nat_eq}
use mini_bpm_engine.Domain.Error.{Result, no_such_instance, no_such_definition, ok_or}
use mini_bpm_engine.Domain.Definition.{ProcessDefinition}
use mini_bpm_engine.Runtime.Pending.{
  PendingUserTask, PendingServiceTask, PendingTimer, PendingMessageCatch,
}
use mini_bpm_engine.Runtime.Instance.{ProcessInstance}

-- engine-core/src/history/mod.rs.
pub data HistoryEventType : Type 0 where
  instance_started instance_completed instance_deleted task_completed variable_updated gateway_taken
        listener_executed token_advanced token_forked token_joined branch_completed error
        call_activity_started call_activity_completed instance_suspended instance_resumed
        token_moved escalation_thrown compensation_triggered instance_migrated :
      HistoryEventType

-- engine-core/src/engine/events.rs.
pub data EngineEvent : Type 0 where
  instance_changed task_changed definition_changed : EngineEvent

-- A call of a function of persistence_ops.rs, of `emit_event`, or of `record_history_event` with its type of event.
pub data Effect : Type 0 where
  persist_instance : (instance_id : ℕ) → Effect
  persist_definition : (key : ℕ) → Effect
  persist_user_task : (task_id : ℕ) → Effect
  persist_service_task : (task_id : ℕ) → Effect
  persist_timer : (timer_id : ℕ) → Effect
  persist_message_catch : (catch_id : ℕ) → Effect
  remove_persisted_user_task : (task_id : ℕ) → Effect
  remove_persisted_service_task : (task_id : ℕ) → Effect
  remove_persisted_timer : (timer_id : ℕ) → Effect
  remove_persisted_message_catch : (catch_id : ℕ) → Effect
  archive_completed_instance : (instance_id : ℕ) → Effect
  record_history_event : (instance_id : ℕ) → HistoryEventType → Effect
  emit_event : EngineEvent → Effect

-- The backend, the retry queue, the counter of its errors, the script limits and the event channel are
-- left out: the modelled operations reach them only through the recorded calls.
pub record Engine : Type 0 where
  pub definitions : Map ℕ ProcessDefinition
  pub instances : Map ℕ ProcessInstance
  pub pending_user_tasks : Map ℕ PendingUserTask
  pub pending_service_tasks : Map ℕ PendingServiceTask
  pub pending_timers : Map ℕ PendingTimer
  pub pending_message_catches : Map ℕ PendingMessageCatch
  pub effects : List Effect

abbrev pub perform : Engine → List Effect → Engine
perform e effects = record e { effects = e.effects ++ effects }

-- `self.instances.get(&id).await.ok_or(NoSuchInstance)?`.
abbrev pub instance_of : Engine → ℕ → Result ProcessInstance
instance_of e instance_id = ok_or (get e.instances instance_id) (no_such_instance instance_id)

abbrev pub definition_of : Engine → ℕ → Result ProcessDefinition
definition_of e def_key = ok_or (get e.definitions def_key) (no_such_definition def_key)

-- A write through the lock of the instance that the store holds.
abbrev pub set_instance : Engine → ℕ → ProcessInstance → Engine
set_instance e instance_id inst = record e { instances = insert e.instances instance_id inst }

-- `if let Some(inst_arc) = self.instances.get(&id).await { … }`.
abbrev pub if_instance : Engine → ℕ → (ProcessInstance → ProcessInstance) → Engine
if_instance e instance_id f = elim (get e.instances instance_id) [
  | none ↦ e
  | some inst ↦ set_instance e instance_id (f inst)
]
