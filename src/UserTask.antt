-- ===== src/UserTask.antt =====
-- engine-core/src/engine/user_task.rs: completing a user task. `batch` is `run_instance_batch`.
pub mod Refusals
use mini_bpm_engine.Prelude.{
  ℕ, String, Bool, true, false, Option, none, some, List, [], ◌∷◌, ◌++◌, get, insert, remove,
  extend, if◌then◌else◌, nat_eq, string_eq,
}
use mini_bpm_engine.Prelude.Text.{format}
use mini_bpm_engine.Domain.Error.{EngineError, task_not_pending, instance_suspended}
use mini_bpm_engine.Domain.Json.{Variables}
use mini_bpm_engine.Domain.Token.{Token}
use mini_bpm_engine.Domain.Definition.{ProcessDefinition}
use mini_bpm_engine.Runtime.Instance.{InstanceState, waiting_on_user_task, ProcessInstance}
use mini_bpm_engine.Runtime.Pending.{PendingUserTask}
use mini_bpm_engine.Engine.{
  Engine, record_history_event, remove_persisted_user_task, task_completed,
}
use mini_bpm_engine.Run.{
  Env, Run, pure, raise, ◌>>=◌, ◌>>◌, reads, modify, lift, effect, instance_at, write_instance,
  touch_instance, definition_at,
}
use mini_bpm_engine.Executor.Helpers.{resolve_next_target}
use mini_bpm_engine.Executor.Scripts.{Scripted, try_end_scripts}
use mini_bpm_engine.Executor.Handlers.Compensation.{register_compensation_handler}
use mini_bpm_engine.WaitStates.{
  cancel_boundary_timers, cancel_boundary_message_catches, is_instance_suspended, run_again,
  take_token,
}

abbrev pub without_user_task : ℕ → Engine → Engine
without_user_task task_id e = record e { pending_user_tasks = remove e.pending_user_tasks task_id }

abbrev pub with_user_task : ℕ → PendingUserTask → Engine → Engine
with_user_task task_id pending e = record e {
  pending_user_tasks = insert e.pending_user_tasks task_id pending;
}

abbrev pub completed_at_node : String → ProcessInstance → ProcessInstance
completed_at_node node_id inst =
    record (run_again (record inst {
      audit_log = inst.audit_log ++ format ("✅ User task '" ∷ node_id ∷ "' completed" ∷ []) ∷ [];
    })) { current_node = node_id }

module _ (env : Env) (batch : ℕ → Token → Run (Unit {0})) (task_id : ℕ) where
  -- The roll-back after a failed end script.
  unfoldable pub reinsert : PendingUserTask → Token → EngineError → Run (Unit {0})
  reinsert pending token e = do
    touch_instance pending.instance_id (λ inst. record inst {
      state = waiting_on_user_task task_id;
      tokens = insert inst.tokens token.id token;
    })
    modify (with_user_task task_id pending)
    raise e

  unfoldable pub advance : PendingUserTask → ProcessDefinition → Token → Run (Unit {0})
  advance pending def token = do
    register_compensation_handler pending.instance_id pending.node_id def
    next ← lift (resolve_next_target env.json def pending.node_id token.variables)
    write_instance pending.instance_id (λ inst. record inst { current_node = next })
    effect (record_history_event pending.instance_id task_completed)
    batch pending.instance_id (record token { current_node = next })

  unfoldable pub complete_pending : (additional_vars : Variables) → PendingUserTask → Run (Unit {0})
  complete_pending additional_vars pending = do
    stored ← take_token env pending.instance_id pending.token_id
    let token = record stored { variables = extend stored.variables additional_vars }
    effect (remove_persisted_user_task task_id)
    modify (cancel_boundary_timers pending.instance_id pending.node_id)
    modify (cancel_boundary_message_catches pending.instance_id pending.node_id)
    write_instance pending.instance_id (completed_at_node pending.node_id)
    inst ← instance_at pending.instance_id
    def ← definition_at inst.definition_key
    s ← try_end_scripts env pending.instance_id token def pending.node_id
    elim s.failure [ some e ↦ reinsert pending s.token e | none ↦ advance pending def s.token ]

  module _ (additional_vars : Variables) where
    -- Of a suspended instance the task stays pending.
    unfoldable pub complete_unless : PendingUserTask → (suspended : Bool) → Run (Unit {0})
    complete_unless pending true =
        modify (with_user_task task_id pending) >> raise (instance_suspended pending.instance_id)
    complete_unless pending false = complete_pending additional_vars pending

    unfoldable pub complete_found : Option PendingUserTask → Run (Unit {0})
    complete_found none = raise (task_not_pending task_id "not found in pending tasks")
    complete_found (some pending) = do
      modify (without_user_task task_id)
      suspended ← reads (λ e. is_instance_suspended e pending.instance_id)
      complete_unless pending suspended

    unfoldable pub complete_user_task : Run (Unit {0})
    complete_user_task = reads (λ e. get e.pending_user_tasks task_id) >>= complete_found
