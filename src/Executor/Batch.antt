-- ===== src/Executor/Batch.antt =====
-- `run_instance_batch` of engine-core/src/engine/executor/mod.rs: the loop that runs an instance until
-- each of its tokens waits or has ended. Yielding to the scheduler and metrics are left out.
use mini_bpm_engine.Prelude.{ℕ, zero, suc, String, Option, none, some, List, [], ◌∷◌, get, nat_eq}
use mini_bpm_engine.Prelude.Text.{format, decimal}
use mini_bpm_engine.Domain.Error.{execution_limit_exceeded}
use mini_bpm_engine.Domain.Token.{Token}
use mini_bpm_engine.Runtime.Action.{
  NextAction, continue, continue_multiple, wait_for_user, wait_for_service_task, wait_for_join,
  wait_for_timer, wait_for_message, wait_for_event_group, complete, error_end, escalation_end,
  spawn_and_continue, terminate, wait_for_call_activity, multi_instance_fork, multi_instance_next,
}
use mini_bpm_engine.Runtime.AuditLog.{push_audit_log}
use mini_bpm_engine.Runtime.Instance.{completed, completed_with_error, ProcessInstance}
use mini_bpm_engine.Engine.{
  HistoryEventType, token_advanced, token_forked, branch_completed, call_activity_started,
  escalation_thrown, persist_instance, archive_completed_instance, record_history_event, emit_event,
  instance_changed,
}
use mini_bpm_engine.Run.{
  Env, Run, pure, raise, ◌>>=◌, ◌>>◌, reads, ask, effect, touch_instance, overflow,
}
use mini_bpm_engine.ProcessStart.Resuming.{resume_parent_if_needed}
use mini_bpm_engine.Executor.Step.{execute_step}
use mini_bpm_engine.Executor.NextActions.{handle_next_action}

abbrev pub max_execution_steps : ℕ
max_execution_steps = 10000

abbrev pub event_type : NextAction → HistoryEventType
event_type (continue t) = token_advanced
event_type (continue_multiple ts) = token_forked
event_type (wait_for_join g t) = token_advanced
event_type (wait_for_user p) = token_advanced
event_type (wait_for_service_task s) = token_advanced
event_type (wait_for_timer p) = token_advanced
event_type (wait_for_message p) = token_advanced
event_type (wait_for_call_activity c t) = call_activity_started
event_type complete = branch_completed
event_type (error_end c) = branch_completed
event_type (escalation_end c) = escalation_thrown
event_type (spawn_and_continue m s) = token_forked
event_type terminate = branch_completed
event_type (wait_for_event_group a) = token_advanced
event_type (multi_instance_fork n ts) = token_forked
event_type (multi_instance_next n t) = token_advanced

-- Whether the batch left the instance completed, and with which error.
pub data BatchEnd : Type 0 where
  unfinished : BatchEnd
  finished : (error_code_to_propagate : Option String) → BatchEnd

abbrev pub ending_of : Option ProcessInstance → BatchEnd
ending_of none = unfinished
ending_of (some inst) = elim inst.state [
  | completed ↦ finished none
  | completed_with_error error_code ↦ finished (some error_code)
  | _ ↦ unfinished
]

module _ (env : Env) (instance_id : ℕ) where
  unfoldable pub abort : Run (Unit {0})
  abort = do
    now ← ask env.now
    touch_instance instance_id (λ inst.
        push_audit_log
          (record inst {
            state = completed_with_error "EXECUTION_LIMIT_EXCEEDED";
            completed_at = some now;
          })
          (format ("ABORTED: Exceeded " ∷ decimal max_execution_steps ∷ " execution steps" ∷ [])))
    effect (persist_instance instance_id)
    raise (
        execution_limit_exceeded (
          format (
            "Instance "
            ∷ env.uuid_text instance_id
            ∷ " exceeded execution step limit ("
            ∷ decimal max_execution_steps
            ∷ ")"
            ∷ [])))

  module _ (nested : ℕ → Token → Run (Unit {0})) where
    -- `steps` remain before the limit.
    unfoldable pub run_queue : (steps : ℕ) (queue : List Token) → Run (Unit {0})
    run_queue steps [] = pure tt
    run_queue zero (token ∷ queue) = abort
    run_queue (suc steps) (token ∷ queue) = execute_step env nested instance_id token >>= λ action.
        effect (record_history_event instance_id (event_type action))
        >> (handle_next_action env nested instance_id action token.id token.current_node queue
            >>= λ queue'. run_queue steps queue')

    unfoldable pub finish_batch : BatchEnd → Run (Unit {0})
    finish_batch unfinished = pure tt
    finish_batch (finished error_code) =
        resume_parent_if_needed env nested instance_id error_code
        >> effect (archive_completed_instance instance_id)

    unfoldable pub after_batch : Run (Unit {0})
    after_batch = do
      effect (persist_instance instance_id)
      ending ← reads (λ e. ending_of (get e.instances instance_id))
      finish_batch ending
      effect (emit_event instance_changed)

-- Batches nest for compensation handlers, called processes and parents, `depth` deep.
unfoldable pub run_instance_batch : Env → (depth instance_id : ℕ) → Token → Run (Unit {0})
run_instance_batch env zero instance_id initial_token = overflow
run_instance_batch env (suc depth) instance_id initial_token =
    run_queue env instance_id (run_instance_batch env depth) max_execution_steps
      (initial_token ∷ [])
    >> after_batch env instance_id (run_instance_batch env depth)
