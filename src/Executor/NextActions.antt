-- ===== src/Executor/NextActions.antt =====
-- `handle_next_action` of engine-core/src/engine/executor/next_action.rs: what an action does to the
-- engine and to the queue of tokens. `nested` is `run_instance_batch`, for call activities.
pub mod Termination
use mini_bpm_engine.Prelude.{
  ℕ, suc, ◌+◌, String, Bool, true, false, not, Option, none, some, List, [], ◌∷◌, ◌++◌, Map, length,
  map, filter, find_map, insert, remove, ◌==◌, if◌then◌else◌, nat_eq, string_eq,
}
use mini_bpm_engine.Prelude.Text.{format}
use mini_bpm_engine.Domain.Error.{Result, ok, err}
use mini_bpm_engine.Domain.Token.{Token}
use mini_bpm_engine.Domain.Definition.{ProcessDefinition, id}
use mini_bpm_engine.Runtime.Action.{
  NextAction, NextActions, nil, cons, continue, continue_multiple, wait_for_user,
  wait_for_service_task, wait_for_join, wait_for_timer, wait_for_message, wait_for_event_group,
  complete, error_end, escalation_end, spawn_and_continue, terminate, wait_for_call_activity,
  multi_instance_fork, multi_instance_next,
}
use mini_bpm_engine.Runtime.AuditLog.{push_audit_log}
use mini_bpm_engine.Runtime.Pending.{PendingTimer, PendingMessageCatch}
use mini_bpm_engine.Runtime.Instance.{
  InstanceState, running, waiting_on_user_task, waiting_on_service_task, waiting_on_timer,
  waiting_on_message, waiting_on_event_based_gateway, parallel_execution, waiting_on_call_activity,
  completed, completed_with_error, is_parallel, ActiveToken, ProcessInstance,
}
use mini_bpm_engine.Engine.{
  Engine, Effect, perform, persist_instance, persist_user_task, persist_service_task, persist_timer,
  persist_message_catch, record_history_event, instance_completed, emit_event, task_changed,
}
use mini_bpm_engine.Run.{
  Env, Run, pure, ◌>>=◌, ◌>>◌, reads, modify, attempt, update, step_engine, try_run, ask, effect,
  write_instance, touch_instance,
}
use mini_bpm_engine.ProcessStart.{spawn_call_activity}
use mini_bpm_engine.Executor.Joins.{
  mark_completed, complete_branch_token, all_tokens_completed, register_active_token, empty_barrier,
  register_join_barrier_if_needed, arrive_at_join,
}

-- `if !matches!(inst.state, ParallelExecution { .. }) { inst.state = … }`.
abbrev pub wait_in : InstanceState → ProcessInstance → ProcessInstance
wait_in state inst = if is_parallel inst.state then inst else record inst { state = state }

abbrev pub split_into : ℕ → (token_id : ℕ) → ProcessInstance → ProcessInstance
split_into branch_count token_id inst = record inst {
  active_tokens = mark_completed inst.active_tokens token_id;
  state = parallel_execution (length (mark_completed inst.active_tokens token_id) + branch_count);
}

-- `retain(|_, t| t.instance_id != instance_id)`.
unfoldable pub retain_others {ℓ} : {A : Type ℓ} → (A → ℕ) → (instance_id : ℕ) → Map ℕ A → Map ℕ A
retain_others owner instance_id pending =
    filter (λ entry. not (owner entry.1 == instance_id)) pending

abbrev pub without_pending : (instance_id : ℕ) → Engine → Engine
without_pending instance_id e = record e {
  pending_user_tasks = retain_others (λ t. t.instance_id) instance_id e.pending_user_tasks;
  pending_service_tasks = retain_others (λ t. t.instance_id) instance_id e.pending_service_tasks;
  pending_timers = retain_others (λ t. t.instance_id) instance_id e.pending_timers;
  pending_message_catches =
      retain_others (λ t. t.instance_id) instance_id e.pending_message_catches;
}

unfoldable pub complete_all : List ActiveToken → List ActiveToken
complete_all [] = []
complete_all (at ∷ rest) = record at { completed = true } ∷ complete_all rest

-- The branches of a split, from the index `idx` on.
unfoldable pub register_branches :
    (instance_id : ℕ) (fork_id : String) (idx : ℕ) → List Token → Run (Unit {0})
register_branches instance_id fork_id idx [] = pure tt
register_branches instance_id fork_id idx (t ∷ tokens) =
    update (λ e. register_active_token e instance_id fork_id idx t)
    >> register_branches instance_id fork_id (suc idx) tokens

unfoldable pub insert_timer : PendingTimer → Run (Unit {0})
insert_timer pending = do
  modify (λ e. record e { pending_timers = insert e.pending_timers pending.id pending })
  effect (persist_timer pending.id)

unfoldable pub insert_message_catch : PendingMessageCatch → Run (Unit {0})
insert_message_catch pending = do
  modify (λ e. record e {
    pending_message_catches = insert e.pending_message_catches pending.id pending;
  })
  effect (persist_message_catch pending.id)

unfoldable pub insert_group : NextActions → Run (Unit {0})
insert_group nil = pure tt
insert_group (cons (wait_for_timer pending) rest) = insert_timer pending >> insert_group rest
insert_group (cons (wait_for_message pending) rest) =
    insert_message_catch pending >> insert_group rest
insert_group (cons _ rest) = insert_group rest

abbrev pub key_if : (called_element : String) → ℕ × ProcessDefinition → Option ℕ
key_if called_element (k, def) = if id def == called_element then some k else none

abbrev pub with_sub_instance : ℕ → InstanceState → InstanceState
with_sub_instance spawned_id (waiting_on_call_activity sub token) =
    waiting_on_call_activity spawned_id token
with_sub_instance spawned_id state = state

module _ (env : Env) (nested : ℕ → Token → Run (Unit {0})) (instance_id : ℕ) where
  -- A path has ended. `finish` is the write when no token is left.
  unfoldable pub end_branch :
      (token_id : ℕ) (finish : ℕ → ProcessInstance → ProcessInstance) → Run (Unit {0})
  end_branch token_id finish = do
    update (λ e. complete_branch_token e instance_id token_id)
    touch_instance instance_id (λ inst. record inst { tokens = remove inst.tokens token_id })
    finished ← attempt (λ e. all_tokens_completed e instance_id)
    if finished
        then (ask env.now >>= λ now.
            touch_instance instance_id (finish now)
            >> effect (record_history_event instance_id instance_completed)
            >> effect (persist_instance instance_id))
        else effect (persist_instance instance_id)

  -- The end of a path writes to the log with and without its bound.
  abbrev pub finished_with : InstanceState → String → ℕ → ProcessInstance → ProcessInstance
  finished_with state entry now inst = record inst {
    state = state;
    completed_at = some now;
    audit_log = inst.audit_log ++ entry ∷ [];
  }

  abbrev pub escalated : String → ℕ → ProcessInstance → ProcessInstance
  escalated escalation_code now inst =
      push_audit_log (record inst { state = completed; completed_at = some now })
        (format ("⚡ All tokens completed with escalation '" ∷ escalation_code ∷ "'" ∷ []))

  unfoldable pub call_child : (called_element : String) → Token → (child_key : ℕ) → Run (Unit {0})
  call_child called_element call_token child_key = do
    sub_instance_id ← ask env.uuid
    touch_instance instance_id (wait_in (waiting_on_call_activity sub_instance_id call_token))
    r ← try_run (spawn_call_activity env nested child_key instance_id call_token.variables)
    elim r [
      | ok spawned_id ↦
          touch_instance instance_id
            (λ inst. record inst { state = with_sub_instance spawned_id inst.state })
      | err e ↦ pure tt
    ]

  unfoldable pub fork_barrier : String → ℕ → (token_id : ℕ) → ProcessInstance → ProcessInstance
  fork_barrier join_id branch_count token_id inst = split_into branch_count token_id (record inst {
    join_barriers = insert inst.join_barriers join_id (empty_barrier join_id branch_count);
  })

  -- The queue after the action.
  unfoldable pub handle_next_action :
      NextAction
      → (token_id : ℕ) (current_gateway_id : String) (queue : List Token) → Run (List Token)
  handle_next_action (continue next_token) token_id current_gateway_id queue =
      pure (queue ++ next_token ∷ [])
  handle_next_action (continue_multiple forked_tokens) token_id current_gateway_id queue = do
    update (λ e.
        register_join_barrier_if_needed e instance_id current_gateway_id (length forked_tokens))
    touch_instance instance_id (λ inst. record (split_into (length forked_tokens) token_id inst) {
      current_node = current_gateway_id;
    })
    register_branches instance_id current_gateway_id 0 forked_tokens
    pure (queue ++ forked_tokens)
  handle_next_action (wait_for_join gateway_id arrived_token) token_id current_gateway_id queue = do
    uuid ← ask env.uuid
    merged ←
        step_engine
          (λ e. arrive_at_join env.json uuid env.uuid_text e instance_id gateway_id arrived_token)
    elim merged [
      | none ↦ pure queue
      | some merged_token ↦
          touch_instance instance_id
            (λ inst. record inst { state = running; current_node = gateway_id })
          >> pure (queue ++ merged_token ∷ [])
    ]
  handle_next_action (wait_for_user pending) token_id current_gateway_id queue = do
    touch_instance instance_id (wait_in (waiting_on_user_task pending.task_id))
    modify
        (λ e. record e { pending_user_tasks = insert e.pending_user_tasks pending.task_id pending })
    effect (persist_user_task pending.task_id)
    effect (persist_instance instance_id)
    effect (emit_event task_changed)
    pure queue
  handle_next_action (wait_for_service_task svc_task) token_id current_gateway_id queue = do
    touch_instance instance_id (wait_in (waiting_on_service_task svc_task.id))
    modify (λ e. record e {
      pending_service_tasks = insert e.pending_service_tasks svc_task.id svc_task;
    })
    effect (persist_service_task svc_task.id)
    effect (persist_instance instance_id)
    effect (emit_event task_changed)
    pure queue
  handle_next_action (wait_for_timer pending) token_id current_gateway_id queue = do
    touch_instance instance_id (wait_in (waiting_on_timer pending.id))
    insert_timer pending
    effect (persist_instance instance_id)
    pure queue
  handle_next_action (wait_for_message pending) token_id current_gateway_id queue = do
    touch_instance instance_id (wait_in (waiting_on_message pending.id))
    insert_message_catch pending
    effect (persist_instance instance_id)
    pure queue
  handle_next_action (wait_for_event_group actions) token_id current_gateway_id queue = do
    touch_instance instance_id (wait_in waiting_on_event_based_gateway)
    insert_group actions
    effect (persist_instance instance_id)
    pure queue
  handle_next_action (wait_for_call_activity called_element call_token) token_id current_gateway_id
        queue =
      do
        child_def_key ← reads (λ e. find_map (key_if called_element) e.definitions)
        elim child_def_key [
          | none ↦ pure tt
          | some child_key ↦ call_child called_element call_token child_key
        ]
        effect (persist_instance instance_id)
        pure queue
  handle_next_action complete token_id current_gateway_id queue = do
    end_branch token_id (finished_with completed "⏹ All tokens completed. Process fully completed.")
    pure queue
  handle_next_action (error_end error_code) token_id current_gateway_id queue = do
    end_branch token_id (
        finished_with (completed_with_error error_code)
          (format ("💥 All tokens completed at Error End with code '" ∷ error_code ∷ "'" ∷ [])))
    pure queue
  handle_next_action (escalation_end escalation_code) token_id current_gateway_id queue = do
    end_branch token_id (escalated escalation_code)
    pure queue
  handle_next_action (spawn_and_continue main spawned) token_id current_gateway_id queue =
      pure (queue ++ main ∷ spawned)
  handle_next_action terminate token_id current_gateway_id queue = do
    modify (without_pending instance_id)
    now ← ask env.now
    touch_instance instance_id (λ inst. record inst {
      active_tokens = complete_all inst.active_tokens;
      state = completed;
      completed_at = some now;
      audit_log = inst.audit_log ++ "⛔ Process terminated. All tokens killed." ∷ [];
    })
    effect (record_history_event instance_id instance_completed)
    effect (persist_instance instance_id)
    pure []
  handle_next_action (multi_instance_fork node_id tokens) token_id current_gateway_id queue = do
    write_instance instance_id
        (fork_barrier (format ("MI_JOIN_" ∷ node_id ∷ [])) (length tokens) token_id)
    register_branches instance_id node_id 0 tokens
    pure (queue ++ tokens)
  handle_next_action (multi_instance_next node_id token) token_id current_gateway_id queue =
      pure (queue ++ token ∷ [])
