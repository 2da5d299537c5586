-- ===== src/Filing/Waiting.antt =====
-- What wait states share, and the completion of user and service tasks, keep the invariant.
use mini_bpm_engine.Prelude.{ℕ, String, ◌≡◌, refl, Bool, true, false, nat_eq, arith}
use mini_bpm_engine.Prelude.Keyed.{insert-IsKeyed, remove-IsKeyed, filter-IsKeyed}
use mini_bpm_engine.Domain.Definition.{ProcessDefinition}
use mini_bpm_engine.Domain.Error.{EngineError}
use mini_bpm_engine.Domain.Json.{Variables}
use mini_bpm_engine.Domain.Token.{Token}
use mini_bpm_engine.Runtime.Instance.{ProcessInstance}
use mini_bpm_engine.Runtime.Pending.{
  PendingUserTask, PendingServiceTask, PendingTimer, PendingMessageCatch,
}
use mini_bpm_engine.Run.{Env, Run, modify}
use mini_bpm_engine.Run.Keeping.{
  Keeps, Keeps-pure, Keeps-raise, Keeps-reads, Keeps-option, Keeps-bind, Keeps-modify,
  Keeps-for_each,
}
use mini_bpm_engine.WaitStates.{
  cancel_boundary_timers, cancel_boundary_message_catches, retain_unless,
  clear_wait_states_for_token, restore_user_task, restore_service_task, restore_timer,
  restore_message_catch, run_again, take_token, branch_token, cancel_tasks, resumed_token,
}
use mini_bpm_engine.UserTask.{
  completed_at_node, with_user_task, reinsert, advance, complete_pending, complete_unless,
  complete_found, complete_user_task,
}
use mini_bpm_engine.Filing.{IsFiled, Keeps-effect, Keeps-touch, Keeps-write, Keeps-found, filing}
use mini_bpm_engine.Filing.Handlers.{Keeps-try_end_scripts, Keeps-register}

module _ (instance_id : ℕ) (node_id : String) where
  pub Keeps-cancel_timers : Keeps IsFiled (modify (cancel_boundary_timers instance_id node_id))
  unfolding cancel_boundary_timers retain_unless
  Keeps-cancel_timers =
      Keeps-modify _
        (λ e h. (h.0, h.1, h.2, filter-IsKeyed (λ t. t.id) _ e.pending_timers h.3, h.4))

  pub Keeps-cancel_catches :
      Keeps IsFiled (modify (cancel_boundary_message_catches instance_id node_id))
  unfolding cancel_boundary_message_catches retain_unless
  Keeps-cancel_catches =
      Keeps-modify _
        (λ e h. (h.0, h.1, h.2, h.3, filter-IsKeyed (λ m. m.id) _ e.pending_message_catches h.4))

pub Keeps-clear :
    (instance_id token_id : ℕ) → Keeps IsFiled (clear_wait_states_for_token instance_id token_id)
unfolding clear_wait_states_for_token retain_unless
Keeps-clear instance_id token_id = Keeps-bind _ _ (Keeps-reads _) (λ timers.
    Keeps-bind _ _ (Keeps-reads _) (λ catches. Keeps-bind _ _ (search (filing) depth 30) (λ u.
      Keeps-modify _ (λ e h. (
        h.0,
        h.1,
        h.2,
        filter-IsKeyed (λ t. t.id) _ e.pending_timers h.3,
        filter-IsKeyed (λ m. m.id) _ e.pending_message_catches h.4,
      )))))

pub Keeps-restore_user_task :
    (task : PendingUserTask) → Keeps IsFiled (modify (restore_user_task task))
unfolding restore_user_task
Keeps-restore_user_task task = Keeps-modify _ (λ e h. (
  h.0,
  insert-IsKeyed (λ t. t.task_id) e.pending_user_tasks task.task_id task refl h.1,
  h.2,
  h.3,
  h.4,
))

pub Keeps-restore_service_task :
    (task : PendingServiceTask) → Keeps IsFiled (modify (restore_service_task task))
unfolding restore_service_task
Keeps-restore_service_task task = Keeps-modify _ (λ e h.
    (h.0, h.1, insert-IsKeyed (λ t. t.id) e.pending_service_tasks task.id task refl h.2, h.3, h.4))

pub Keeps-restore_timer : (t : PendingTimer) → Keeps IsFiled (modify (restore_timer t))
unfolding restore_timer
Keeps-restore_timer t =
    Keeps-modify _
      (λ e h. (h.0, h.1, h.2, insert-IsKeyed (λ x. x.id) e.pending_timers t.id t refl h.3, h.4))

pub Keeps-restore_message_catch :
    (c : PendingMessageCatch) → Keeps IsFiled (modify (restore_message_catch c))
unfolding restore_message_catch
Keeps-restore_message_catch c = Keeps-modify _ (λ e h.
    (h.0, h.1, h.2, h.3, insert-IsKeyed (λ x. x.id) e.pending_message_catches c.id c refl h.4))

pub run_again-id : (inst : ProcessInstance) → (run_again inst).id ≡ inst.id
run_again-id inst = ground arith

module _ (env : Env) (instance_id token_id : ℕ) where
  pub Keeps-take_token : Keeps IsFiled (take_token env instance_id token_id)
  unfolding take_token
  Keeps-take_token = search (filing) depth 30

  Keeps-branch_token : Keeps IsFiled (branch_token env instance_id token_id)
  unfolding branch_token
  Keeps-branch_token = search (filing) depth 30

  Keeps-cancel_tasks : (node : String) → Keeps IsFiled (cancel_tasks env instance_id token_id node)
  unfolding cancel_tasks
  Keeps-cancel_tasks node = Keeps-bind _ _ (Keeps-reads _) (λ user_tasks.
      Keeps-bind _ _
        (Keeps-for_each user_tasks _ (λ id.
          Keeps-bind _ _
            (Keeps-modify _ (λ e h.
              (h.0, remove-IsKeyed (λ t. t.task_id) e.pending_user_tasks id h.1, h.2, h.3, h.4)))
            (λ u. Keeps-effect _)))
        (λ u. Keeps-bind _ _ (Keeps-reads _) (λ service_tasks. Keeps-for_each service_tasks _ (λ id.
          Keeps-bind _ _
            (Keeps-modify _ (λ e h.
              (h.0, h.1, remove-IsKeyed (λ t. t.id) e.pending_service_tasks id h.2, h.3, h.4)))
            (λ u. Keeps-effect _)))))

  pub Keeps-resumed_token :
      (is_non_interrupting : Bool)
      → Keeps IsFiled (resumed_token env instance_id token_id is_non_interrupting)
  unfolding resumed_token
  Keeps-resumed_token true = Keeps-branch_token
  Keeps-resumed_token false =
      Keeps-bind _ _ Keeps-take_token
        (λ token. Keeps-bind _ _ (Keeps-cancel_tasks token.current_node) (λ u. Keeps-pure token))

module _ (env : Env) (batch : ℕ → Token → Run (Unit {0}))
    (Keeps-batch : (instance_id : ℕ) (token : Token) → Keeps IsFiled (batch instance_id token))
    (task_id : ℕ) where
  Keeps-with_user_task :
      (pending : PendingUserTask)
      → pending.task_id ≡ task_id
      → Keeps IsFiled (modify (with_user_task task_id pending))
  Keeps-with_user_task pending own = Keeps-modify _ (λ e h. (
    h.0,
    insert-IsKeyed (λ t. t.task_id) e.pending_user_tasks task_id pending own h.1,
    h.2,
    h.3,
    h.4,
  ))

  Keeps-reinsert :
      (pending : PendingUserTask)
      → pending.task_id ≡ task_id
      → (token : Token) (e : EngineError)
      → Keeps IsFiled (reinsert env batch task_id pending token e)
  unfolding reinsert
  Keeps-reinsert pending own token e =
      Keeps-bind _ _ (Keeps-touch _ _ (λ inst. refl))
        (λ u. Keeps-bind _ _ (Keeps-with_user_task pending own) (λ u. Keeps-raise e))

  Keeps-advance :
      (pending : PendingUserTask) (def : ProcessDefinition) (token : Token)
      → Keeps IsFiled (advance env batch task_id pending def token)
  unfolding advance
  Keeps-advance pending def token = search (filing, Keeps-register env, Keeps-batch) depth 30

  completed_at_node-id :
      (node_id : String) (inst : ProcessInstance) → (completed_at_node node_id inst).id ≡ inst.id
  completed_at_node-id node_id inst = run_again-id _

  Keeps-complete_pending :
      (vars : Variables) (pending : PendingUserTask)
      → pending.task_id ≡ task_id
      → Keeps IsFiled (complete_pending env batch task_id vars pending)
  unfolding complete_pending
  Keeps-complete_pending vars pending own =
      Keeps-bind _ _ (Keeps-take_token env pending.instance_id pending.token_id) (λ stored.
        Keeps-bind _ _ (Keeps-effect _) (λ u. Keeps-bind _ _ (Keeps-cancel_timers _ _) (λ u.
          Keeps-bind _ _ (Keeps-cancel_catches _ _) (λ u.
            Keeps-bind _ _ (Keeps-write _ _ (completed_at_node-id pending.node_id)) (λ u.
              Keeps-bind _ _ (search (filing)) (λ inst. Keeps-bind _ _ (search (filing)) (λ def.
                Keeps-bind _ _ (Keeps-try_end_scripts env _ _ def pending.node_id) (λ s.
                  Keeps-option s.failure _ _ (Keeps-advance pending def s.token)
                    (Keeps-reinsert pending own s.token)))))))))

  Keeps-complete_unless :
      (vars : Variables) (pending : PendingUserTask)
      → pending.task_id ≡ task_id
      → (suspended : Bool)
      → Keeps IsFiled (complete_unless env batch task_id vars pending suspended)
  unfolding complete_unless
  Keeps-complete_unless vars pending own true =
      Keeps-bind _ _ (Keeps-with_user_task pending own) (λ u. Keeps-raise _)
  Keeps-complete_unless vars pending own false = Keeps-complete_pending vars pending own

  pub Keeps-complete_user_task :
      (vars : Variables) → Keeps IsFiled (complete_user_task env batch task_id vars)
  unfolding complete_user_task complete_found
  Keeps-complete_user_task vars =
      Keeps-found (λ e. e.pending_user_tasks) (λ t. t.task_id) (λ e h. h.1) task_id _
        (Keeps-raise _)
        (λ pending own.
          Keeps-bind _ _
            (Keeps-modify _ (λ e h. (
              h.0,
              remove-IsKeyed (λ t. t.task_id) e.pending_user_tasks task_id h.1,
              h.2,
              h.3,
              h.4,
            )))
            (λ u. Keeps-bind _ _ (Keeps-reads _) (Keeps-complete_unless vars pending own)))
