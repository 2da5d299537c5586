-- ===== src/Filing/Actions.antt =====
-- What an action does keeps the invariant.
use mini_bpm_engine.Filing.Joining.{
  Keeps-complete_branch, Keeps-register_barrier, Keeps-register_branches, Keeps-arrive,
}
use mini_bpm_engine.Prelude.{ℕ, String, ◌≡◌, refl, arith, List, nat_eq, string_eq}
use mini_bpm_engine.Prelude.Keyed.{insert-IsKeyed, filter-IsKeyed}
use mini_bpm_engine.Domain.Token.{Token}
use mini_bpm_engine.Runtime.Action.{
  NextAction, NextActions, nil, cons, continue, continue_multiple, wait_for_user,
  wait_for_service_task, wait_for_join, wait_for_timer, wait_for_message, wait_for_event_group,
  complete, error_end, escalation_end, spawn_and_continue, terminate, wait_for_call_activity,
  multi_instance_fork, multi_instance_next,
}
use mini_bpm_engine.Runtime.AuditLog.{push_audit_log}
use mini_bpm_engine.Runtime.Instance.{InstanceState, ProcessInstance}
use mini_bpm_engine.Runtime.Pending.{PendingTimer, PendingMessageCatch}
use mini_bpm_engine.Engine.{Engine}
use mini_bpm_engine.Run.{Env, Run}
use mini_bpm_engine.Run.Keeping.{
  Keeps, Keeps-pure, Keeps-ask, Keeps-reads, Keeps-option, Keeps-result, Keeps-bind, Keeps-modify,
  Keeps-try_run,
}
use mini_bpm_engine.Executor.NextActions.{
  wait_in, retain_others, without_pending, insert_timer, insert_message_catch, insert_group,
  end_branch, call_child, fork_barrier, handle_next_action,
}
use mini_bpm_engine.Filing.{IsFiled, Keeps-effect, Keeps-touch, filing}
use mini_bpm_engine.Filing.Starting.{Keeps-spawn}

Keeps-insert_timer : (pending : PendingTimer) → Keeps IsFiled (insert_timer pending)
unfolding insert_timer
Keeps-insert_timer pending =
    Keeps-bind _ _
      (Keeps-modify _ (λ e h. (
        h.0,
        h.1,
        h.2,
        insert-IsKeyed (λ t. t.id) e.pending_timers pending.id pending refl h.3,
        h.4,
      )))
      (λ u. Keeps-effect _)

Keeps-insert_message_catch :
    (pending : PendingMessageCatch) → Keeps IsFiled (insert_message_catch pending)
unfolding insert_message_catch
Keeps-insert_message_catch pending =
    Keeps-bind _ _
      (Keeps-modify _ (λ e h. (
        h.0,
        h.1,
        h.2,
        h.3,
        insert-IsKeyed (λ m. m.id) e.pending_message_catches pending.id pending refl h.4,
      )))
      (λ u. Keeps-effect _)

Keeps-insert_group : (actions : NextActions) → Keeps IsFiled (insert_group actions)
unfolding insert_group
Keeps-insert_group nil = Keeps-pure _
Keeps-insert_group (cons (wait_for_timer p) rest) =
    Keeps-bind _ _ (Keeps-insert_timer p) (λ u. Keeps-insert_group rest)
Keeps-insert_group (cons (wait_for_message p) rest) =
    Keeps-bind _ _ (Keeps-insert_message_catch p) (λ u. Keeps-insert_group rest)
Keeps-insert_group (cons (continue t) rest) = Keeps-insert_group rest
Keeps-insert_group (cons (continue_multiple ts) rest) = Keeps-insert_group rest
Keeps-insert_group (cons (wait_for_user p) rest) = Keeps-insert_group rest
Keeps-insert_group (cons (wait_for_service_task s) rest) = Keeps-insert_group rest
Keeps-insert_group (cons (wait_for_join g t) rest) = Keeps-insert_group rest
Keeps-insert_group (cons (wait_for_event_group a) rest) = Keeps-insert_group rest
Keeps-insert_group (cons complete rest) = Keeps-insert_group rest
Keeps-insert_group (cons (error_end c) rest) = Keeps-insert_group rest
Keeps-insert_group (cons (escalation_end c) rest) = Keeps-insert_group rest
Keeps-insert_group (cons (spawn_and_continue m s) rest) = Keeps-insert_group rest
Keeps-insert_group (cons terminate rest) = Keeps-insert_group rest
Keeps-insert_group (cons (wait_for_call_activity c t) rest) = Keeps-insert_group rest
Keeps-insert_group (cons (multi_instance_fork n ts) rest) = Keeps-insert_group rest
Keeps-insert_group (cons (multi_instance_next n t) rest) = Keeps-insert_group rest

pub without_pending-IsFiled :
    (instance_id : ℕ) (e : Engine) → IsFiled e → IsFiled (without_pending instance_id e)
unfolding retain_others
without_pending-IsFiled instance_id e h = (
  h.0,
  filter-IsKeyed (λ t. t.task_id) _ e.pending_user_tasks h.1,
  filter-IsKeyed (λ t. t.id) _ e.pending_service_tasks h.2,
  filter-IsKeyed (λ t. t.id) _ e.pending_timers h.3,
  filter-IsKeyed (λ t. t.id) _ e.pending_message_catches h.4,
)

wait_in-id : (state : InstanceState) (inst : ProcessInstance) → (wait_in state inst).id ≡ inst.id
wait_in-id state inst = ground arith

module _ (env : Env) (nested : ℕ → Token → Run (Unit {0}))
    (Keeps-nested : (instance_id : ℕ) (token : Token) → Keeps IsFiled (nested instance_id token))
    (instance_id : ℕ) where
  Keeps-end_branch :
      (token_id : ℕ) (finish : ℕ → ProcessInstance → ProcessInstance)
      → ((now : ℕ) (inst : ProcessInstance) → (finish now inst).id ≡ inst.id)
      → Keeps IsFiled (end_branch env nested instance_id token_id finish)
  unfolding end_branch
  Keeps-end_branch token_id finish same = search (filing, Keeps-complete_branch, same) depth 30

  Keeps-call_child :
      (called : String) (token : Token) (child_key : ℕ)
      → Keeps IsFiled (call_child env nested instance_id called token child_key)
  unfolding call_child
  Keeps-call_child called token child_key = Keeps-bind _ _ (Keeps-ask _) (λ sub.
      Keeps-bind _ _ (Keeps-touch _ _ (wait_in-id _)) (λ u.
        Keeps-bind _ _ (Keeps-try_run _ (Keeps-spawn env nested Keeps-nested _ _ _))
          (λ r. Keeps-result r _ _ (λ e. Keeps-pure _) (λ id. Keeps-touch _ _ (λ inst. refl)))))

  pub Keeps-next_action :
      (action : NextAction) (token_id : ℕ) (gateway_id : String) (queue : List Token)
      → Keeps IsFiled (handle_next_action env nested instance_id action token_id gateway_id queue)
  unfolding handle_next_action push_audit_log fork_barrier
  Keeps-next_action (continue t) i g q = Keeps-pure _
  Keeps-next_action (continue_multiple ts) i g q =
      search (filing, Keeps-register_barrier, Keeps-register_branches) depth 30
  Keeps-next_action (wait_for_join gateway_id t) i g q = Keeps-bind _ _ (Keeps-ask _) (λ uuid.
      Keeps-bind _ _ (Keeps-arrive env.json uuid env.uuid_text instance_id gateway_id t) (λ merged.
        Keeps-option merged _ _ (Keeps-pure _)
          (λ m. Keeps-bind _ _ (Keeps-touch _ _ (λ inst. refl)) (λ u. Keeps-pure _))))
  Keeps-next_action (wait_for_user p) i g q = Keeps-bind _ _ (Keeps-touch _ _ (wait_in-id _)) (λ u.
      Keeps-bind _ _
        (Keeps-modify _ (λ e h. (
          h.0,
          insert-IsKeyed (λ t. t.task_id) e.pending_user_tasks p.task_id p refl h.1,
          h.2,
          h.3,
          h.4,
        )))
        (λ u. search (filing) depth 30))
  Keeps-next_action (wait_for_service_task s) i g q =
      Keeps-bind _ _ (Keeps-touch _ _ (wait_in-id _)) (λ u.
        Keeps-bind _ _
          (Keeps-modify _ (λ e h. (
            h.0,
            h.1,
            insert-IsKeyed (λ t. t.id) e.pending_service_tasks s.id s refl h.2,
            h.3,
            h.4,
          )))
          (λ u. search (filing) depth 30))
  Keeps-next_action (wait_for_timer p) i g q =
      search (filing, wait_in-id, Keeps-insert_timer) depth 30
  Keeps-next_action (wait_for_message p) i g q =
      search (filing, wait_in-id, Keeps-insert_message_catch) depth 30
  Keeps-next_action (wait_for_event_group a) i g q =
      search (filing, wait_in-id, Keeps-insert_group) depth 30
  Keeps-next_action (wait_for_call_activity called t) i g q =
      Keeps-bind _ _ (Keeps-reads _) (λ found.
        Keeps-bind _ _
          (Keeps-option found _ _ (Keeps-pure _) (λ key. Keeps-call_child called t key))
          (λ u. search (filing) depth 30))
  Keeps-next_action complete i g q =
      Keeps-bind _ _ (Keeps-end_branch i _ (λ now inst. refl)) (λ u. Keeps-pure _)
  Keeps-next_action (error_end c) i g q =
      Keeps-bind _ _ (Keeps-end_branch i _ (λ now inst. refl)) (λ u. Keeps-pure _)
  Keeps-next_action (escalation_end c) i g q =
      Keeps-bind _ _ (Keeps-end_branch i _ (λ now inst. refl)) (λ u. Keeps-pure _)
  Keeps-next_action (spawn_and_continue m s) i g q = Keeps-pure _
  Keeps-next_action terminate i g q =
      Keeps-bind _ _ (Keeps-modify _ (without_pending-IsFiled instance_id))
        (λ u. search (filing) depth 30)
  Keeps-next_action (multi_instance_fork n ts) i g q =
      search (filing, Keeps-register_branches) depth 30
  Keeps-next_action (multi_instance_next n t) i g q = Keeps-pure _
