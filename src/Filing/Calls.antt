-- ===== src/Filing/Calls.antt =====
-- The calls that start no batch keep the invariant.
use mini_bpm_engine.Prelude.{
  ℕ, String, ◌≡◌, refl, Bool, true, false, not, Option, none, some, List, Map, get, nat_eq,
  string_eq, arith, if◌then◌else◌,
}
use mini_bpm_engine.Prelude.Int.{ℤ, is_nonpositive}
use mini_bpm_engine.Prelude.Keyed.{insert-IsKeyed, map_values-IsKeyed, get-own}
use mini_bpm_engine.Domain.Definition.{ProcessDefinition, nodes}
use mini_bpm_engine.Domain.Error.{
  Result, ok, err, ok_or, ◌>>◌, fail_if, invalid_definition, service_task_not_found,
}
use mini_bpm_engine.Runtime.AuditLog.{push_audit_log}
use mini_bpm_engine.Runtime.Instance.{ProcessInstance}
use mini_bpm_engine.Runtime.Pending.{
  PendingUserTask, PendingServiceTask, PendingTimer, PendingMessageCatch,
}
use mini_bpm_engine.Engine.{Engine, instance_of, definition_of}
use mini_bpm_engine.Run.{modify, update}
use mini_bpm_engine.Run.Keeping.{Keeps, IfOk, IfOk-bind, IfOk-true, Keeps-modify, Keeps-update}
use mini_bpm_engine.ServiceTask.{
  task_of, set_task, fetch_and_lock_service_tasks, verify_lock_ownership, fail_service_task,
  after_failure, retry_incident, after_retry, extend_lock, failed_task, retried_task, extended_task,
}
use mini_bpm_engine.ServiceTask.Locking.{fetch-DistinctIds}
use mini_bpm_engine.InstanceOps.{
  check_suspendable, previous, suspend_instance, resume_instance, suspended_instance,
  resumed_instance,
}
use mini_bpm_engine.InstanceOps.Migration.{
  check_nodes, occupied, migrated_instance, moved_user_task, moved_service_task, moved_timer,
  moved_message_catch, after_migration, migrate_instance,
}
use mini_bpm_engine.Filing.{IsFiled, IsFiled-instance}
use mini_bpm_engine.Filing.Joining.{Owned, instance_of-Owned}

-- A service task that is found.
task_of-own :
    (e : Engine) (task_id : ℕ) → IsFiled e → IfOk (λ t. t.id ≡ task_id) (task_of e task_id)
task_of-own e task_id h = settle (get e.pending_service_tasks task_id) refl
  where
    settle :
        (found : Option PendingServiceTask)
        → get e.pending_service_tasks task_id ≡ found
        → IfOk (λ t. t.id ≡ task_id) (ok_or found (service_task_not_found task_id))
    settle none eq = tt
    settle (some t) eq = get-own (λ t. t.id) e.pending_service_tasks task_id t h.2 eq

set_task-IsFiled :
    (e : Engine) (task_id : ℕ) (t : PendingServiceTask)
    → t.id ≡ task_id
    → IsFiled e
    → IsFiled (set_task e task_id t)
set_task-IsFiled e task_id t own h =
    (h.0, h.1, insert-IsKeyed (λ t. t.id) e.pending_service_tasks task_id t own h.2, h.3, h.4)

IsFiled-if : (b : Bool) (e e' : Engine) → IsFiled e → IsFiled e' → IsFiled (if b then e else e')
IsFiled-if true e e' h h' = h
IsFiled-if false e e' h h' = h'

module _ (e : Engine) (task_id : ℕ) (h : IsFiled e) where
  after_failure-IsFiled :
      (t : PendingServiceTask) → t.id ≡ task_id → IsFiled (after_failure e task_id t)
  unfolding after_failure push_audit_log
  after_failure-IsFiled t own =
      let e' = set_task e task_id t in
      let stored = set_task-IsFiled e task_id t own h in
      IsFiled-if (is_nonpositive t.retries) _ e'
        (IsFiled-instance t.instance_id _ (λ inst. refl) e' stored) stored

  after_retry-IsFiled :
      (t : PendingServiceTask) → t.id ≡ task_id → IsFiled (after_retry e task_id t)
  unfolding after_retry push_audit_log
  after_retry-IsFiled t own =
      IsFiled-instance t.instance_id _ (λ inst. refl) (set_task e task_id t)
        (set_task-IsFiled e task_id t own h)

-- What is checked before the write.
checked : (r : Result (Unit {0})) (s : Result Engine) → IfOk IsFiled s → IfOk IsFiled (r >> s)
checked (ok u) s h = h
checked (err x) s h = tt

module _ (task_id : ℕ) where
  pub Keeps-fail :
      (worker : String) (retries : Option ℤ) (msg details : Option String)
      → Keeps IsFiled (update (λ e. fail_service_task e task_id worker retries msg details))
  unfolding fail_service_task
  Keeps-fail worker retries msg details = Keeps-update _ (λ e h.
      IfOk-bind (λ t. t.id ≡ task_id) IsFiled (task_of e task_id) _ (task_of-own e task_id h)
        (λ t own.
          checked (verify_lock_ownership task_id t.worker_id worker) _
            (after_failure-IsFiled e task_id h (failed_task t retries msg details) own)))

  pub Keeps-retry :
      (retries : Option ℤ) → Keeps IsFiled (update (λ e. retry_incident e task_id retries))
  unfolding retry_incident
  Keeps-retry retries = Keeps-update _ (λ e h.
      IfOk-bind (λ t. t.id ≡ task_id) IsFiled (task_of e task_id) _ (task_of-own e task_id h)
        (λ t own.
          checked
            (fail_if (not (is_nonpositive t.retries))
              (invalid_definition "Task is not an incident (retries > 0)"))
            _ (after_retry-IsFiled e task_id h (retried_task t retries) own)))

  pub Keeps-extend :
      (now : ℕ) (worker : String) (d : ℤ)
      → Keeps IsFiled (update (λ e. extend_lock now e task_id worker d))
  unfolding extend_lock
  Keeps-extend now worker d = Keeps-update _ (λ e h.
      IfOk-bind (λ t. t.id ≡ task_id) IsFiled (task_of e task_id) _ (task_of-own e task_id h)
        (λ t own.
          checked (verify_lock_ownership task_id t.worker_id worker) _
            (set_task-IsFiled e task_id (extended_task now t d) own h)))

module _ (instance_id : ℕ) where
  pub Keeps-suspend : Keeps IsFiled (update (λ e. suspend_instance e instance_id))
  unfolding suspend_instance push_audit_log Owned
  Keeps-suspend = Keeps-update _ (λ e h.
      IfOk-bind (Owned e instance_id) IsFiled (instance_of e instance_id) _
        (instance_of-Owned e instance_id h)
        (λ inst own.
          checked (check_suspendable instance_id inst.state) _
            (own (suspended_instance inst) refl)))

  pub Keeps-resume : Keeps IsFiled (update (λ e. resume_instance e instance_id))
  unfolding resume_instance push_audit_log Owned
  Keeps-resume = Keeps-update _ (λ e h.
      IfOk-bind (Owned e instance_id) IsFiled (instance_of e instance_id) _
        (instance_of-Owned e instance_id h)
        (λ inst own.
          IfOk-bind (λ state. Unit {0}) IsFiled (previous inst.state) _ (IfOk-true _)
            (λ state u. own (resumed_instance inst state) refl)))

module _ (instance_id key : ℕ) (mapping : Map String String) where
  moved_user_task-id :
      (t : PendingUserTask) → (moved_user_task instance_id key mapping t).task_id ≡ t.task_id
  unfolding moved_user_task
  moved_user_task-id t = ground arith

  moved_service_task-id :
      (t : PendingServiceTask) → (moved_service_task instance_id key mapping t).id ≡ t.id
  unfolding moved_service_task
  moved_service_task-id t = ground arith

  moved_timer-id : (t : PendingTimer) → (moved_timer instance_id key mapping t).id ≡ t.id
  unfolding moved_timer
  moved_timer-id t = ground arith

  moved_message_catch-id :
      (c : PendingMessageCatch) → (moved_message_catch instance_id key mapping c).id ≡ c.id
  unfolding moved_message_catch
  moved_message_catch-id c = ground arith

  after_migration-IsFiled :
      (e : Engine) (def : ProcessDefinition) (inst : ProcessInstance)
      → IsFiled e
      → Owned e instance_id inst
      → IsFiled (after_migration instance_id key mapping e def inst)
  unfolding after_migration migrated_instance push_audit_log Owned
  after_migration-IsFiled e def inst h own = (
    (own (migrated_instance key def mapping inst) refl).0,
    map_values-IsKeyed (λ t. t.task_id) _ moved_user_task-id e.pending_user_tasks h.1,
    map_values-IsKeyed (λ t. t.id) _ moved_service_task-id e.pending_service_tasks h.2,
    map_values-IsKeyed (λ t. t.id) _ moved_timer-id e.pending_timers h.3,
    map_values-IsKeyed (λ c. c.id) _ moved_message_catch-id e.pending_message_catches h.4,
  )

  pub Keeps-migrate : Keeps IsFiled (update (migrate_instance instance_id key mapping))
  unfolding migrate_instance
  Keeps-migrate = Keeps-update _ (λ e h.
      IfOk-bind (λ def. Unit {0}) IsFiled (definition_of e key) _ (IfOk-true _)
        (λ def u.
          IfOk-bind (Owned e instance_id) IsFiled (instance_of e instance_id) _
            (instance_of-Owned e instance_id h)
            (λ inst own. checked (check_suspendable instance_id inst.state) _ (
              checked (check_nodes (nodes def) mapping (occupied inst)) _
                (after_migration-IsFiled e def inst h own)))))

pub Keeps-fetch :
    (now : ℕ) (worker : String) (max : ℕ) (topics : List String) (d : ℤ)
    → Keeps IsFiled (modify (λ e. (fetch_and_lock_service_tasks now worker max topics d e).0))
unfolding fetch_and_lock_service_tasks
Keeps-fetch now worker max topics d = Keeps-modify _ (λ e h.
    (h.0, h.1, fetch-DistinctIds now worker max topics d 0 e.pending_service_tasks h.2, h.3, h.4))
