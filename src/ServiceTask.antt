-- ===== src/ServiceTask.antt =====
-- engine-core/src/engine/service_task.rs: the fetch-and-lock protocol of service tasks.
-- `now` is what `Utc::now()` answers. An operation that fails does so before it changes anything.
pub mod Locking
pub mod Exclusion
pub mod Fetching
pub mod Ownership
pub mod Incidents
pub mod Completion
pub mod Automaton
use Prim.Native.String.{◌++◌ as concat}
use mini_bpm_engine.Prelude.{
  ℕ, suc, String, Bool, true, false, ◌&&◌, not, Option, none, some, List, [], ◌∷◌, map, Map, get,
  insert, contains, ltb, leb, ◌==◌, if◌then◌else◌, nat_eq, string_eq,
}
use mini_bpm_engine.Prelude.Int.{ℤ, is_nonpositive, pred_i32, add_seconds, pos, show}
use mini_bpm_engine.Domain.Error.{
  Result, ok, err, ◌>>=◌, ◌>>◌, ok_or, fail_if, service_task_locked, service_task_not_locked,
  service_task_not_found, invalid_definition,
}
use mini_bpm_engine.Runtime.Pending.{PendingServiceTask}
use mini_bpm_engine.Runtime.AuditLog.{push_audit_log}
use mini_bpm_engine.Engine.{
  Engine, persist_instance, persist_service_task, record_history_event, task_completed, error,
  perform, if_instance,
}

unfoldable pub verify_lock_ownership :
    (task_id : ℕ) (locked_worker : Option String) (worker_id : String) → Result (Unit {0})
verify_lock_ownership task_id none worker_id = err (service_task_not_locked task_id)
verify_lock_ownership task_id (some locked_by) worker_id =
    if locked_by == worker_id then ok tt else err (service_task_locked task_id locked_by)

-- No lock, or one that has expired: `expiration > now` skips the task.
abbrev pub is_unlocked : ℕ → Option ℕ → Bool
is_unlocked now none = true
is_unlocked now (some expiration) = not (ltb now expiration)

abbrev pub is_available : ℕ → List String → PendingServiceTask → Bool
is_available now topics task = contains topics task.topic && is_unlocked now task.lock_expiration

abbrev pub Tasks : Type 0
Tasks = Map ℕ PendingServiceTask

abbrev pub lock :
    (now : ℕ) (worker_id : String) (lock_duration : ℤ) → PendingServiceTask → PendingServiceTask
lock now worker_id lock_duration task = record task {
  worker_id = some worker_id;
  lock_expiration = some (add_seconds now lock_duration);
}

module _ (now : ℕ) (worker_id : String) (max_tasks : ℕ) (topics : List String)
    (lock_duration : ℤ) where
  -- The loop over `iter_mut()`; `taken` is the length of `result` so far.
  unfoldable pub fetch_loop : ℕ → Tasks → Tasks × List PendingServiceTask
  fetch_loop taken [] = ([], [])
  fetch_loop taken ((id, task) ∷ rest) = elim (leb max_tasks taken) [
    | true ↦ ((id, task) ∷ rest, [])
    | false ↦ elim (is_available now topics task) [
      | true ↦
          let (tasks, result) = fetch_loop (suc taken) rest in
          (
            (id, lock now worker_id lock_duration task) ∷ tasks,
            lock now worker_id lock_duration task ∷ result,
          )
      | false ↦ let (tasks, result) = fetch_loop taken rest in ((id, task) ∷ tasks, result)
    ]
  ]

  unfoldable pub fetch_and_lock_service_tasks : Engine → Engine × List PendingServiceTask
  unfolding fetch_loop
  fetch_and_lock_service_tasks e =
      let (tasks, result) = fetch_loop 0 e.pending_service_tasks in
      (
        perform (record e { pending_service_tasks = tasks })
            (map (λ t. persist_service_task t.id) result),
        result,
      )

abbrev pub unwrap_or {ℓ} : {A : Type ℓ} → Option A → A → A
unwrap_or none d = d
unwrap_or (some a) d = a

abbrev pub set_task : Engine → ℕ → PendingServiceTask → Engine
set_task e task_id task = record e {
  pending_service_tasks = insert e.pending_service_tasks task_id task;
}

abbrev pub task_of : Engine → ℕ → Result PendingServiceTask
task_of e task_id = ok_or (get e.pending_service_tasks task_id) (service_task_not_found task_id)

-- The task after a failure report: unlocked, with its error.
abbrev pub failed_task :
    PendingServiceTask
    → (retries : Option ℤ) (error_message error_details : Option String) → PendingServiceTask
failed_task task retries error_message error_details = record task {
  retries = unwrap_or retries (pred_i32 task.retries);
  error_message = error_message;
  error_details = error_details;
  worker_id = none;
  lock_expiration = none;
}

abbrev pub incident_entry : String → Option String → String
incident_entry node_id error_message =
    concat "🚨 INCIDENT: Service task '" (
      concat node_id
        (concat "' failed with 0 retries — " (unwrap_or error_message "Unknown error")))

-- The state with the failed task in place; it has the error message that came with the failure.
unfoldable pub after_failure : Engine → (task_id : ℕ) (failed : PendingServiceTask) → Engine
after_failure e task_id failed =
    let e' = set_task e task_id failed in
    perform
      (if is_nonpositive failed.retries
        then if_instance e' failed.instance_id
            (λ inst. push_audit_log inst (incident_entry failed.node_id failed.error_message))
        else e')
      (record_history_event failed.instance_id error
        ∷ persist_service_task task_id
        ∷ persist_instance failed.instance_id
        ∷ [])

unfoldable pub fail_service_task :
    Engine
    → (task_id : ℕ) (worker_id : String) (retries : Option ℤ)
      (error_message error_details : Option String)
    → Result Engine
unfolding verify_lock_ownership
fail_service_task e task_id worker_id retries error_message error_details = do
  task ← task_of e task_id
  verify_lock_ownership task_id task.worker_id worker_id
  ok (after_failure e task_id (failed_task task retries error_message error_details))

abbrev pub retried_task : PendingServiceTask → (new_retries : Option ℤ) → PendingServiceTask
retried_task task new_retries = record task {
  retries = unwrap_or new_retries (pos 3);
  error_message = none;
  error_details = none;
  worker_id = none;
  lock_expiration = none;
}

abbrev pub retried_entry : String → ℤ → String
retried_entry node_id retries =
    concat "🔄 Incident on service task '"
      (concat node_id (concat "' retried (" (concat (show retries) " retries)")))

unfoldable pub after_retry : Engine → (task_id : ℕ) (retried : PendingServiceTask) → Engine
after_retry e task_id retried =
    perform
      (if_instance (set_task e task_id retried) retried.instance_id
        (λ inst. push_audit_log inst (retried_entry retried.node_id retried.retries)))
      (record_history_event retried.instance_id task_completed
        ∷ persist_service_task task_id
        ∷ persist_instance retried.instance_id
        ∷ [])

unfoldable pub retry_incident : Engine → (task_id : ℕ) (new_retries : Option ℤ) → Result Engine
retry_incident e task_id new_retries = do
  task ← task_of e task_id
  fail_if (not (is_nonpositive task.retries))
      (invalid_definition "Task is not an incident (retries > 0)")
  ok (after_retry e task_id (retried_task task new_retries))

abbrev pub extended_task :
    (now : ℕ) → PendingServiceTask → (additional_duration : ℤ) → PendingServiceTask
extended_task now task additional_duration = record task {
  lock_expiration = some (add_seconds now additional_duration);
}

unfoldable pub extend_lock :
    (now : ℕ)
    → Engine
    → (task_id : ℕ) (worker_id : String) (additional_duration : ℤ) → Result Engine
unfolding verify_lock_ownership
extend_lock now e task_id worker_id additional_duration = do
  task ← task_of e task_id
  verify_lock_ownership task_id task.worker_id worker_id
  ok (
      perform (set_task e task_id (extended_task now task additional_duration))
        (persist_service_task task_id ∷ []))
