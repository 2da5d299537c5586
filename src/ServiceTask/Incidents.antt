-- ===== src/ServiceTask/Incidents.antt =====
-- A task whose retries are exhausted.
use mathlib.Core.List.{Memᴰ}
use mini_bpm_engine.Prelude.{
  ℕ, ◌<◌, String, ◌≡◌, true, Option, some, List, length, contains, get, mem-values_of_get,
  mem_of_All, arith, inl, inr, sym, subst, nat_eq, string_eq,
}
use mini_bpm_engine.Prelude.Int.{ℤ}
use mini_bpm_engine.Runtime.Pending.{PendingServiceTask}
use mini_bpm_engine.Engine.{Engine}
use mini_bpm_engine.ServiceTask.{lock, failed_task, after_failure, fetch_and_lock_service_tasks}
use mini_bpm_engine.ServiceTask.Locking.{DistinctIds}
use mini_bpm_engine.ServiceTask.Fetching.{fetch_and_lock_service_tasks_lem}
use mini_bpm_engine.ServiceTask.Ownership.{after_failure-Replaces}

-- After a failure report, with whatever retries, an exhausted task (an incident) included, the next fetch
-- for its topic that does not fill up hands the task out again, without a retry of the incident.
pub failed_task_fetched :
    (now : ℕ) (worker : String) (max : ℕ) (topics : List String) (duration : ℤ) (e e' : Engine)
    (task_id : ℕ) (t : PendingServiceTask) (retries : Option ℤ) (message details : Option String)
    → e' ≡ after_failure e task_id (failed_task t retries message details)
    → DistinctIds e'.pending_service_tasks
    → contains topics t.topic ≡ true
    → length (fetch_and_lock_service_tasks now worker max topics duration e').1 < max
    → Memᴰ
        (lock now worker duration (failed_task t retries message details))
        (fetch_and_lock_service_tasks now worker max topics duration e').1
failed_task_fetched now worker max topics duration e e' task_id t retries message details q d topic
      room =
    elim (fetch_and_lock_service_tasks_lem now worker max topics duration e' d).3 [
      | inl full ↦ absurd (omega arith)
      | inr taken ↦
          elim (mem_of_All _ _ failed taken
            (mem-values_of_get e'.pending_service_tasks task_id failed stored)) [
              | inl busy ↦ absurd (ground arith)
              | inr m ↦ m
            ]
    ]
  where
    failed : PendingServiceTask
    failed = failed_task t retries message details

    stored : get e'.pending_service_tasks task_id ≡ some failed
    stored =
        subst (λ x. get x.pending_service_tasks task_id ≡ some failed) (sym q)
          (ground (arith, after_failure-Replaces e task_id failed task_id))
