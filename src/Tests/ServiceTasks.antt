-- ===== src/Tests/ServiceTasks.antt =====
-- Two workers and three service tasks.
use mathlib.Core.List.{Memᴰ}
use mini_bpm_engine.Prelude.{
  ◌≤◌, ◌≡◌, ◌⊎◌, refl, String, true, false, none, some, List, [], ◌∷◌, All, values, length, get,
  insert, arith, nat_eq, string_eq,
}
use mini_bpm_engine.Prelude.Int.{pos, is_nonpositive}
use mini_bpm_engine.Domain.Error.{ok, err, service_task_not_found, invalid_definition}
use mini_bpm_engine.Runtime.Pending.{PendingServiceTask}
use mini_bpm_engine.Engine.{Engine, perform, persist_service_task}
use mini_bpm_engine.ServiceTask.{
  is_available, lock, failed_task, after_failure, retried_task, after_retry, extended_task,
  set_task, fetch_and_lock_service_tasks, fail_service_task, retry_incident, extend_lock,
}
use mini_bpm_engine.ServiceTask.Locking.{DistinctIds}
use mini_bpm_engine.ServiceTask.Exclusion.{AreApart, fetches_apart}
use mini_bpm_engine.ServiceTask.Fetching.{IsLockedFrom, fetch_and_lock_service_tasks_lem}
use mini_bpm_engine.ServiceTask.Ownership.{
  OwnerOnly, Replaces, fail_service_task_lem, extend_lock_lem, retry_incident_lem,
}
use mini_bpm_engine.ServiceTask.Automaton.{
  Request, fetch, report, extend, retry, lock_at, answer_all, Follows,
}
use mini_bpm_engine.ServiceTask.Automaton.Refinement.{answer_all-Follows}
use mini_bpm_engine.ServiceTask.Incidents.{failed_task_fetched}
use mini_bpm_engine.Tests.Data.{engine, task}

engine-DistinctIds : DistinctIds engine.pending_service_tasks
engine-DistinctIds =
    (refl, (omega arith, (omega arith, tt)), (refl, (omega arith, tt), (refl, tt, tt)))

abbrev packing : List String
packing = "pack" ∷ []

fetches_apart_example :
    let (e', result) = fetch_and_lock_service_tasks 1000 "w1" 1 packing (pos 30) engine in
    let (e'', result') = fetch_and_lock_service_tasks 2000 "w2" 5 packing (pos 30) e' in
    AreApart result result'
fetches_apart_example =
    fetches_apart engine 1000 "w1" 1 packing (pos 30) 2000 "w2" 5 packing (pos 30)
      engine-DistinctIds (omega arith)

fetch_and_lock_service_tasks_lem_example :
    let (e', result) = fetch_and_lock_service_tasks 1000 "w1" 1 packing (pos 30) engine in
    (length result ≤ 1)
    × All (IsLockedFrom 1000 "w1" 1 packing (pos 30) engine.pending_service_tasks) result
    × All (λ t. get e'.pending_service_tasks t.id ≡ some t) result
    × ((length result ≡ 1)
        ⊎ All
            (λ o. (is_available 1000 packing o ≡ false) ⊎ Memᴰ (lock 1000 "w1" (pos 30) o) result)
            (values engine.pending_service_tasks))
fetch_and_lock_service_tasks_lem_example =
    fetch_and_lock_service_tasks_lem 1000 "w1" 1 packing (pos 30) engine engine-DistinctIds

fail_service_task_lem_example :
    OwnerOnly engine 21 "w1"
      (λ t. after_failure engine 21 (failed_task t none (some "oops") none))
      (fail_service_task engine 21 "w1" none (some "oops") none)
    × ((t : PendingServiceTask)
        → let failed = failed_task t none (some "oops") none in
          Replaces engine 21 failed (after_failure engine 21 failed))
fail_service_task_lem_example = fail_service_task_lem engine 21 "w1" none (some "oops") none

extend_lock_lem_example :
    let after = λ (t : PendingServiceTask).
      perform (set_task engine 21 (extended_task 5 t (pos 60))) (persist_service_task 21 ∷ []) in
    OwnerOnly engine 21 "w1" after (extend_lock 5 engine 21 "w1" (pos 60))
    × ((t : PendingServiceTask) → Replaces engine 21 (extended_task 5 t (pos 60)) (after t))
extend_lock_lem_example = extend_lock_lem 5 engine 21 "w1" (pos 60)

retry_incident_lem_example :
    let r = retry_incident engine 20 none in
    ((get engine.pending_service_tasks 20 ≡ none) × (r ≡ err (service_task_not_found 20)))
    ⊎ ((t : PendingServiceTask) × (get engine.pending_service_tasks 20 ≡ some t)
        × (((is_nonpositive t.retries ≡ false)
              × (r ≡ err (invalid_definition "Task is not an incident (retries > 0)")))
            ⊎ ((is_nonpositive t.retries ≡ true)
                × (r ≡ ok (after_retry engine 20 (retried_task t none)))
                × Replaces engine 20
                    (retried_task t none)
                    (after_retry engine 20 (retried_task t none)))))
retry_incident_lem_example = retry_incident_lem engine 20 none

-- The only retry of task 21 fails; its worker's report makes it an incident.
abbrev failed_engine : Engine
failed_engine =
    after_failure engine 21 (failed_task (task 21 "pack" (some "w1")) none (some "oops") none)

failed_engine-DistinctIds : DistinctIds failed_engine.pending_service_tasks
unfolding after_failure get insert
failed_engine-DistinctIds =
    (refl, (omega arith, (omega arith, tt)), (refl, (omega arith, tt), (refl, tt, tt)))

failed_task_fetched_example :
    Memᴰ
      (lock 3000 "w2" (pos 30) (failed_task (task 21 "pack" (some "w1")) none (some "oops") none))
      (fetch_and_lock_service_tasks 3000 "w2" 9 packing (pos 30) failed_engine).1
unfolding after_failure fetch_and_lock_service_tasks get insert
failed_task_fetched_example =
    failed_task_fetched 3000 "w2" 9 packing (pos 30) engine failed_engine 21
      (task 21 "pack" (some "w1")) none (some "oops") none refl failed_engine-DistinctIds refl
      (omega arith)

-- One worker fetches and gives up, another one tries to extend what it does not hold, and then fetches.
abbrev requests : List Request
requests =
    fetch 1000 "w1" 5 packing (pos 30)
    ∷ extend 1001 20 "w2" (pos 30)
    ∷ report 20 "w1" none (some "oops") none
    ∷ fetch 1002 "w2" 5 packing (pos 30)
    ∷ retry 20 none
    ∷ []

answer_all-Follows_example :
    Follows 20 requests (lock_at 20 engine) (lock_at 20 (answer_all requests engine))
answer_all-Follows_example = answer_all-Follows requests 20 engine
