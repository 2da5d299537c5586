-- ===== src/Operations/Ownership.antt =====
-- Who may act on a locked service task.
use mini_bpm_engine.Prelude.{
  ℕ, String, ◌≡◌, refl, ◌∙◌, suc, sym, subst, ap, false, Option, none, some, [], ◌∷◌, get, All,
  nat_eq, string_eq, arith,
}
use mini_bpm_engine.Prelude.Int.{ℤ}
use mini_bpm_engine.Domain.Error.{
  Result, err, EngineError, ok_or, service_task_not_found, ◌>>◌, ◌>>=◌ as then_ok,
}
use mini_bpm_engine.Domain.Json.{Variables}
use mini_bpm_engine.Runtime.Pending.{PendingServiceTask}
use mini_bpm_engine.Engine.{Engine}
use mini_bpm_engine.Run.{Env, World, Exit, raises, raise, ◌>>=◌, reads, update, ask}
use mini_bpm_engine.Run.Failing.{raises-bind, raises-update}
use mini_bpm_engine.ServiceTask.{fail_service_task, extend_lock, task_of, verify_lock_ownership}
use mini_bpm_engine.ServiceTask.Completion.{
  take_if, is_holder, refusal_of, owned_by, not_owned, take_found, take_task, complete_service_task,
  handle_bpmn_error,
}
use mini_bpm_engine.Executor.Batch.{run_instance_batch}
use mini_bpm_engine.Operations.{
  Operation, service_task_done, service_task_failed, lock_extended, bpmn_error, operate,
}

-- A call fails with the error and leaves the engine as it is.
abbrev pub IsRefused : Env → (depth : ℕ) → EngineError → World → Operation → Type 0
IsRefused env depth e w op =
    let (exit, w') = operate env depth op w in (exit ≡ raises e) × (w'.engine ≡ w.engine)

verify-stranger :
    (task_id : ℕ) (holder : Option String) (worker : String)
    → is_holder worker holder ≡ false
    → verify_lock_ownership task_id holder worker ≡ err (refusal_of task_id holder)
unfolding verify_lock_ownership
verify-stranger task_id none worker stranger = refl
verify-stranger task_id (some holder) worker stranger = ground arith

module _ (env : Env) (depth task_id : ℕ) (task : PendingServiceTask) (worker : String) (w : World)
    (present : get w.engine.pending_service_tasks task_id ≡ some task)
    (stranger : owned_by worker task ≡ false) where
  take-stranger :
      take_task task_id (owned_by worker) (not_owned task_id) w
      ≡ (raises (not_owned task_id task), w)
  unfolding take_task take_found take_if raise ◌>>=◌ reads
  take-stranger =
      subst
        (λ found.
          take_found task_id (owned_by worker) (not_owned task_id) found w
          ≡ (raises (not_owned task_id task), w))
        (sym present)
        (subst
          (λ b.
            take_if task_id b (not_owned task_id task) task w
            ≡ (raises (not_owned task_id task), w))
          (sym stranger) refl)

  -- The check of the lock, in the operations that only write the task.
  verified :
      (f : PendingServiceTask → Result Engine)
      → then_ok
          (task_of w.engine task_id)
          (λ t. verify_lock_ownership task_id t.worker_id worker >> f t)
        ≡ err (not_owned task_id task)
  verified f =
      subst
        (λ found.
          then_ok (ok_or found (service_task_not_found task_id))
            (λ t. verify_lock_ownership task_id t.worker_id worker >> f t)
          ≡ err (not_owned task_id task))
        (sym present)
        (ap (λ r. r >> f task) (verify-stranger task_id task.worker_id worker stranger))

  unchanged :
      (r : Exit (Unit {0}) × World) (w' : World)
      → w'.engine ≡ w.engine
      → r ≡ (raises (not_owned task_id task), w')
      → (r.0 ≡ raises (not_owned task_id task)) × (r.1.engine ≡ w.engine)
  unchanged r w' same h = (ap (λ x. x.0) h, ap (λ x. x.1.engine) h ∙ same)

  completion :
      (variables : Variables)
      → complete_service_task env (run_instance_batch env depth) task_id worker variables w
        ≡ (raises (not_owned task_id task), w)
  unfolding complete_service_task
  completion variables = raises-bind _ _ w w _ take-stranger

  bpmn :
      (error_code : String)
      → handle_bpmn_error env (run_instance_batch env depth) task_id worker error_code w
        ≡ (raises (not_owned task_id task), w)
  unfolding handle_bpmn_error
  bpmn error_code = raises-bind _ _ w w _ take-stranger

  failure :
      (retries : Option ℤ) (msg details : Option String)
      → update (λ e. fail_service_task e task_id worker retries msg details) w
        ≡ (raises (not_owned task_id task), w)
  unfolding fail_service_task
  failure retries msg details = raises-update _ w _ (verified _)

  later : World
  later = record w { asked = suc w.asked }

  extension :
      (duration : ℤ)
      → operate env depth (lock_extended task_id worker duration) w
        ≡ (raises (not_owned task_id task), later)
  unfolding operate extend_lock ask ◌>>=◌ later
  extension duration = raises-update _ later _ (verified _)

  -- A worker that does not hold the lock of a pending service task can neither complete it nor throw a
  -- BPMN error for it, report a failure, or extend the lock: each call is refused, with the same error
  -- that names the holder or says that there is none, and leaves the engine unchanged.
  pub stranger-IsRefused :
      (variables : Variables) (error_code : String) (retries : Option ℤ)
      (msg details : Option String) (duration : ℤ)
      → All (IsRefused env depth (not_owned task_id task) w) (
          service_task_done task_id worker variables
          ∷ bpmn_error task_id worker error_code
          ∷ service_task_failed task_id worker retries msg details
          ∷ lock_extended task_id worker duration
          ∷ [])
  unfolding operate later
  stranger-IsRefused variables error_code retries msg details duration = (
    unchanged _ w refl (completion variables),
    (
      unchanged _ w refl (bpmn error_code),
      (
        unchanged _ w refl (failure retries msg details),
        (unchanged _ later refl (extension duration), tt),
      ),
    ),
  )
