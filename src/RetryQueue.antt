-- ===== src/RetryQueue.antt =====
-- engine-core/src/engine/retry_queue.rs: the worker that repeats failed calls of the persistence backend.
-- The backend is a parameter: `answers job attempt` is what it answers to a call then, and
-- `states job attempt` is the engine's state that the attempt reads. `Entry` is `HistoryEntry`.
pub mod Attempts
pub mod Shutdown
use mini_bpm_engine.Prelude.{
  ℕ, zero, suc, ◌*◌, ◌+◌, min, String, Bool, true, false, Option, none, some, List, [], ◌∷◌, get,
  leb, if◌then◌else◌, nat_eq,
}
use mini_bpm_engine.Domain.Definition.{ProcessDefinition}
use mini_bpm_engine.Runtime.Pending.{
  PendingUserTask, PendingServiceTask, PendingTimer, PendingMessageCatch,
}
use mini_bpm_engine.Runtime.Instance.{ProcessInstance}
use mini_bpm_engine.Engine.{Engine}

abbrev pub max_retries : ℕ
max_retries = 50

abbrev pub initial_backoff_ms : ℕ
initial_backoff_ms = 1000

abbrev pub max_backoff_ms : ℕ
max_backoff_ms = 60000

pub data PersistJob (Entry : Type 0) : Type 0 where
  save_instance : ℕ → PersistJob Entry
  save_definition : ℕ → PersistJob Entry
  save_user_task : ℕ → PersistJob Entry
  delete_user_task : ℕ → PersistJob Entry
  save_service_task : ℕ → PersistJob Entry
  delete_service_task : ℕ → PersistJob Entry
  save_timer : ℕ → PersistJob Entry
  delete_timer : ℕ → PersistJob Entry
  save_message_catch : ℕ → PersistJob Entry
  delete_message_catch : ℕ → PersistJob Entry
  append_history_entry : Entry → PersistJob Entry
  shutdown : PersistJob Entry

-- The calls of the `WorkflowPersistence` trait.
pub data Call (Entry : Type 0) : Type 0 where
  call_save_instance : ProcessInstance → Call Entry
  call_save_definition : ProcessDefinition → Call Entry
  call_save_user_task : PendingUserTask → Call Entry
  call_delete_user_task : ℕ → Call Entry
  call_save_service_task : PendingServiceTask → Call Entry
  call_delete_service_task : ℕ → Call Entry
  call_save_timer : PendingTimer → Call Entry
  call_delete_timer : ℕ → Call Entry
  call_save_message_catch : PendingMessageCatch → Call Entry
  call_delete_message_catch : ℕ → Call Entry
  call_append_history_entry : Entry → Call Entry

-- `Result<(), String>`.
pub data Attempt : Type 0 where
  succeeded : Attempt
  failed : (error : String) → Attempt

-- How the loop over the attempts at one job ends; a run without fuel has no counterpart in the code.
pub data Ending : Type 0 where
  done_at : (attempt : ℕ) → Ending
  gave_up : Ending
  out_of_fuel : Ending

module _ {Entry : Type 0} where
  -- The call that a job makes of the current state; an entity that is gone is skipped.
  unfoldable pub call_of : Engine → PersistJob Entry → Option (Call Entry)
  call_of e (save_instance id) = elim (get e.instances id) [
    | none ↦ none
    | some inst ↦ some (call_save_instance inst)
  ]
  call_of e (save_definition id) = elim (get e.definitions id) [
    | none ↦ none
    | some def ↦ some (call_save_definition def)
  ]
  call_of e (save_user_task id) = elim (get e.pending_user_tasks id) [
    | none ↦ none
    | some t ↦ some (call_save_user_task t)
  ]
  call_of e (delete_user_task id) = some (call_delete_user_task id)
  call_of e (save_service_task id) = elim (get e.pending_service_tasks id) [
    | none ↦ none
    | some t ↦ some (call_save_service_task t)
  ]
  call_of e (delete_service_task id) = some (call_delete_service_task id)
  call_of e (save_timer id) = elim (get e.pending_timers id) [
    | none ↦ none
    | some t ↦ some (call_save_timer t)
  ]
  call_of e (delete_timer id) = some (call_delete_timer id)
  call_of e (save_message_catch id) = elim (get e.pending_message_catches id) [
    | none ↦ none
    | some c ↦ some (call_save_message_catch c)
  ]
  call_of e (delete_message_catch id) = some (call_delete_message_catch id)
  call_of e (append_history_entry entry) = some (call_append_history_entry entry)
  call_of e shutdown = none

  unfoldable pub execute_job : Engine → (Call Entry → Attempt) → PersistJob Entry → Attempt
  execute_job e answer job = elim (call_of e job) [ none ↦ succeeded | some call ↦ answer call ]

  module _ (states : ℕ → Engine) (answers : ℕ → Call Entry → Attempt) (job : PersistJob Entry) where
    abbrev pub attempt_at : ℕ → Attempt
    attempt_at attempt = execute_job (states attempt) (answers attempt) job

    -- The inner `loop`; the second component lists the times that the worker slept.
    unfoldable pub retry_loop : (fuel attempt backoff_ms : ℕ) → Ending × List ℕ
    retry_loop zero attempt backoff_ms = (out_of_fuel, [])
    retry_loop (suc fuel) attempt backoff_ms =
        let rest = retry_loop fuel (suc attempt) (min (backoff_ms * 2) max_backoff_ms) in
        elim (attempt_at (suc attempt)) [
          | succeeded ↦ (done_at (suc attempt), [])
          | failed error ↦
              if leb max_retries (suc attempt) then (gave_up, []) else (rest.0, backoff_ms ∷ rest.1)
        ]

    abbrev pub retry_job : Ending × List ℕ
    retry_job = retry_loop max_retries 0 initial_backoff_ms

  abbrev pub is_shutdown : PersistJob Entry → Bool
  is_shutdown shutdown = true
  is_shutdown _ = false

  -- The outer `while let`: the jobs that were received, in order, and how each ended.
  unfoldable pub run_worker :
      (states : ℕ → ℕ → Engine) (answers : ℕ → ℕ → Call Entry → Attempt)
      → List (PersistJob Entry)
      → List Ending
  unfolding retry_loop
  run_worker states answers [] = []
  run_worker states answers (job ∷ jobs) =
      let rest = run_worker (λ k. states (suc k)) (λ k. answers (suc k)) jobs in
      if is_shutdown job then [] else (retry_job (states 0) (answers 0) job).0 ∷ rest

-- What the worker adds to the counter of errors.
unfoldable pub errors_of : List Ending → ℕ
errors_of [] = 0
errors_of (gave_up ∷ rest) = suc (errors_of rest)
errors_of (_ ∷ rest) = errors_of rest
