-- ===== src/ServiceTask/Ownership.antt =====
-- Who may report on a service task, and what becomes of a failed one.
use mathlib.Core.Bool.{false≢true}
use mini_bpm_engine.Prelude.{
  ℕ, String, ◌≡◌, ◌≢◌, ◌⊎◌, inl, inr, refl, sym, ap, ◌∙◌, true, false, Option, none, some, [], ◌∷◌,
  subst, ◌==◌, get, get-insert, Bool-cases, Option-cases, arith, nat_eq, string_eq, if◌then◌else◌,
}
use mini_bpm_engine.Prelude.Int.{ℤ, is_nonpositive}
use mini_bpm_engine.Domain.Error.{
  Result, ok, err, ◌>>=◌, ◌>>◌, service_task_not_found, service_task_not_locked,
  service_task_locked, invalid_definition,
}
use mini_bpm_engine.Runtime.Pending.{PendingServiceTask}
use mini_bpm_engine.Engine.{Engine, perform, persist_service_task}
use mini_bpm_engine.ServiceTask.{
  set_task, task_of, verify_lock_ownership, failed_task, retried_task, extended_task, after_failure,
  after_retry, fail_service_task, retry_incident, extend_lock,
}

-- The outcome of a report on a task: it succeeds for the worker that holds the task, with `after` of
-- the stored task, and is refused with the error that tells why in every other case.
abbrev pub OwnerOnly : Engine → ℕ → String → (PendingServiceTask → Engine) → Result Engine → Type 0
OwnerOnly e task_id worker after r =
    ((get e.pending_service_tasks task_id ≡ none) × (r ≡ err (service_task_not_found task_id)))
    ⊎ ((t : PendingServiceTask) × (get e.pending_service_tasks task_id ≡ some t)
        × (((t.worker_id ≡ none) × (r ≡ err (service_task_not_locked task_id)))
            ⊎ ((w : String) × (t.worker_id ≡ some w)
                × (w ≢ worker)
                × (r ≡ err (service_task_locked task_id w)))
            ⊎ ((t.worker_id ≡ some worker) × (r ≡ ok (after t)))))

-- The task stored under `task_id` is now `task`, and no other task has changed.
abbrev pub Replaces : Engine → ℕ → PendingServiceTask → Engine → Type 0
Replaces e task_id task e' =
    (j : ℕ)
    → get e'.pending_service_tasks j
      ≡ (if task_id == j then some task else get e.pending_service_tasks j)

-- The three cases of a worker's claim to a task.
owner-cases :
    (o : Option String) (worker : String)
    → (o ≡ none) ⊎ ((w : String) × (o ≡ some w) × (w ≢ worker)) ⊎ (o ≡ some worker)
owner-cases none worker = inl refl
owner-cases (some w) worker = elim (Bool-cases (w == worker)) [
  | inl e ↦ inr (inr (ap some ((string_eq.equal_iff w worker).0 e)))
  | inr e ↦ inr (inl (w, refl, (λ q. false≢true (sym e ∙ (string_eq.equal_iff w worker).1 q))))
]

-- An operation that looks the task up and verifies the lock first.
OwnerOnly-intro :
    (e : Engine) (task_id : ℕ) (worker : String) (after : PendingServiceTask → Engine)
    → OwnerOnly e task_id worker after (
        task_of e task_id >>= λ t. verify_lock_ownership task_id t.worker_id worker >> ok (after t))
unfolding verify_lock_ownership
OwnerOnly-intro e task_id worker after = elim (Option-cases (get e.pending_service_tasks task_id)) [
  | inl n ↦ inl (n, rw n refl)
  | inr (t, s) ↦ elim (owner-cases t.worker_id worker) [
    | inl n ↦ inr (t, s, inl (n, ground arith))
    | inr (inl (w, h, ne)) ↦
        inr (t, s, inr (inl (w, h, ne, ground (arith, string_eq.equal_iff w worker))))
    | inr (inr h) ↦ inr (t, s, inr (inr (h, ground (arith, string_eq.equal_iff worker worker))))
  ]
]

insert-Replaces :
    (e : Engine) (task_id : ℕ) (task : PendingServiceTask)
    → Replaces e task_id task (set_task e task_id task)
insert-Replaces e task_id task j = get-insert e.pending_service_tasks task_id j task

pub after_failure-Replaces :
    (e : Engine) (task_id : ℕ) (failed : PendingServiceTask)
    → Replaces e task_id failed (after_failure e task_id failed)
unfolding after_failure
after_failure-Replaces e task_id failed =
    subst
      (λ m.
        (j : ℕ) → get m j ≡ (if task_id == j then some failed else get e.pending_service_tasks j))
      (ground arith) (insert-Replaces e task_id failed)

-- A failure report succeeds exactly for the worker that holds the task, and is refused with the fitting
-- error for an unknown task, an unlocked one and another worker's. A success stores the task unlocked,
-- with the retries that the worker gave (one less than before if it gave none) and the error of the
-- report, and changes no other task.
pub fail_service_task_lem :
    (e : Engine) (task_id : ℕ) (worker : String) (retries : Option ℤ)
    (message details : Option String)
    → OwnerOnly e task_id worker
        (λ t. after_failure e task_id (failed_task t retries message details))
        (fail_service_task e task_id worker retries message details)
      × ((t : PendingServiceTask)
          → let failed = failed_task t retries message details in
            Replaces e task_id failed (after_failure e task_id failed))
unfolding fail_service_task
fail_service_task_lem e task_id worker retries message details = (
  OwnerOnly-intro e task_id worker
      (λ t. after_failure e task_id (failed_task t retries message details)),
  (λ t. after_failure-Replaces e task_id (failed_task t retries message details)),
)

-- Extending a lock succeeds exactly for the worker that holds the task, also when its lock has run out
-- already, with the same refusals as a failure report. A success moves the task's expiration and changes
-- no other task.
pub extend_lock_lem :
    (now : ℕ) (e : Engine) (task_id : ℕ) (worker : String) (duration : ℤ)
    → let after = λ (t : PendingServiceTask).
      perform
        (set_task e task_id (extended_task now t duration))
        (persist_service_task task_id ∷ []) in
      OwnerOnly e task_id worker after (extend_lock now e task_id worker duration)
      × ((t : PendingServiceTask) → Replaces e task_id (extended_task now t duration) (after t))
unfolding extend_lock
extend_lock_lem now e task_id worker duration = (
  OwnerOnly-intro e task_id worker (λ t.
      perform (set_task e task_id (extended_task now t duration))
        (persist_service_task task_id ∷ [])),
  (λ t. insert-Replaces e task_id (extended_task now t duration)),
)

after_retry-Replaces :
    (e : Engine) (task_id : ℕ) (retried : PendingServiceTask)
    → Replaces e task_id retried (after_retry e task_id retried)
unfolding after_retry
after_retry-Replaces e task_id retried =
    subst
      (λ m.
        (j : ℕ) → get m j ≡ (if task_id == j then some retried else get e.pending_service_tasks j))
      (ground arith) (insert-Replaces e task_id retried)

-- Retrying succeeds exactly for a stored task without retries left, whoever holds it; it makes the task
-- unlocked and free of errors, with the given retries or three, and changes no other task. It is refused
-- for an unknown task and for one that has retries left.
pub retry_incident_lem :
    (e : Engine) (task_id : ℕ) (new_retries : Option ℤ)
    → let r = retry_incident e task_id new_retries in
      ((get e.pending_service_tasks task_id ≡ none) × (r ≡ err (service_task_not_found task_id)))
      ⊎ ((t : PendingServiceTask) × (get e.pending_service_tasks task_id ≡ some t)
          × (((is_nonpositive t.retries ≡ false)
                × (r ≡ err (invalid_definition "Task is not an incident (retries > 0)")))
              ⊎ ((is_nonpositive t.retries ≡ true)
                  × (r ≡ ok (after_retry e task_id (retried_task t new_retries)))
                  × Replaces e task_id
                      (retried_task t new_retries)
                      (after_retry e task_id (retried_task t new_retries)))))
unfolding retry_incident
retry_incident_lem e task_id new_retries =
    elim (Option-cases (get e.pending_service_tasks task_id)) [
      | inl n ↦ inl (n, rw n refl)
      | inr (t, s) ↦ inr (
        t,
        s,
        elim (Bool-cases (is_nonpositive t.retries)) [
          | inl h ↦
              inr (h, ground arith, after_retry-Replaces e task_id (retried_task t new_retries))
          | inr h ↦ inl (h, ground arith)
        ],
      )
    ]
