-- ===== src/ServiceTask/Automaton/Steps.antt =====
-- What each operation of engine-core/src/engine/service_task.rs does to the lock of one task.
use mini_bpm_engine.Prelude.{
  ℕ, String, ◌≡◌, inl, inr, refl, sym, ap, ◌∙◌, subst, Bool, true, false, ◌&&◌, Option, some, List,
  [], ◌∷◌, get, suc, leb, ◌==◌, if◌then◌else◌, Bool-cases, nat_eq, string_eq, arith,
}
use mini_bpm_engine.Prelude.Int.{ℤ}
use mini_bpm_engine.Domain.Error.{Result, ok, err, EngineError}
use mini_bpm_engine.Runtime.Pending.{PendingServiceTask}
use mini_bpm_engine.Engine.{Engine}
use mini_bpm_engine.ServiceTask.{Tasks, is_available, lock, fetch_loop, retry_incident}
use mini_bpm_engine.ServiceTask.Locking.{fetch_full, fetch_take, fetch_skip}
use mini_bpm_engine.ServiceTask.Ownership.{OwnerOnly, Replaces, retry_incident_lem}
use mini_bpm_engine.ServiceTask.Completion.{is_holder}
use mini_bpm_engine.ServiceTask.Automaton.{
  Lock, fetch, retry, lock_of, lock_of_found, lock_at, or_before, holds, Allows,
}

module _ (now : ℕ) (worker : String) (max : ℕ) (topics : List String) (duration : ℤ) (id : ℕ) where
  abbrev Fetched : Option PendingServiceTask → Option PendingServiceTask → Type 0
  Fetched before after =
      Allows id (fetch now worker max topics duration) (lock_of_found before) (lock_of_found after)

  past :
      (k : ℕ) (task : PendingServiceTask) (before after : Tasks)
      → Fetched (get before id) (get after id)
      → Fetched (get ((k, task) ∷ before) id) (get ((k, task) ∷ after) id)
  unfolding get
  past k task before after h = elim (Bool-cases (k == id)) [
    | inl hit ↦ rw (hit) (inl refl)
    | inr miss ↦ rw (miss) h
  ]

  taken_lock :
      (k : ℕ) (task : PendingServiceTask) (before after : Tasks)
      → is_available now topics task ≡ true
      → Fetched (get before id) (get after id)
      → Fetched (get ((k, task) ∷ before) id) (get ((k, lock now worker duration task) ∷ after) id)
  unfolding get
  taken_lock k task before after a h = elim (Bool-cases (k == id)) [
    | inl hit ↦ rw (hit) (inr (lock_of task, refl, ground arith, refl))
    | inr miss ↦ rw (miss) h
  ]

  pub loop-Fetched :
      (taken : ℕ) (tasks : Tasks)
      → Fetched (get tasks id) (get (fetch_loop now worker max topics duration taken tasks).0 id)
  unfolding fetch_loop
  loop-Fetched taken [] = inl refl
  loop-Fetched taken ((k, task) ∷ rest) = elim (Bool-cases (leb max taken)) [
    | inl full ↦
        subst (λ r. Fetched (get ((k, task) ∷ rest) id) (get r.0 id))
          (sym (fetch_full now worker max topics duration taken k task rest full)) (inl refl)
    | inr more ↦ elim (Bool-cases (is_available now topics task)) [
      | inl a ↦
          subst (λ r. Fetched (get ((k, task) ∷ rest) id) (get r.0 id))
            (sym (fetch_take now worker max topics duration taken k task rest more a))
            (taken_lock k task rest _ a (loop-Fetched (suc taken) rest))
      | inr a ↦
          subst (λ r. Fetched (get ((k, task) ∷ rest) id) (get r.0 id))
            (sym (fetch_skip now worker max topics duration taken k task rest more a))
            (past k task rest _ (loop-Fetched taken rest))
    ]
  ]

module _ (e : Engine) (task_id : ℕ) (worker : String) (f : PendingServiceTask → PendingServiceTask)
    (after : PendingServiceTask → Engine) (new : Lock) (id : ℕ) where
  -- What a report or an extension makes of the lock of `id`.
  abbrev IsUpdated : Result Engine → Type 0
  IsUpdated r =
      lock_at id (or_before e r)
      ≡ (if task_id == id && holds worker (lock_at id e) then some new else lock_at id e)

  update_if :
      (r : Result Engine) (b : Bool)
      → task_id == id && holds worker (lock_at id e) ≡ b
      → lock_at id (or_before e r) ≡ (if b then some new else lock_at id e)
      → IsUpdated r
  update_if r b is_b h = h ∙ sym (ap (λ c. if c then some new else lock_at id e) is_b)

  at_task : task_id == id ≡ true → holds worker (lock_at id e) ≡ holds worker (lock_at task_id e)
  at_task hit = ap (λ j. holds worker (lock_at j e)) (sym ((nat_eq.equal_iff task_id id).0 hit))

  refused :
      (r : Result Engine) (error : EngineError)
      → r ≡ err error
      → holds worker (lock_at task_id e) ≡ false
      → IsUpdated r
  refused r error failed other =
      update_if r false
        (elim (Bool-cases (task_id == id)) [
          | inl hit ↦ rw (hit) (at_task hit ∙ other)
          | inr miss ↦ rw (miss) refl
        ])
        (ap (λ x. lock_at id (or_before e x)) failed)

  granted :
      (r : Result Engine) (t : PendingServiceTask)
      → r ≡ ok (after t)
      → get e.pending_service_tasks task_id ≡ some t
      → t.worker_id ≡ some worker
      → Replaces e task_id (f t) (after t)
      → lock_of (f t) ≡ new
      → IsUpdated r
  granted r t passed found owned replaces becomes = elim (Bool-cases (task_id == id)) [
    | inl hit ↦
        update_if r true
          (rw (hit) (
            at_task hit
            ∙ ap (λ o. holds worker (lock_of_found o)) found
            ∙ ap (is_holder worker) owned
            ∙ (string_eq.equal_iff worker worker).1 refl))
          (stored ∙ rw (hit) (ap some becomes))
    | inr miss ↦ update_if r false (rw (miss) refl) (stored ∙ rw (miss) refl)
  ]
    where
      stored :
          lock_at id (or_before e r)
          ≡ lock_of_found (if task_id == id then some (f t) else get e.pending_service_tasks id)
      stored = ap (λ x. lock_at id (or_before e x)) passed ∙ ap lock_of_found (replaces id)

  pub owner_updates :
      (r : Result Engine)
      → OwnerOnly e task_id worker after r
      → ((t : PendingServiceTask) → Replaces e task_id (f t) (after t))
      → ((t : PendingServiceTask) → t.worker_id ≡ some worker → lock_of (f t) ≡ new)
      → IsUpdated r
  owner_updates r cases replaces becomes = elim cases [
    | inl (absent, failed) ↦ refused r _ failed (ap (λ o. holds worker (lock_of_found o)) absent)
    | inr (t, found, inl (free, failed)) ↦
        refused r _ failed
          (ap (λ o. holds worker (lock_of_found o)) found ∙ ap (is_holder worker) free)
    | inr (t, found, inr (inl (w, held, other, failed))) ↦ refused r _ failed (
        ap (λ o. holds worker (lock_of_found o)) found
        ∙ ap (is_holder worker) held
        ∙ ground (arith, string_eq.equal_iff w worker))
    | inr (t, found, inr (inr (held, passed))) ↦
        granted r t passed found held (replaces t) (becomes t held)
  ]

unchanged :
    (e : Engine) (id : ℕ) (r : Result Engine) (error : EngineError)
    → r ≡ err error
    → lock_at id (or_before e r) ≡ lock_at id e
unchanged e id r error failed = ap (λ x. lock_at id (or_before e x)) failed

pub retried :
    (e : Engine) (task_id : ℕ) (retries : Option ℤ) (id : ℕ)
    → Allows id
        (retry task_id retries)
        (lock_at id e)
        (lock_at id (or_before e (retry_incident e task_id retries)))
retried e task_id retries id = elim (retry_incident_lem e task_id retries) [
  | inl (absent, failed) ↦ inl (unchanged e id _ _ failed)
  | inr (t, found, inl (left, failed)) ↦ inl (unchanged e id _ _ failed)
  | inr (t, found, inr (incident, passed, replaces)) ↦
      let stored = ap (λ x. lock_at id (or_before e x)) passed ∙ ap lock_of_found (replaces id) in
      elim (Bool-cases (task_id == id)) [
        | inl hit ↦
            let q = (nat_eq.equal_iff task_id id).0 hit in
            inr (
              q,
              (λ gone.
                  let h = sym gone ∙ sym (ap (λ j. lock_at j e) q) ∙ ap lock_of_found found in cc),
              stored ∙ rw (hit) refl,
            )
        | inr miss ↦ inl (stored ∙ rw (miss) refl)
      ]
]
