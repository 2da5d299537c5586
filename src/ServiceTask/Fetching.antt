-- ===== src/ServiceTask/Fetching.antt =====
-- What `fetch_and_lock_service_tasks` returns, and what it leaves in the store.
use mathlib.Core.List.{Memᴰ}
use mathlib.Core.List.Memᴰ.{not-nil, cases_cons}
use mathlib.Core.Bool.{false≢true}
use mini_bpm_engine.Prelude.{
  ℕ, suc, ◌+◌, ◌≤◌, ◌<◌, String, ◌≡◌, ◌≢◌, refl, sym, ap, ◌∙◌, subst, true, false, some, List, [],
  ◌∷◌, values, length, get, All, All-map, All-zip, leb, Bool-cases, inl, inr, ◌⊎◌, All-of_mem,
  arith, nat_eq,
}
use mini_bpm_engine.Prelude.Int.{ℤ}
use mini_bpm_engine.Runtime.Pending.{PendingServiceTask}
use mini_bpm_engine.Engine.{Engine}
use mini_bpm_engine.ServiceTask.{
  Tasks, is_available, lock, fetch_loop, fetch_and_lock_service_tasks,
}
use mini_bpm_engine.ServiceTask.Locking.{DistinctIds, fetch_full, fetch_take, fetch_skip, fetch_ids}

module _ (now : ℕ) (worker : String) (max : ℕ) (topics : List String) (duration : ℤ) where
  abbrev loop : ℕ → Tasks → Tasks × List PendingServiceTask
  loop = fetch_loop now worker max topics duration

  abbrev locked : PendingServiceTask → PendingServiceTask
  locked = lock now worker duration

  -- A result is an available task of the store, with the lock.
  abbrev pub IsLockedFrom : Tasks → PendingServiceTask → Type 0
  IsLockedFrom tasks t =
      (o : PendingServiceTask) × Memᴰ o (values tasks)
      × (is_available now topics o ≡ true)
      × (t ≡ locked o)

  length-loop :
      (taken : ℕ) (tasks : Tasks) → taken ≤ max → length (loop taken tasks).1 + taken ≤ max
  unfolding fetch_loop
  length-loop taken [] h = omega arith
  length-loop taken ((id, task) ∷ rest) h = elim (Bool-cases (leb max taken)) [
    | inl full ↦
        rw (fetch_full now worker max topics duration taken id task rest full) (omega arith)
    | inr more ↦ elim (Bool-cases (is_available now topics task)) [
      | inl a ↦
          rw (fetch_take now worker max topics duration taken id task rest more a)
            (ground (arith, length-loop (suc taken) rest))
      | inr a ↦
          rw (fetch_skip now worker max topics duration taken id task rest more a)
            (length-loop taken rest h)
    ]
  ]

  weaken :
      (id : ℕ) (task t : PendingServiceTask) (rest : Tasks)
      → IsLockedFrom rest t
      → IsLockedFrom ((id, task) ∷ rest) t
  weaken id task t rest (o, m, a, e) = (o, Memᴰ.tail m, a, e)

  loop-IsLockedFrom : (taken : ℕ) (tasks : Tasks) → All (IsLockedFrom tasks) (loop taken tasks).1
  unfolding fetch_loop
  loop-IsLockedFrom taken [] = tt
  loop-IsLockedFrom taken ((id, task) ∷ rest) = elim (Bool-cases (leb max taken)) [
    | inl full ↦ rw (fetch_full now worker max topics duration taken id task rest full) tt
    | inr more ↦ elim (Bool-cases (is_available now topics task)) [
      | inl a ↦
          subst (λ r. All (IsLockedFrom ((id, task) ∷ rest)) r.1)
            (sym (fetch_take now worker max topics duration taken id task rest more a))
            (
              (task, Memᴰ.head refl, a, refl),
              All-map (IsLockedFrom rest) (IsLockedFrom ((id, task) ∷ rest)) _
                  (λ t. weaken id task t rest) (loop-IsLockedFrom (suc taken) rest),
            )
      | inr a ↦
          subst (λ r. All (IsLockedFrom ((id, task) ∷ rest)) r.1)
            (sym (fetch_skip now worker max topics duration taken id task rest more a))
            (All-map (IsLockedFrom rest) (IsLockedFrom ((id, task) ∷ rest)) _
              (λ t. weaken id task t rest) (loop-IsLockedFrom taken rest))
    ]
  ]

  here :
      (id : ℕ) (task : PendingServiceTask) (rest : Tasks)
      → task.id ≡ id
      → get ((id, task) ∷ rest) task.id ≡ some task
  unfolding get
  here id task rest e = ground arith

  past :
      (id : ℕ) (task t : PendingServiceTask) (tasks : Tasks)
      → t.id ≢ id
      → get tasks t.id ≡ some t
      → get ((id, task) ∷ tasks) t.id ≡ some t
  unfolding get
  past id task t tasks ne h = ground arith

  behind :
      (taken id : ℕ) (task : PendingServiceTask) (rest : Tasks)
      → DistinctIds ((id, task) ∷ rest)
      → All (λ t. get (loop taken rest).0 t.id ≡ some t) (loop taken rest).1
      → All (λ t. get ((id, task) ∷ (loop taken rest).0) t.id ≡ some t) (loop taken rest).1
  behind taken id task rest d h =
      All-map (λ t. (t.id ≢ id) × (get (loop taken rest).0 t.id ≡ some t)) _ (loop taken rest).1
        (λ t k. past id task t (loop taken rest).0 k.0 k.1)
        (All-zip _ _ (loop taken rest).1
          (fetch_ids now worker max topics duration id taken rest d.2 d.1) h)

  -- With room left, every available task was taken.
  loop_takes :
      (taken : ℕ) (tasks : Tasks) (o : PendingServiceTask)
      → length (loop taken tasks).1 + taken < max
      → Memᴰ o (values tasks)
      → is_available now topics o ≡ true
      → Memᴰ (locked o) (loop taken tasks).1
  loop_takes taken [] o h m a = absurd (not-nil m)
  loop_takes taken ((id, task) ∷ rest) o h m a = elim (Bool-cases (is_available now topics task)) [
    | inl b ↦
        let e = fetch_take now worker max topics duration taken id task rest more b in
        subst (λ r. Memᴰ (locked o) r.1) (sym e)
          (elim (cases_cons m) [
            | inl q ↦ Memᴰ.head (ap locked q)
            | inr n ↦ Memᴰ.tail (
                loop_takes (suc taken) rest o
                  (omega (arith, subst (λ r. length r.1 + taken < max) e h)) n a)
          ])
    | inr b ↦
        let e = fetch_skip now worker max topics duration taken id task rest more b in
        subst (λ r. Memᴰ (locked o) r.1) (sym e)
          (elim (cases_cons m) [
            | inl q ↦ absurd (false≢true (sym b ∙ ap (is_available now topics) (sym q) ∙ a))
            | inr n ↦ loop_takes taken rest o (subst (λ r. length r.1 + taken < max) e h) n a
          ])
  ]
    where
      more : leb max taken ≡ false
      more = ground arith

  loop_stores :
      (taken : ℕ) (tasks : Tasks)
      → DistinctIds tasks
      → All (λ t. get (loop taken tasks).0 t.id ≡ some t) (loop taken tasks).1
  unfolding fetch_loop
  loop_stores taken [] d = tt
  loop_stores taken ((id, task) ∷ rest) d = elim (Bool-cases (leb max taken)) [
    | inl full ↦ rw (fetch_full now worker max topics duration taken id task rest full) tt
    | inr more ↦ elim (Bool-cases (is_available now topics task)) [
      | inl a ↦
          subst (λ r. All (λ t. get r.0 t.id ≡ some t) r.1)
            (sym (fetch_take now worker max topics duration taken id task rest more a))
            (
              here id (locked task) (loop (suc taken) rest).0 d.0,
              behind (suc taken) id (locked task) rest d (loop_stores (suc taken) rest d.2),
            )
      | inr a ↦
          subst (λ r. All (λ t. get r.0 t.id ≡ some t) r.1)
            (sym (fetch_skip now worker max topics duration taken id task rest more a))
            (behind taken id task rest d (loop_stores taken rest d.2))
    ]
  ]

  room_or_full :
      (tasks : Tasks)
      → (length (loop 0 tasks).1 ≡ max)
        ⊎ All
            (λ o. (is_available now topics o ≡ false) ⊎ Memᴰ (locked o) (loop 0 tasks).1)
            (values tasks)
  room_or_full tasks = elim (Bool-cases (leb max (length (loop 0 tasks).1))) [
    | inl full ↦ inl (ground (arith, length-loop 0 tasks (omega arith)))
    | inr more ↦ inr (
        All-of_mem (values tasks) (λ o m. elim (Bool-cases (is_available now topics o)) [
          | inl a ↦ inr (loop_takes 0 tasks o (ground arith) m a)
          | inr a ↦ inl a
        ]))
  ]

-- A fetch hands out at most `max_tasks` tasks, each an available one (of a requested topic, unlocked or
-- with an expired lock) of the store, now locked for the worker until the duration is over; the store
-- holds each of them as handed out; and if fewer than `max_tasks` came back, no available task was
-- passed over. (Tasks are stored under their identifiers.)
pub fetch_and_lock_service_tasks_lem :
    (now : ℕ) (worker : String) (max : ℕ) (topics : List String) (duration : ℤ) (e : Engine)
    → DistinctIds e.pending_service_tasks
    → let tasks = e.pending_service_tasks in
      let (e', result) = fetch_and_lock_service_tasks now worker max topics duration e in
      (length result ≤ max)
      × All (IsLockedFrom now worker max topics duration tasks) result
      × All (λ t. get e'.pending_service_tasks t.id ≡ some t) result
      × ((length result ≡ max)
          ⊎ All
              (λ o. (is_available now topics o ≡ false) ⊎ Memᴰ (lock now worker duration o) result)
              (values tasks))
unfolding fetch_and_lock_service_tasks
fetch_and_lock_service_tasks_lem now worker max topics duration e d =
    let tasks = e.pending_service_tasks in
    (
      omega (arith, length-loop now worker max topics duration 0 tasks (omega arith)),
      loop-IsLockedFrom now worker max topics duration 0 tasks,
      loop_stores now worker max topics duration 0 tasks d,
      room_or_full now worker max topics duration tasks,
    )
