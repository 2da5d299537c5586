-- ===== src/ServiceTask/Exclusion.antt =====
-- Two workers never hold one service task.
use mini_bpm_engine.Prelude.{
  ℕ, suc, ◌<◌, String, ◌≡◌, ◌≢◌, sym, ap, ◌∙◌, subst, List, [], ◌∷◌, All, All-intro, All-map,
  All-zip, leb, Bool-cases, inl, inr, arith,
}
use mini_bpm_engine.Prelude.Int.{ℤ, add_seconds}
use mini_bpm_engine.Runtime.Pending.{PendingServiceTask}
use mini_bpm_engine.Engine.{Engine}
use mini_bpm_engine.ServiceTask.{
  Tasks, is_available, lock, fetch_loop, fetch_and_lock_service_tasks,
}
use mini_bpm_engine.ServiceTask.Locking.{
  DistinctIds, fetch_full, fetch_none, fetch_take, fetch_skip, fetch_ids, fetch_keys,
  fetch-DistinctIds,
}

-- No task of one list is a task of the other.
abbrev pub AreApart : List PendingServiceTask → List PendingServiceTask → Type 0
AreApart first second = All (λ t. All (λ u. u.id ≢ t.id) second) first

module _ (now : ℕ) (worker : String) (max : ℕ) (topics : List String) (duration : ℤ) (now' : ℕ)
    (worker' : String) (max' : ℕ) (topics' : List String) (duration' : ℤ)
    (held : now' < add_seconds now duration) where
  abbrev first : ℕ → Tasks → Tasks × List PendingServiceTask
  first = fetch_loop now worker max topics duration

  abbrev second : ℕ → Tasks → Tasks × List PendingServiceTask
  second = fetch_loop now' worker' max' topics' duration'

  -- A task that the first worker holds is passed over.
  second_skips :
      (taken' id : ℕ) (task : PendingServiceTask) (tasks : Tasks)
      → (second taken' ((id, lock now worker duration task) ∷ tasks)).1 ≡ (second taken' tasks).1
  second_skips taken' id task tasks = elim (Bool-cases (leb max' taken')) [
    | inl full ↦
        fetch_none now' worker' max' topics' duration' taken' _ full
        ∙ sym (fetch_none now' worker' max' topics' duration' taken' tasks full)
    | inr more ↦
        ap (λ r. r.1)
          (fetch_skip now' worker' max' topics' duration' taken' id (lock now worker duration task)
            tasks more (ground arith))
  ]

  -- A task that the first worker left is handed out at most under its own identifier.
  second_keeps :
      (taken' id : ℕ) (task : PendingServiceTask) (tasks : Tasks) (firsts : List PendingServiceTask)
      → All (λ t. t.id ≢ task.id) firsts
      → ((k : ℕ) → AreApart firsts (second k tasks).1)
      → AreApart firsts (second taken' ((id, task) ∷ tasks)).1
  second_keeps taken' id task tasks firsts other apart = elim (Bool-cases (leb max' taken')) [
    | inl full ↦
        rw (fetch_none now' worker' max' topics' duration' taken' ((id, task) ∷ tasks) full)
          (All-intro firsts (λ t. tt))
    | inr more ↦ elim (Bool-cases (is_available now' topics' task)) [
      | inl a ↦ rw (fetch_take now' worker' max' topics' duration' taken' id task tasks more a) (
          All-map _ _ firsts (λ t h. ((λ e. h.0 (sym e)), h.1))
            (All-zip _ _ firsts other (apart (suc taken'))))
      | inr a ↦
          rw (fetch_skip now' worker' max' topics' duration' taken' id task tasks more a)
            (apart taken')
    ]
  ]

  loops_apart :
      (taken taken' : ℕ) (tasks : Tasks)
      → DistinctIds tasks
      → AreApart (first taken tasks).1 (second taken' (first taken tasks).0).1
  unfolding fetch_loop
  loops_apart taken taken' [] d = tt
  loops_apart taken taken' ((id, task) ∷ rest) d = elim (Bool-cases (leb max taken)) [
    | inl full ↦ rw (fetch_full now worker max topics duration taken id task rest full) tt
    | inr more ↦ elim (Bool-cases (is_available now topics task)) [
      | inl a ↦ rw (fetch_take now worker max topics duration taken id task rest more a) (
          subst (λ us. AreApart (lock now worker duration task ∷ (first (suc taken) rest).1) us)
            (sym (second_skips taken' id task (first (suc taken) rest).0))
            (
              subst (λ k. All (λ u. u.id ≢ k) (second taken' (first (suc taken) rest).0).1)
                  (sym d.0)
                  (fetch_ids now' worker' max' topics' duration' id taken'
                    (first (suc taken) rest).0
                    (fetch-DistinctIds now worker max topics duration (suc taken) rest d.2)
                    (fetch_keys now worker max topics duration id (suc taken) rest d.1)),
              loops_apart (suc taken) taken' rest d.2,
            ))
      | inr a ↦ rw (fetch_skip now worker max topics duration taken id task rest more a) (
          second_keeps taken' id task (first taken rest).0 (first taken rest).1
            (subst (λ k. All (λ t. t.id ≢ k) (first taken rest).1) (sym d.0)
              (fetch_ids now worker max topics duration id taken rest d.2 d.1))
            (λ k. loops_apart taken k rest d.2))
    ]
  ]

-- Of two fetches, the later one before the locks of the earlier one run out, no task is handed out
-- twice, whoever asks, for whatever topics and for however long. (Tasks are stored under their
-- identifiers, as the engine inserts them.)
pub fetches_apart :
    (e : Engine) (now : ℕ) (worker : String) (max : ℕ) (topics : List String) (duration : ℤ)
    (now' : ℕ) (worker' : String) (max' : ℕ) (topics' : List String) (duration' : ℤ)
    → DistinctIds e.pending_service_tasks
    → now' < add_seconds now duration
    → let (e', result) = fetch_and_lock_service_tasks now worker max topics duration e in
      let (e'', result') = fetch_and_lock_service_tasks now' worker' max' topics' duration' e' in
      AreApart result result'
unfolding fetch_and_lock_service_tasks
fetches_apart e now worker max topics duration now' worker' max' topics' duration' d held =
    loops_apart now worker max topics duration now' worker' max' topics' duration' held 0 0
      e.pending_service_tasks d
