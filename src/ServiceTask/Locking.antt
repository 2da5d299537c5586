-- ===== src/ServiceTask/Locking.antt =====
-- What a fetch of service tasks hands out.
use mini_bpm_engine.Prelude.{
  ℕ, suc, String, ◌≡◌, ◌≢◌, refl, sym, ◌∙◌, true, false, List, [], ◌∷◌, All, leb, Bool-cases, inl,
  inr, arith, string_eq,
}
use mini_bpm_engine.Prelude.Keyed.{IsKeyed}
use mini_bpm_engine.Prelude.Int.{ℤ}
use mini_bpm_engine.Runtime.Pending.{PendingServiceTask}
use mini_bpm_engine.ServiceTask.{Tasks, is_available, lock, fetch_loop}

-- Every task is stored under its own identifier, and under no other.
abbrev pub DistinctIds : Tasks → Type 0
DistinctIds = IsKeyed (λ t. t.id)

module _ (now : ℕ) (worker : String) (max : ℕ) (topics : List String) (duration : ℤ) where
  pub fetch_full :
      (taken id : ℕ) (task : PendingServiceTask) (rest : Tasks)
      → leb max taken ≡ true
      → fetch_loop now worker max topics duration taken ((id, task) ∷ rest)
        ≡ ((id, task) ∷ rest, [])
  unfolding fetch_loop
  fetch_full taken id task rest h = ground arith

  pub fetch_none :
      (taken : ℕ) (tasks : Tasks)
      → leb max taken ≡ true
      → (fetch_loop now worker max topics duration taken tasks).1 ≡ []
  unfolding fetch_loop
  fetch_none taken [] h = refl
  fetch_none taken ((id, task) ∷ rest) h = ground arith

  pub fetch_take :
      (taken id : ℕ) (task : PendingServiceTask) (rest : Tasks)
      → leb max taken ≡ false
      → is_available now topics task ≡ true
      → fetch_loop now worker max topics duration taken ((id, task) ∷ rest) ≡ (
        (id, lock now worker duration task)
            ∷ (fetch_loop now worker max topics duration (suc taken) rest).0,
        lock now worker duration task
            ∷ (fetch_loop now worker max topics duration (suc taken) rest).1,
      )
  unfolding fetch_loop
  fetch_take taken id task rest h a = ground arith

  pub fetch_skip :
      (taken id : ℕ) (task : PendingServiceTask) (rest : Tasks)
      → leb max taken ≡ false
      → is_available now topics task ≡ false
      → fetch_loop now worker max topics duration taken ((id, task) ∷ rest) ≡ (
        (id, task) ∷ (fetch_loop now worker max topics duration taken rest).0,
        (fetch_loop now worker max topics duration taken rest).1,
      )
  unfolding fetch_loop
  fetch_skip taken id task rest h a = ground arith

  -- What is true of every key of the map, and of the identifier that it stands for, is true of every
  -- result.
  pub fetch_ids :
      (k taken : ℕ) (tasks : Tasks)
      → DistinctIds tasks
      → All (λ p. p.0 ≢ k) tasks
      → All (λ t. t.id ≢ k) (fetch_loop now worker max topics duration taken tasks).1
  unfolding fetch_loop
  fetch_ids k taken [] d h = tt
  fetch_ids k taken ((id, task) ∷ rest) d h = elim (Bool-cases (leb max taken)) [
    | inl full ↦ rw (fetch_full taken id task rest full) tt
    | inr more ↦ elim (Bool-cases (is_available now topics task)) [
      | inl a ↦
          rw (fetch_take taken id task rest more a)
            ((λ e. h.0 (sym d.0 ∙ e)), fetch_ids k (suc taken) rest d.2 h.1)
      | inr a ↦ rw (fetch_skip taken id task rest more a) (fetch_ids k taken rest d.2 h.1)
    ]
  ]

  pub fetch_keys :
      (k taken : ℕ) (tasks : Tasks)
      → All (λ p. p.0 ≢ k) tasks
      → All (λ p. p.0 ≢ k) (fetch_loop now worker max topics duration taken tasks).0
  unfolding fetch_loop
  fetch_keys k taken [] h = tt
  fetch_keys k taken ((id, task) ∷ rest) h = elim (Bool-cases (leb max taken)) [
    | inl full ↦ rw (fetch_full taken id task rest full) h
    | inr more ↦ elim (Bool-cases (is_available now topics task)) [
      | inl a ↦ rw (fetch_take taken id task rest more a) (h.0, fetch_keys k (suc taken) rest h.1)
      | inr a ↦ rw (fetch_skip taken id task rest more a) (h.0, fetch_keys k taken rest h.1)
    ]
  ]

  pub fetch-DistinctIds :
      (taken : ℕ) (tasks : Tasks)
      → DistinctIds tasks
      → DistinctIds (fetch_loop now worker max topics duration taken tasks).0
  unfolding fetch_loop
  fetch-DistinctIds taken [] d = tt
  fetch-DistinctIds taken ((id, task) ∷ rest) d = elim (Bool-cases (leb max taken)) [
    | inl full ↦ rw (fetch_full taken id task rest full) d
    | inr more ↦ elim (Bool-cases (is_available now topics task)) [
      | inl a ↦
          rw (fetch_take taken id task rest more a)
            (d.0, fetch_keys id (suc taken) rest d.1, fetch-DistinctIds (suc taken) rest d.2)
      | inr a ↦
          rw (fetch_skip taken id task rest more a)
            (d.0, fetch_keys id taken rest d.1, fetch-DistinctIds taken rest d.2)
    ]
  ]
