-- ===== src/RetryQueue/Shutdown.antt =====
-- What a shutdown does to the queue.
use mini_bpm_engine.Prelude.{ℕ, suc, ◌≡◌, refl, false, List, [], ◌∷◌, ◌++◌, length, All, arith}
use mini_bpm_engine.Engine.{Engine}
use mini_bpm_engine.RetryQueue.{PersistJob, shutdown, Call, Attempt, is_shutdown, run_worker}

module _ {Entry : Type 0} where
  -- The worker works on every job that was queued before a shutdown and on none behind it.
  pub run_worker_stops :
      (states : ℕ → ℕ → Engine) (answers : ℕ → ℕ → Call Entry → Attempt)
      (jobs later : List (PersistJob Entry))
      → All (λ job. is_shutdown job ≡ false) jobs
      → (run_worker states answers (jobs ++ shutdown ∷ later) ≡ run_worker states answers jobs)
        × (length (run_worker states answers jobs) ≡ length jobs)
  unfolding run_worker
  run_worker_stops states answers [] later h = (refl, refl)
  run_worker_stops states answers (job ∷ jobs) later h =
      let ih = run_worker_stops (λ k. states (suc k)) (λ k. answers (suc k)) jobs later h.1 in
      ground (arith, ih)
