-- ===== src/RetryQueue/Attempts.antt =====
-- How the attempts at one job end.
use mini_bpm_engine.Prelude.{
  ℕ, zero, suc, ◌+◌, ◌*◌, ◌≤◌, ◌<◌, min, ◌≡◌, ◌⊎◌, inl, inr, refl, subst, String, List, ◌∷◌, length,
  leb, All, Bool-cases, arith,
}
use mini_bpm_engine.Engine.{Engine}
use mini_bpm_engine.RetryQueue.{
  max_retries, initial_backoff_ms, max_backoff_ms, PersistJob, Call, Attempt, succeeded, failed,
  Ending, done_at, gave_up, attempt_at, retry_loop, retry_job,
}

abbrev pub HasFailed : Attempt → Type 0
HasFailed a = (error : String) × (a ≡ failed error)

attempt-cases : (a : Attempt) → (a ≡ succeeded) ⊎ HasFailed a
attempt-cases succeeded = inl refl
attempt-cases (failed error) = inr (error, refl)

module _ {Entry : Type 0} (states : ℕ → Engine) (answers : ℕ → Call Entry → Attempt)
    (job : PersistJob Entry) where
  -- The first `n` attempts fail.
  abbrev pub FailsFor : ℕ → Type 0
  FailsFor zero = Unit {0}
  FailsFor (suc n) = FailsFor n × HasFailed (attempt_at states answers job (suc n))

  abbrev pub EndsRight : ℕ → Ending × List ℕ → Type 0
  EndsRight slept r =
      ((k : ℕ) × (r.0 ≡ done_at (suc k))
        × (suc k ≤ max_retries)
        × FailsFor k
        × (attempt_at states answers job (suc k) ≡ succeeded)
        × (slept + length r.1 ≡ k))
      ⊎ ((r.0 ≡ gave_up) × FailsFor max_retries × (slept + length r.1 + 1 ≡ max_retries))

  slept_once :
      (attempt backoff_ms : ℕ) (r : Ending × List ℕ)
      → EndsRight (suc attempt) r
      → EndsRight attempt (r.0, backoff_ms ∷ r.1)
  slept_once attempt backoff_ms r (inl (k, q, le, f, s, n)) = inl (k, q, le, f, s, omega arith)
  slept_once attempt backoff_ms r (inr (q, f, n)) = inr (q, f, omega arith)

  retry_loop-EndsRight :
      (fuel attempt backoff_ms : ℕ)
      → fuel + attempt ≡ max_retries
      → attempt < max_retries
      → FailsFor attempt
      → EndsRight attempt (retry_loop states answers job fuel attempt backoff_ms)
  unfolding retry_loop
  retry_loop-EndsRight zero attempt backoff_ms h lt f = absurd (omega arith)
  retry_loop-EndsRight (suc fuel) attempt backoff_ms h lt f =
      elim (attempt-cases (attempt_at states answers job (suc attempt))) [
        | inl s ↦ rw (s, retry_loop) (inl (attempt, refl, omega arith, f, s, omega arith))
        | inr (error, s) ↦ elim (Bool-cases (leb max_retries (suc attempt))) [
          | inl last ↦
              let q : suc attempt ≡ max_retries = ground arith in
              rw (s, retry_loop, last)
                (inr (refl, subst FailsFor q (f, (error, s)), omega (arith, q)))
          | inr more ↦
              rw (s, retry_loop, more)
                (slept_once attempt backoff_ms _ (
                  retry_loop-EndsRight fuel (suc attempt) (min (backoff_ms * 2) max_backoff_ms)
                    (omega arith) (ground arith) (f, (error, s))))
        ]
      ]

  -- Every pause is at least a second and at most a minute.
  abbrev pub InRange : ℕ → Type 0
  InRange ms = (initial_backoff_ms ≤ ms) × (ms ≤ max_backoff_ms)

  retry_loop-InRange :
      (fuel attempt backoff_ms : ℕ)
      → InRange backoff_ms
      → All InRange (retry_loop states answers job fuel attempt backoff_ms).1
  unfolding retry_loop
  retry_loop-InRange zero attempt backoff_ms h = tt
  retry_loop-InRange (suc fuel) attempt backoff_ms h =
      elim (attempt-cases (attempt_at states answers job (suc attempt))) [
        | inl s ↦ rw (s, retry_loop) tt
        | inr (error, s) ↦ elim (Bool-cases (leb max_retries (suc attempt))) [
          | inl last ↦ rw (s, retry_loop, last) tt
          | inr more ↦
              rw (s, retry_loop, more)
                (
                  h,
                  retry_loop-InRange fuel (suc attempt) (min (backoff_ms * 2) max_backoff_ms)
                      (ground arith, ground arith),
                )
        ]
      ]

  -- The attempts at a job end: with the first one that succeeds, at the latest the fiftieth, or, after fifty
  -- that failed, by giving up. Between two attempts the worker sleeps once, and each time at least a
  -- second and at most a minute. The fuel of the model is never used up.
  pub retry_job-EndsRight :
      EndsRight 0 (retry_job states answers job) × All InRange (retry_job states answers job).1
  retry_job-EndsRight = (
    retry_loop-EndsRight max_retries 0 initial_backoff_ms refl (omega arith) tt,
    retry_loop-InRange max_retries 0 initial_backoff_ms (omega arith, omega arith),
  )
