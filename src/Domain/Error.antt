-- ===== src/Domain/Error.antt =====
-- engine-core/src/domain/error.rs: the engine's errors and `EngineResult`.
use mini_bpm_engine.Prelude.{ℕ, String, Bool, true, false, Option, none, some}

pub data EngineError : Type 0 where
  invalid_definition : String → EngineError
  no_such_node : String → EngineError
  no_such_definition : ℕ → EngineError
  no_such_instance : ℕ → EngineError
  task_not_pending : (task_id : ℕ) (actual_state : String) → EngineError
  already_completed : EngineError
  timer_mismatch : (expected provided : ℕ) → EngineError
  no_matching_condition : String → EngineError
  service_task_not_found : ℕ → EngineError
  service_task_locked : (task_id : ℕ) (worker_id : String) → EngineError
  service_task_not_locked : ℕ → EngineError
  definition_has_instances : ℕ → EngineError
  orphaned_token : String → EngineError
  persistence_error : String → EngineError
  script_error : String → EngineError
  execution_limit_exceeded : String → EngineError
  instance_suspended : ℕ → EngineError

pub data Result {ℓ} (A : Type ℓ) : Type ℓ where
  ok : A → Result A
  err : EngineError → Result A

-- `if b { return Err(e) }`.
abbrev pub fail_if : Bool → EngineError → Result (Unit {0})
fail_if true e = err e
fail_if false e = ok tt

-- `ok_or(e)?`.
abbrev pub ok_or {ℓ} : {A : Type ℓ} → Option A → EngineError → Result A
ok_or none e = err e
ok_or (some a) e = ok a

-- `?` on a result that carries nothing.
infixl 5 ◌>>◌
abbrev pub ◌>>◌ {ℓ} : {B : Type ℓ} → Result (Unit {0}) → Result B → Result B
ok done >> next = next
err e >> next = err e

-- `?` on a result whose value is used.
infixl 5 ◌>>=◌
abbrev pub ◌>>=◌ {ℓ κ} : {A : Type ℓ} {B : Type κ} → Result A → (A → Result B) → Result B
err e >>= next = err e
ok a >>= next = next a
