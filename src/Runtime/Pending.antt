-- ===== src/Runtime/Pending.antt =====
-- engine-core/src/runtime/pending.rs: the wait states. Times are nanoseconds, as in Domain/Timer.
use mini_bpm_engine.Prelude.{ℕ, String, Option}
use mini_bpm_engine.Prelude.Int.{ℤ}
use mini_bpm_engine.Domain.Json.{Variables}
use mini_bpm_engine.Domain.Timer.{TimerDefinition}

pub record PendingUserTask : Type 0 where
  pub task_id : ℕ
  pub instance_id : ℕ
  pub node_id : String
  pub assignee : String
  pub token_id : ℕ
  pub created_at : ℕ
  pub business_key : Option String

pub record PendingServiceTask : Type 0 where
  pub id : ℕ
  pub instance_id : ℕ
  pub definition_key : ℕ
  pub node_id : String
  pub topic : String
  pub token_id : ℕ
  pub business_key : Option String
  pub variables_snapshot : Variables
  pub created_at : ℕ
  pub worker_id : Option String
  pub lock_expiration : Option ℕ
  pub retries : ℤ  -- i32
  pub error_message : Option String
  pub error_details : Option String

pub record PendingTimer : Type 0 where
  pub id : ℕ
  pub instance_id : ℕ
  pub node_id : String
  pub expires_at : ℕ
  pub token_id : ℕ
  pub timer_def : Option TimerDefinition
  pub remaining_repetitions : Option ℕ  -- u32

pub record PendingMessageCatch : Type 0 where
  pub id : ℕ
  pub instance_id : ℕ
  pub node_id : String
  pub message_name : String
  pub token_id : ℕ
