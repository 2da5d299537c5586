-- ===== src/Runtime/Instance.antt =====
-- engine-core/src/runtime/instance.rs: the state of a process instance.
use mini_bpm_engine.Prelude.{ℕ, String, Bool, true, false, Option, List, Map}
use mini_bpm_engine.Domain.Json.{Variables}
use mini_bpm_engine.Domain.Token.{Token}

pub data InstanceState : Type 0 where
  running : InstanceState
  waiting_on_user_task : (task_id : ℕ) → InstanceState
  waiting_on_service_task : (task_id : ℕ) → InstanceState
  waiting_on_timer : (timer_id : ℕ) → InstanceState
  waiting_on_message : (message_id : ℕ) → InstanceState
  waiting_on_event_based_gateway : InstanceState
  parallel_execution : (active_token_count : ℕ) → InstanceState
  waiting_on_call_activity : (sub_instance_id : ℕ) (token : Token) → InstanceState
  completed : InstanceState
  completed_with_error : (error_code : String) → InstanceState
  suspended : (previous_state : InstanceState) → InstanceState

-- `matches!(state, InstanceState::Suspended { .. })` and its like.
abbrev pub is_suspended : InstanceState → Bool
is_suspended (suspended s) = true
is_suspended _ = false

abbrev pub is_parallel : InstanceState → Bool
is_parallel (parallel_execution n) = true
is_parallel _ = false

pub record ActiveToken : Type 0 where
  pub token : Token
  pub fork_id : Option String
  pub branch_index : ℕ
  pub completed : Bool

pub record JoinBarrier : Type 0 where
  pub gateway_node_id : String
  pub expected_count : ℕ
  pub arrived_tokens : List Token

pub record MultiInstanceProgress : Type 0 where
  pub node_id : String
  pub total : ℕ
  pub completed : ℕ
  pub sequential_token : Option Token

pub record CompensationRecord : Type 0 where
  pub activity_id : String
  pub handler_node_id : String

pub record ProcessInstance : Type 0 where
  pub id : ℕ
  pub definition_key : ℕ
  pub business_key : String
  pub parent_instance_id : Option ℕ
  pub state : InstanceState
  pub current_node : String
  pub audit_log : List String
  pub variables : Variables
  pub tokens : Map ℕ Token
  pub active_tokens : List ActiveToken
  pub join_barriers : Map String JoinBarrier
  pub multi_instance_state : Map String MultiInstanceProgress
  pub compensation_log : List CompensationRecord
  pub started_at : Option ℕ
  pub completed_at : Option ℕ
