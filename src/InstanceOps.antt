-- ===== src/InstanceOps.antt =====
-- engine-core/src/engine/instance_ops.rs: suspending and resuming an instance.
pub mod Suspension
pub mod Migration
pub mod Deletion
use mini_bpm_engine.Prelude.{ℕ, List, [], ◌∷◌}
use mini_bpm_engine.Domain.Error.{
  Result, ok, err, ◌>>=◌, ◌>>◌, already_completed, invalid_definition, instance_suspended,
}
use mini_bpm_engine.Runtime.Instance.{
  InstanceState, completed, completed_with_error, suspended, ProcessInstance,
}
use mini_bpm_engine.Runtime.AuditLog.{push_audit_log}
use mini_bpm_engine.Engine.{
  Engine, HistoryEventType, persist_instance, record_history_event, perform, instance_of,
  set_instance,
}

-- An instance that has ended or is suspended already is refused.
unfoldable pub check_suspendable : (instance_id : ℕ) → InstanceState → Result (Unit {0})
check_suspendable instance_id completed = err already_completed
check_suspendable instance_id (completed_with_error error_code) = err already_completed
check_suspendable instance_id (suspended previous_state) = err (instance_suspended instance_id)
check_suspendable instance_id _ = ok tt

abbrev pub suspended_instance : ProcessInstance → ProcessInstance
suspended_instance inst =
    push_audit_log (record inst { state = suspended inst.state }) "⏸ Instance suspended"

-- The end of both operations.
abbrev pub conclude : Engine → (instance_id : ℕ) → ProcessInstance → HistoryEventType → Engine
conclude e instance_id inst event =
    perform (set_instance e instance_id inst)
      (record_history_event instance_id event ∷ persist_instance instance_id ∷ [])

unfoldable pub suspend_instance : Engine → (instance_id : ℕ) → Result Engine
unfolding check_suspendable
suspend_instance e instance_id = do
  inst ← instance_of e instance_id
  check_suspendable instance_id inst.state
  ok (conclude e instance_id (suspended_instance inst) HistoryEventType.instance_suspended)

unfoldable pub previous : InstanceState → Result InstanceState
previous (suspended previous_state) = ok previous_state
previous _ = err (invalid_definition "Instance is not suspended")

abbrev pub resumed_instance : ProcessInstance → InstanceState → ProcessInstance
resumed_instance inst state = push_audit_log (record inst { state = state }) "▶ Instance resumed"

unfoldable pub resume_instance : Engine → (instance_id : ℕ) → Result Engine
unfolding previous
resume_instance e instance_id = do
  inst ← instance_of e instance_id
  state ← previous inst.state
  ok (conclude e instance_id (resumed_instance inst state) HistoryEventType.instance_resumed)
