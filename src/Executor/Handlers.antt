-- ===== src/Executor/Handlers.antt =====
-- What the handlers of engine-core/src/engine/handlers/ share. A handler leaves the token it got behind
-- `&mut`, but only the token's identifier is used afterwards, and no handler changes it.
pub mod Tasks
pub mod Gateways
pub mod Events
pub mod Compensation
pub mod SubProcesses
use mini_bpm_engine.Prelude.{
  ℕ, ◌+◌, String, Option, none, some, List, [], ◌∷◌, Map, length, insert, if◌then◌else◌, nat_eq,
}
use mini_bpm_engine.Prelude.Text.{is_empty}
use mini_bpm_engine.Domain.Token.{Token}
use mini_bpm_engine.Domain.Definition.{ProcessDefinition}
use mini_bpm_engine.Runtime.Instance.{ProcessInstance}
use mini_bpm_engine.Runtime.Pending.{PendingTimer, PendingMessageCatch}
use mini_bpm_engine.Runtime.AuditLog.{push_audit_log}
use mini_bpm_engine.Boundary.{setup_boundary_events}
use mini_bpm_engine.Engine.{Engine}
use mini_bpm_engine.Run.{Env, Run, ◌>>=◌, ◌>>◌, modify, ask, asked_for}

-- `self.pending_timers.insert(t.id, t)` for each timer, and the same for messages.
unfoldable pub insert_timers : Map ℕ PendingTimer → List PendingTimer → Map ℕ PendingTimer
insert_timers pending [] = pending
insert_timers pending (t ∷ timers) = insert_timers (insert pending t.id t) timers

unfoldable pub insert_catches :
    Map ℕ PendingMessageCatch → List PendingMessageCatch → Map ℕ PendingMessageCatch
insert_catches pending [] = pending
insert_catches pending (m ∷ catches) = insert_catches (insert pending m.id m) catches

abbrev pub with_wait_states : Engine → List PendingTimer × List PendingMessageCatch → Engine
with_wait_states e waits = record e {
  pending_timers = insert_timers e.pending_timers waits.0;
  pending_message_catches = insert_catches e.pending_message_catches waits.1;
}

-- `setup_boundary_events`, and its wait states inserted; the identifiers and times come from the world.
unfoldable pub arm_boundary_events :
    Env → ProcessDefinition → (current_id : String) (instance_id : ℕ) → Token → Run (Unit {0})
arm_boundary_events env def current_id instance_id token = do
  waits ← ask (λ n.
      setup_boundary_events env.cron (λ k. env.now (n + k)) (λ k. env.uuid (n + k)) def current_id
        instance_id token)
  asked_for (length waits.0 + length waits.1)
  modify (λ e. with_wait_states e waits)

-- The instance at a node, with an entry.
abbrev pub at_node : String → String → ProcessInstance → ProcessInstance
at_node current_id entry inst = push_audit_log (record inst { current_node = current_id }) entry

-- The same, with the token kept in the instance until the node is left.
abbrev pub parked : Token → String → String → ProcessInstance → ProcessInstance
parked token current_id entry inst =
    push_audit_log
      (record inst { current_node = current_id; tokens = insert inst.tokens token.id token }) entry

abbrev pub key_of : ProcessInstance → Option String
key_of inst = if is_empty inst.business_key then none else some inst.business_key
