-- ===== src/Boundary.antt =====
-- engine-core/src/engine/boundary.rs: the wait states of the boundary events at a node.
-- `clock` lists what `Utc::now()` answers for each timer, `uuids` the identifiers that are drawn.
pub mod Setup
use mini_bpm_engine.Prelude.{
  ℕ, suc, ◌+◌, String, Option, none, some, List, [], ◌∷◌, Map, length, ◌==◌, if◌then◌else◌,
  string_eq,
}
use mini_bpm_engine.Domain.Token.{Token}
use mini_bpm_engine.Domain.Timer.{TimerDefinition, Cron, next_expiry}
use mini_bpm_engine.Domain.Element.{BpmnElement, boundary_timer_event, boundary_message_event}
use mini_bpm_engine.Domain.Definition.{ProcessDefinition, nodes}
use mini_bpm_engine.Runtime.Pending.{PendingTimer, PendingMessageCatch}

-- The two tests in the loop over the nodes.
unfoldable pub timer_at : String → BpmnElement → Option TimerDefinition
timer_at attached_node_id (boundary_timer_event attached_to timer cancel_activity) =
    if attached_to == attached_node_id then some timer else none
timer_at attached_node_id _ = none

unfoldable pub message_at : String → BpmnElement → Option String
message_at attached_node_id (boundary_message_event attached_to message_name cancel_activity) =
    if attached_to == attached_node_id then some message_name else none
message_at attached_node_id _ = none

-- `bounds_timers` and `bounds_msgs`.
unfoldable pub collect {ℓ} :
    {A : Type ℓ} → (BpmnElement → Option A) → Map String BpmnElement → List (String × A)
collect f [] = []
collect f ((node_id, node) ∷ rest) =
    let later = collect f rest in elim (f node) [ none ↦ later | some a ↦ (node_id, a) ∷ later ]

abbrev pub expiry_or_now : Option ℕ → ℕ → ℕ
expiry_or_now none now = now
expiry_or_now (some t) now = t

module _ (cron : Cron) (instance_id : ℕ) (token : Token) where
  unfoldable pub pending_timers :
      (clock uuids : ℕ → ℕ) → List (String × TimerDefinition) → List PendingTimer
  pending_timers clock uuids [] = []
  pending_timers clock uuids ((node_id, timer_def) ∷ rest) =
      record {
        id = uuids 0;
        instance_id = instance_id;
        node_id = node_id;
        expires_at = expiry_or_now (next_expiry cron timer_def (clock 0)) (clock 0);
        token_id = token.id;
        timer_def = some timer_def;
        remaining_repetitions = none;
      }
      ∷ pending_timers (λ n. clock (suc n)) (λ n. uuids (suc n)) rest

  unfoldable pub pending_messages :
      (uuids : ℕ → ℕ) → List (String × String) → List PendingMessageCatch
  pending_messages uuids [] = []
  pending_messages uuids ((node_id, message_name) ∷ rest) =
      record {
        id = uuids 0;
        instance_id = instance_id;
        node_id = node_id;
        message_name = message_name;
        token_id = token.id;
      }
      ∷ pending_messages (λ n. uuids (suc n)) rest

unfoldable pub setup_boundary_events :
    Cron
    → (clock uuids : ℕ → ℕ) → ProcessDefinition
    → (attached_node_id : String) (instance_id : ℕ) → Token
    → List PendingTimer × List PendingMessageCatch
unfolding timer_at message_at collect pending_timers pending_messages
setup_boundary_events cron clock uuids def attached_node_id instance_id token =
    let bounds_timers = collect (timer_at attached_node_id) (nodes def) in
    let bounds_msgs = collect (message_at attached_node_id) (nodes def) in
    (
      pending_timers cron instance_id token clock uuids bounds_timers,
      pending_messages cron instance_id token (λ n. uuids (length bounds_timers + n)) bounds_msgs,
    )
