-- ===== src/Boundary/Setup.antt =====
-- Which wait states a node's boundary events get.
use mini_bpm_engine.Prelude.{
  ℕ, suc, String, ◌≡◌, ◌≢◌, ◌⊎◌, inl, inr, refl, ap, Bool, none, some, List, [], ◌∷◌, Map, ◌==◌,
  Bool-cases, arith, string_eq,
}
use mini_bpm_engine.Domain.Token.{Token}
use mini_bpm_engine.Domain.Timer.{TimerDefinition, Cron}
use mini_bpm_engine.Domain.Element.{BpmnElement, boundary_timer_event, boundary_message_event}
use mini_bpm_engine.Domain.Definition.{ProcessDefinition, nodes}
use mini_bpm_engine.Runtime.Pending.{PendingTimer, PendingMessageCatch}
use mini_bpm_engine.Boundary.{
  timer_at, message_at, collect, pending_timers, pending_messages, setup_boundary_events,
}

-- The nodes with, in order, the wait state of each boundary event of the wanted kind at the node.
pub data Covers {W : Type 0} (IsFor : String × BpmnElement → W → Type 0)
    (IsOther : BpmnElement → Type 0) : Map String BpmnElement → List W → Type 0 where
  done : Covers IsFor IsOther [] []
  waits :
      {p : String × BpmnElement} {w : W} {ns : Map String BpmnElement} {ws : List W}
      → IsFor p w
      → Covers IsFor IsOther ns ws
      → Covers IsFor IsOther (p ∷ ns) (w ∷ ws)
  other :
      {p : String × BpmnElement} {ns : Map String BpmnElement} {ws : List W}
      → IsOther p.1
      → Covers IsFor IsOther ns ws
      → Covers IsFor IsOther (p ∷ ns) ws

module _ (attached : String) (instance_id : ℕ) (token : Token) where
  abbrev pub IsTimerFor : String × BpmnElement → PendingTimer → Type 0
  IsTimerFor (node_id, element) w =
      (t : TimerDefinition) × (cancel : Bool) × (element ≡ boundary_timer_event attached t cancel)
      × (w.timer_def ≡ some t)
      × (w.node_id ≡ node_id)
      × (w.instance_id ≡ instance_id)
      × (w.token_id ≡ token.id)

  abbrev pub IsMessageFor : String × BpmnElement → PendingMessageCatch → Type 0
  IsMessageFor (node_id, element) w =
      (cancel : Bool) × (element ≡ boundary_message_event attached w.message_name cancel)
      × (w.node_id ≡ node_id)
      × (w.instance_id ≡ instance_id)
      × (w.token_id ≡ token.id)

-- An element that is no boundary timer, or no boundary message, at the node.
abbrev pub NoTimerAt : String → BpmnElement → Type 0
NoTimerAt attached element =
    (t : TimerDefinition) (cancel : Bool) → element ≢ boundary_timer_event attached t cancel

abbrev pub NoMessageAt : String → BpmnElement → Type 0
NoMessageAt attached element =
    (message : String) (cancel : Bool) → element ≢ boundary_message_event attached message cancel

timer_at-cases :
    (attached : String) (element : BpmnElement)
    → ((t : TimerDefinition) × (cancel : Bool) × (element ≡ boundary_timer_event attached t cancel)
        × (timer_at attached element ≡ some t))
      ⊎ (NoTimerAt attached element × (timer_at attached element ≡ none))
unfolding timer_at
timer_at-cases attached (boundary_timer_event a t c) = elim (Bool-cases (a == attached)) [
  | inl e ↦ inl (
    t,
    c,
    ap (λ x. boundary_timer_event x t c) ((string_eq.equal_iff a attached).0 e),
    ground arith,
  )
  | inr e ↦ inr (
    (λ t' c' q. let r : a ≡ attached = cc in ground (arith, string_eq.equal_iff a attached)),
    ground arith,
  )
]
timer_at-cases attached _ = inr ((λ t c q. cc), refl)

message_at-cases :
    (attached : String) (element : BpmnElement)
    → ((m : String) × (cancel : Bool) × (element ≡ boundary_message_event attached m cancel)
        × (message_at attached element ≡ some m))
      ⊎ (NoMessageAt attached element × (message_at attached element ≡ none))
unfolding message_at
message_at-cases attached (boundary_message_event a m c) = elim (Bool-cases (a == attached)) [
  | inl e ↦ inl (
    m,
    c,
    ap (λ x. boundary_message_event x m c) ((string_eq.equal_iff a attached).0 e),
    ground arith,
  )
  | inr e ↦ inr (
    (λ m' c' q. let r : a ≡ attached = cc in ground (arith, string_eq.equal_iff a attached)),
    ground arith,
  )
]
message_at-cases attached _ = inr ((λ m c q. cc), refl)

module _ (cron : Cron) (attached : String) (instance_id : ℕ) (token : Token) where
  timers_cover :
      (clock uuids : ℕ → ℕ) (ns : Map String BpmnElement)
      → Covers
          (IsTimerFor attached instance_id token)
          (NoTimerAt attached)
          ns
          (pending_timers cron instance_id token clock uuids (collect (timer_at attached) ns))
  unfolding collect pending_timers
  timers_cover clock uuids [] = done
  timers_cover clock uuids ((node_id, element) ∷ ns) = elim (timer_at-cases attached element) [
    | inl (t, cancel, e, h) ↦
        rw (h, collect, pending_timers)
          (waits (t, cancel, e, refl, refl, refl, refl)
            (timers_cover (λ n. clock (suc n)) (λ n. uuids (suc n)) ns))
    | inr (differs, h) ↦ rw (h, collect) (other differs (timers_cover clock uuids ns))
  ]

  messages_cover :
      (uuids : ℕ → ℕ) (ns : Map String BpmnElement)
      → Covers
          (IsMessageFor attached instance_id token)
          (NoMessageAt attached)
          ns
          (pending_messages cron instance_id token uuids (collect (message_at attached) ns))
  unfolding collect pending_messages
  messages_cover uuids [] = done
  messages_cover uuids ((node_id, element) ∷ ns) = elim (message_at-cases attached element) [
    | inl (m, cancel, e, h) ↦
        rw (h, collect, pending_messages)
          (waits (cancel, e, refl, refl, refl) (messages_cover (λ n. uuids (suc n)) ns))
    | inr (differs, h) ↦ rw (h, collect) (other differs (messages_cover uuids ns))
  ]

-- Every boundary timer and every boundary message event that is attached to the node, whether it cancels
-- the activity or not, gets exactly one wait state, in the order of the nodes, for its own node, the
-- instance and the token; no other element of the definition gets one.
pub setup_boundary_events-Covers :
    (cron : Cron) (clock uuids : ℕ → ℕ) (def : ProcessDefinition) (attached : String)
    (instance_id : ℕ) (token : Token)
    → let (timers, messages) =
        setup_boundary_events cron clock uuids def attached instance_id token in
      Covers (IsTimerFor attached instance_id token) (NoTimerAt attached) (nodes def) timers
      × Covers (IsMessageFor attached instance_id token) (NoMessageAt attached) (nodes def) messages
unfolding setup_boundary_events
setup_boundary_events-Covers cron clock uuids def attached instance_id token = (
  timers_cover cron attached instance_id token clock uuids (nodes def),
  messages_cover cron attached instance_id token _ (nodes def),
)
