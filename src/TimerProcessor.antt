-- ===== src/TimerProcessor.antt =====
-- `process_timers` of engine-core/src/engine/timer_processor.rs: the sweep over the timers that have
-- expired. `batch` is `run_instance_batch`.
use mini_bpm_engine.Prelude.{
  ℕ, ◌-◌, String, Bool, true, false, ◌&&◌, not, Option, none, some, List, [], ◌∷◌, ◌++◌, Map,
  length, get, insert, remove, leb, ◌==◌, if◌then◌else◌, nat_eq, string_eq,
}
use mini_bpm_engine.Prelude.Text.{format}
use mini_bpm_engine.Domain.Error.{invalid_definition, ok_or}
use mini_bpm_engine.Domain.Element.{BpmnElement, boundary_timer_event}
use mini_bpm_engine.Domain.Timer.{next_expiry, is_recurring}
use mini_bpm_engine.Domain.Token.{Token}
use mini_bpm_engine.Domain.Definition.{ProcessDefinition, get_node}
use mini_bpm_engine.Runtime.Instance.{running, ProcessInstance}
use mini_bpm_engine.Runtime.Pending.{PendingTimer}
use mini_bpm_engine.Engine.{Engine, record_history_event, token_advanced, remove_persisted_timer}
use mini_bpm_engine.Run.{
  Env, Run, pure, raise, ◌>>=◌, ◌>>◌, reads, modify, attempt, lift, ask, effect, instance_at,
  write_instance, definition_at, for_each,
}
use mini_bpm_engine.Registry.{find_latest_by_bpmn_id}
use mini_bpm_engine.ProcessStart.{nil_uuid, spawn_call_activity}
use mini_bpm_engine.Executor.Helpers.{resolve_next_target}
use mini_bpm_engine.WaitStates.{clear_wait_states_for_token, is_instance_suspended, resumed_token}

-- The expired timers, without those of suspended instances.
unfoldable pub expired : Engine → (now : ℕ) → Map ℕ PendingTimer → List ℕ
expired e now [] = []
expired e now ((key, timer) ∷ rest) =
    let later = expired e now rest in
    if leb timer.expires_at now && not (is_instance_suspended e timer.instance_id)
    then timer.id ∷ later
    else later

abbrev pub leaves_activity : Option BpmnElement → Bool
leaves_activity (some (boundary_timer_event a t false)) = true
leaves_activity _ = false

-- `remaining_repetitions`: `Some(0)` ends the repetition, `saturating_sub(1)` counts it.
abbrev pub may_repeat : Option ℕ → Bool
may_repeat none = true
may_repeat (some n) = not (n == 0)

abbrev pub one_less : Option ℕ → Option ℕ
one_less none = none
one_less (some n) = some (n - 1)

-- The timer that follows a recurring one, at the time `now`.
unfoldable pub next_timer : Env → (now uuid : ℕ) → PendingTimer → Option PendingTimer
next_timer env now uuid timer = elim timer.timer_def [
  | none ↦ none
  | some def ↦
      if is_recurring def && may_repeat timer.remaining_repetitions
      then (elim (next_expiry env.cron def now) [
        | none ↦ none
        | some expires_at ↦ some (record {
          id = uuid;
          instance_id = timer.instance_id;
          node_id = timer.node_id;
          expires_at = expires_at;
          token_id = timer.token_id;
          timer_def = some def;
          remaining_repetitions = one_less timer.remaining_repetitions;
        })
      ])
      else none
]

module _ (env : Env) (batch : ℕ → Token → Run (Unit {0})) where
  -- A timer of an event sub-process starts the sub-process.
  unfoldable pub start_event_subprocess :
      (instance_id : ℕ) (child_bpmn_id : String) → Run (Unit {0})
  start_event_subprocess instance_id child_bpmn_id = do
    child ← attempt (λ e.
        ok_or (find_latest_by_bpmn_id e.definitions child_bpmn_id)
          (invalid_definition (format ("Event Subprocess '" ∷ child_bpmn_id ∷ "' not found" ∷ []))))
    inst ← instance_at instance_id
    spawn_call_activity env batch child.0 instance_id inst.variables >>= λ child_id. pure tt

  unfoldable pub reschedule : PendingTimer → Run (Unit {0})
  reschedule timer = do
    now ← ask env.now
    new_pending ← ask (λ n. next_timer env now (env.uuid n) timer)
    elim new_pending [
      | none ↦ pure tt
      | some p ↦ modify (λ e. record e { pending_timers = insert e.pending_timers p.id p })
    ]

  unfoldable pub resume_token : PendingTimer → ProcessDefinition → Run (Unit {0})
  resume_token timer def = do
    token ←
        resumed_token env timer.instance_id timer.token_id
          (leaves_activity (get_node def timer.node_id))
    next ← lift (resolve_next_target env.json def timer.node_id token.variables)
    write_instance timer.instance_id (λ inst. record inst { current_node = next })
    effect (remove_persisted_timer timer.id)
    batch timer.instance_id (record token { current_node = next })
    reschedule timer

  abbrev resumed_entry : PendingTimer → ProcessInstance → ProcessInstance
  resumed_entry timer inst = record inst {
    state = running;
    audit_log =
        inst.audit_log ++ format ("⏱ Timer '" ∷ timer.node_id ∷ "' expired, resuming" ∷ []) ∷ [];
  }

  -- A timer that has left the store.
  unfoldable pub fire_timer : PendingTimer → Run (Unit {0})
  fire_timer timer = do
    clear_wait_states_for_token timer.instance_id timer.token_id
    write_instance timer.instance_id (resumed_entry timer)
    inst ← instance_at timer.instance_id
    effect (record_history_event timer.instance_id token_advanced)
    if timer.token_id == nil_uuid
        then (start_event_subprocess timer.instance_id timer.node_id
            >> effect (remove_persisted_timer timer.id))
        else (definition_at inst.definition_key >>= λ def. resume_token timer def)

  unfoldable pub process_timer : (tid : ℕ) → Run (Unit {0})
  process_timer tid = reads (λ e. get e.pending_timers tid) >>= λ found. elim found [
    | none ↦
        raise (invalid_definition (format ("Timer " ∷ env.uuid_text tid ∷ " disappeared" ∷ [])))
    | some timer ↦
        modify (λ e. record e { pending_timers = remove e.pending_timers tid }) >> fire_timer timer
  ]

  unfoldable pub process_timers : Run ℕ
  process_timers = do
    now ← ask env.now
    tids ← reads (λ e. expired e now e.pending_timers)
    for_each tids process_timer
    pure (length tids)
