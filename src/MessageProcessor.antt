-- ===== src/MessageProcessor.antt =====
-- `correlate_message` of engine-core/src/engine/message_processor.rs. `batch` is `run_instance_batch`.
use mini_bpm_engine.Prelude.{
  ℕ, String, Bool, true, false, ◌&&◌, Option, none, some, List, [], ◌∷◌, ◌++◌, Map, map, get,
  remove, extend, ◌==◌, if◌then◌else◌, nat_eq, string_eq,
}
use mini_bpm_engine.Prelude.Text.{format}
use mini_bpm_engine.Domain.Error.{invalid_definition, ok_or}
use mini_bpm_engine.Domain.Element.{BpmnElement, boundary_message_event, message_start_event}
use mini_bpm_engine.Domain.Json.{Variables}
use mini_bpm_engine.Domain.Token.{Token}
use mini_bpm_engine.Domain.Definition.{get_node, start_event}
use mini_bpm_engine.Runtime.AuditLog.{push_audit_log}
use mini_bpm_engine.Runtime.Instance.{ProcessInstance}
use mini_bpm_engine.Runtime.Pending.{PendingMessageCatch}
use mini_bpm_engine.Engine.{
  Engine, record_history_event, token_advanced, remove_persisted_message_catch, persist_instance,
}
use mini_bpm_engine.Run.{
  Env, Run, pure, raise, ◌>>=◌, ◌>>◌, reads, modify, attempt, lift, effect, instance_at,
  write_instance, touch_instance, definition_at, for_each,
}
use mini_bpm_engine.Registry.{Definitions, find_latest_by_bpmn_id}
use mini_bpm_engine.ProcessStart.{
  nil_uuid, spawn_call_activity, start_instance_with_variables_and_parent,
}
use mini_bpm_engine.Executor.Helpers.{resolve_next_target}
use mini_bpm_engine.WaitStates.{clear_wait_states_for_token, run_again, resumed_token}

abbrev pub key_matches : Option String → ProcessInstance → Bool
key_matches none inst = true
key_matches (some bk) inst = inst.business_key == bk

-- Whether the message reaches a catch. Suspension is not asked for.
abbrev pub is_reached : Engine → String → Option String → PendingMessageCatch → Bool
is_reached e message_name business_key catch =
    catch.message_name == message_name && (elim (get e.instances catch.instance_id) [
      | none ↦ false
      | some inst ↦ key_matches business_key inst
    ])

-- The catches that the message reaches, with their instances.
unfoldable pub reached :
    Engine
    → (message_name : String) (business_key : Option String) → Map ℕ PendingMessageCatch
    → List (ℕ × ℕ)
reached e message_name business_key [] = []
reached e message_name business_key ((key, catch) ∷ rest) =
    let later = reached e message_name business_key rest in
    if is_reached e message_name business_key catch
    then (catch.id, catch.instance_id) ∷ later
    else later

abbrev pub leaves_activity : Option BpmnElement → Bool
leaves_activity (some (boundary_message_event a m false)) = true
leaves_activity _ = false

abbrev pub starts_on : String → Option (String × BpmnElement) → Bool
starts_on name (some (id, message_start_event ref_msg)) = ref_msg == name
starts_on name _ = false

unfoldable pub defs_to_start : (message_name : String) → Definitions → List ℕ
defs_to_start name [] = []
defs_to_start name ((def_key, def) ∷ rest) =
    let later = defs_to_start name rest in
    if starts_on name (start_event def) then def_key ∷ later else later

module _ (env : Env) (batch : ℕ → Token → Run (Unit {0})) (message_name : String)
    (business_key : Option String) (variables : Variables) where
  -- A message of an event sub-process starts the sub-process.
  unfoldable pub start_event_subprocess : PendingMessageCatch → Run (Unit {0})
  start_event_subprocess catch = do
    child ← attempt (λ e.
        ok_or (find_latest_by_bpmn_id e.definitions catch.node_id)
          (invalid_definition (format ("Event Subprocess '" ∷ catch.node_id ∷ "' not found" ∷ []))))
    inst ← instance_at catch.instance_id
    spawn_call_activity env batch child.0 catch.instance_id (extend inst.variables variables)
        >>= λ child_id. effect (remove_persisted_message_catch catch.id)

  abbrev correlated_entry : PendingMessageCatch → String
  correlated_entry catch = format (
      "✉\u{fe0f} Msg '"
      ∷ message_name
      ∷ "' correlated, resuming '"
      ∷ env.uuid_text catch.id
      ∷ "'"
      ∷ [])

  unfoldable pub resume_catch : PendingMessageCatch → Run (Unit {0})
  resume_catch catch = do
    inst ← instance_at catch.instance_id
    def ← definition_at inst.definition_key
    stored ←
        resumed_token env catch.instance_id catch.token_id
          (leaves_activity (get_node def catch.node_id))
    let token = record stored { variables = extend stored.variables variables }
    write_instance catch.instance_id (λ i. push_audit_log (run_again i) (correlated_entry catch))
    effect (record_history_event catch.instance_id token_advanced)
    next ← lift (resolve_next_target env.json def catch.node_id token.variables)
    write_instance catch.instance_id (λ i. record i { current_node = next })
    effect (remove_persisted_message_catch catch.id)
    batch catch.instance_id (record token { current_node = next })

  unfoldable pub deliver : (catch_id : ℕ) → Run (Unit {0})
  deliver catch_id = reads (λ e. get e.pending_message_catches catch_id) >>= λ found. elim found [
    | none ↦ raise (
        invalid_definition
          (format ("Message catch " ∷ env.uuid_text catch_id ∷ " disappeared" ∷ [])))
    | some catch ↦
        modify
          (λ e. record e { pending_message_catches = remove e.pending_message_catches catch_id })
        >> clear_wait_states_for_token catch.instance_id catch.token_id
        >> (if catch.token_id == nil_uuid then start_event_subprocess catch else resume_catch catch)
  ]

  abbrev set_business_key : ℕ → Run (Unit {0})
  set_business_key new_id = elim business_key [
    | none ↦ pure tt
    | some bk ↦
        touch_instance new_id (λ inst. record inst { business_key = bk })
        >> effect (persist_instance new_id)
  ]

  unfoldable pub start_all : List ℕ → (affected_instances : List ℕ) → Run (List ℕ)
  start_all [] affected_instances = pure affected_instances
  start_all (def_key ∷ rest) affected_instances =
      start_instance_with_variables_and_parent env batch def_key variables none >>= λ new_id.
      set_business_key new_id >> start_all rest (affected_instances ++ new_id ∷ [])

  unfoldable pub correlate_message : Run (List ℕ)
  correlate_message = do
    to_resume ← reads (λ e. reached e message_name business_key e.pending_message_catches)
    for_each (map (λ r. r.0) to_resume) deliver
    starting ← reads (λ e. defs_to_start message_name e.definitions)
    start_all starting (map (λ r. r.1) to_resume)
