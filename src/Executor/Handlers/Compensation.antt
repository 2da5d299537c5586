-- ===== src/Executor/Handlers/Compensation.antt =====
-- Compensation in engine-core/src/engine/handlers/events.rs. `nested` is `run_instance_batch`.
pub mod Order
use mini_bpm_engine.Prelude.{
  ℕ, String, Bool, true, false, not, Option, none, some, List, [], ◌∷◌, ◌++◌, length, filter, get,
  ◌==◌, if◌then◌else◌, nat_eq, string_eq,
}
use mini_bpm_engine.Prelude.Text.{format, decimal}
use mini_bpm_engine.Domain.Json.{Variables}
use mini_bpm_engine.Domain.Token.{Token, with_variables}
use mini_bpm_engine.Domain.Definition.{ProcessDefinition, get_node}
use mini_bpm_engine.Runtime.Action.{NextAction, continue, complete}
use mini_bpm_engine.Runtime.AuditLog.{push_audit_log}
use mini_bpm_engine.Runtime.Instance.{CompensationRecord, ProcessInstance}
use mini_bpm_engine.Engine.{record_history_event, compensation_triggered}
use mini_bpm_engine.Run.{
  Env, Run, pure, ◌>>=◌, ◌>>◌, reads, lift, ask, effect, instance_at, write_instance,
  touch_instance,
}
use mini_bpm_engine.Executor.Helpers.{resolve_next_target, find_compensation_handler}
use mini_bpm_engine.Executor.Scripts.{run_end_scripts}
use mini_bpm_engine.Executor.Handlers.{at_node}

unfoldable pub register_compensation_handler :
    (instance_id : ℕ) (activity_id : String) → ProcessDefinition → Run (Unit {0})
register_compensation_handler instance_id activity_id def =
    elim (find_compensation_handler def activity_id) [
      | none ↦ pure tt
      | some handler_node ↦ touch_instance instance_id (λ inst.
          push_audit_log
            (record inst {
              compensation_log =
                  inst.compensation_log
                  ++ record { activity_id = activity_id; handler_node_id = handler_node } ∷ [];
            })
            (format (
              "♻ Registered compensation handler '" ∷ handler_node ∷ "' for activity '"
              ∷ activity_id ∷ "'" ∷ [])))
    ]

unfoldable pub reverse_onto {ℓ} : {A : Type ℓ} → List A → List A → List A
reverse_onto acc [] = acc
reverse_onto acc (x ∷ xs) = reverse_onto (x ∷ acc) xs

-- The records that are compensated, in the order of execution, and those that remain.
unfoldable pub to_compensate : Option String → List CompensationRecord → List CompensationRecord
unfolding reverse_onto
to_compensate (some target_activity) log = filter (λ r. r.activity_id == target_activity) log
to_compensate none log = reverse_onto [] log

unfoldable pub not_compensated : Option String → List CompensationRecord → List CompensationRecord
not_compensated (some target_activity) log =
    filter (λ r. not (r.activity_id == target_activity)) log
not_compensated none log = []

abbrev variables_or : Variables → Option ProcessInstance → Variables
variables_or variables none = variables
variables_or variables (some inst) = inst.variables

module _ (env : Env) (nested : ℕ → Token → Run (Unit {0})) (instance_id : ℕ)
    (def_clone : ProcessDefinition) where
  unfoldable pub run_handlers : List CompensationRecord → Token → Run Token
  run_handlers [] token = pure token
  run_handlers (r ∷ rest) token = elim (get_node def_clone r.handler_node_id) [
    | none ↦ run_handlers rest token
    | some node ↦
        ask (λ n. with_variables (env.uuid n) r.handler_node_id token.variables)
        >>= λ handler_token.
            nested instance_id handler_token
            >> (reads (λ e. variables_or token.variables (get e.instances instance_id))
                >>= λ variables. run_handlers rest (record token { variables = variables }))
  ]

  unfoldable pub handle_compensation_throw_event :
      Token
      → (current_id : String) (activity_ref : Option String) (is_end_event : Bool) → Run NextAction
  handle_compensation_throw_event token current_id activity_ref is_end_event = do
    after ← run_end_scripts env instance_id token def_clone current_id
    inst ← instance_at instance_id
    let handlers = to_compensate activity_ref inst.compensation_log
    let handler_count = decimal (length handlers)
    write_instance instance_id (λ i.
        record (push_audit_log i (
          format (
            "♻ Compensation triggered at '" ∷ current_id ∷ "' — " ∷ handler_count
            ∷ " handler(s) to execute" ∷ []))) { current_node = current_id })
    effect (record_history_event instance_id compensation_triggered)
    compensated ← run_handlers handlers after
    write_instance instance_id (λ i.
        push_audit_log
          (record i { compensation_log = not_compensated activity_ref i.compensation_log })
          (format ("♻ Compensation completed — " ∷ handler_count ∷ " handler(s) executed" ∷ [])))
    if is_end_event
        then pure complete
        else lift (resolve_next_target env.json def_clone current_id compensated.variables)
          >>= λ next.
              write_instance instance_id (λ i. record i { current_node = next })
              >> pure (continue (record compensated { current_node = next }))
