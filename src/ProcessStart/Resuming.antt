-- ===== src/ProcessStart/Resuming.antt =====
-- `resume_parent_if_needed` of engine-core/src/engine/process_start.rs: a completed instance and its parent.
-- `nested` is `run_instance_batch`.
use mini_bpm_engine.Prelude.{
  ℕ, String, Option, none, some, List, [], ◌∷◌, ◌&&◌, not, extend, ◌==◌, if◌then◌else◌, nat_eq,
  string_eq,
}
use mini_bpm_engine.Prelude.Text.{format}
use mini_bpm_engine.Domain.Error.{EngineError}
use mini_bpm_engine.Domain.Json.{Variables}
use mini_bpm_engine.Domain.Token.{Token}
use mini_bpm_engine.Domain.Definition.{ProcessDefinition}
use mini_bpm_engine.Runtime.AuditLog.{push_audit_log}
use mini_bpm_engine.Runtime.Instance.{
  InstanceState, running, waiting_on_call_activity, completed_with_error, ActiveToken,
  ProcessInstance,
}
use mini_bpm_engine.Engine.{record_history_event, persist_instance, call_activity_completed}
use mini_bpm_engine.Run.{
  Env, Run, pure, raise, ◌>>=◌, ◌>>◌, lift, effect, instance_at, write_instance, touch_instance,
  definition_at,
}
use mini_bpm_engine.Executor.Helpers.{resolve_next_target, find_boundary_error_event}
use mini_bpm_engine.Executor.Scripts.{try_end_scripts}

-- The child's variables reach the first active token at the called node, or the waiting token.
unfoldable pub resume_active :
    (called_node_id : String) → Variables → List ActiveToken → Option (Token × List ActiveToken)
resume_active called_node_id child_vars [] = none
resume_active called_node_id child_vars (at ∷ rest) =
    let later = resume_active called_node_id child_vars rest in
    if at.token.current_node == called_node_id && not at.completed
    then some (
      record at.token { variables = extend at.token.variables child_vars },
      record at { token = record at.token { variables = extend at.token.variables child_vars } }
          ∷ rest,
    )
    else elim later [ none ↦ none | some (t, ats) ↦ some (t, at ∷ ats) ]

-- `parent.state` is `WaitingOnCallActivity`: the token to resume and the parent as it is written.
unfoldable pub take_over : Variables → Token → ProcessInstance → Token × ProcessInstance
unfolding resume_active
take_over child_vars waiting parent =
    let resumed =
      push_audit_log (record parent { state = running })
        (format ("🔗 Call Activity '" ∷ parent.current_node ∷ "' completed successfully" ∷ [])) in
    elim (resume_active parent.current_node child_vars parent.active_tokens) [
      | some (t, ats) ↦ (t, record resumed { active_tokens = ats })
      | none ↦ (record waiting { variables = extend waiting.variables child_vars }, resumed)
    ]

abbrev pub waiting_token : InstanceState → Option Token
waiting_token (waiting_on_call_activity sub t) = some t
waiting_token _ = none

-- Where the parent goes on: a boundary event for the child's error, the next node, or nowhere.
pub data Resume : Type 0 where
  incident : (code : String) → Resume
  at_boundary : (bound_id : String) → Resume
  onward : Resume

unfoldable pub resume_of : ProcessDefinition → String → Option String → Resume
resume_of def called_node_id none = onward
resume_of def called_node_id (some code) =
    elim (find_boundary_error_event def called_node_id code) [
      | some boundary_id ↦ at_boundary boundary_id
      | none ↦ incident code
    ]

module _ (env : Env) (nested : ℕ → Token → Run (Unit {0})) where
  -- After the end scripts of the call activity.
  unfoldable pub resume_at :
      (parent_id completed_instance_id : ℕ)
      → ProcessDefinition
      → (called_node_id : String) → Token
      → Resume
      → Run (Unit {0})
  resume_at parent_id completed_instance_id def called_node_id token (incident code) = do
    write_instance parent_id (λ inst.
        push_audit_log
          (record inst { state = waiting_on_call_activity completed_instance_id token })
          (format (
            "💥 INCIDENT: Child "
            ∷ env.uuid_text completed_instance_id
            ∷ " failed with unhandled BPMN error '"
            ∷ code
            ∷ "'"
            ∷ [])))
    effect (persist_instance parent_id)
  resume_at parent_id completed_instance_id def called_node_id token (at_boundary bound_id) = do
    touch_instance parent_id (λ inst. record inst { current_node = bound_id })
    nested parent_id (record token { current_node = bound_id })
  resume_at parent_id completed_instance_id def called_node_id token onward = do
    next_node ← lift (resolve_next_target env.json def called_node_id token.variables)
    touch_instance parent_id (λ inst. record inst { current_node = next_node })
    nested parent_id (record token { current_node = next_node })

  unfoldable pub fail_parent :
      (parent_id : ℕ) (called_node_id : String) → EngineError → Run (Unit {0})
  fail_parent parent_id called_node_id e = do
    touch_instance parent_id (λ inst.
        push_audit_log
          (record inst {
            state = completed_with_error (format ("SCRIPT_ERROR:" ∷ called_node_id ∷ []));
          })
          (format (
            "💥 Script-Fehler im End-Listener der Call Activity '"
            ∷ called_node_id
            ∷ "': "
            ∷ env.error_text e
            ∷ [])))
    effect (persist_instance parent_id)
    raise e

  unfoldable pub resume_waiting :
      (parent_id completed_instance_id : ℕ)
      → Variables
      → (error_code : Option String) → ProcessInstance
      → Token
      → Run (Unit {0})
  resume_waiting parent_id completed_instance_id child_vars error_code parent waiting = do
    let called_node_id = parent.current_node
    write_instance parent_id (λ p. (take_over child_vars waiting p).1)
    effect (record_history_event parent_id call_activity_completed)
    def ← definition_at parent.definition_key
    s ← try_end_scripts env parent_id (take_over child_vars waiting parent).0 def called_node_id
    elim s.failure [
      | some e ↦ fail_parent parent_id called_node_id e
      | none ↦
          resume_at parent_id completed_instance_id def called_node_id s.token
            (resume_of def called_node_id error_code)
    ]

  unfoldable pub resume_parent_if_needed :
      (completed_instance_id : ℕ) (error_code : Option String) → Run (Unit {0})
  resume_parent_if_needed completed_instance_id error_code = do
    inst ← instance_at completed_instance_id
    elim inst.parent_instance_id [
      | none ↦ pure tt
      | some parent_id ↦ instance_at parent_id >>= λ parent. elim (waiting_token parent.state) [
        | none ↦ pure tt
        | some waiting ↦
            resume_waiting parent_id completed_instance_id inst.variables error_code parent waiting
      ]
    ]
