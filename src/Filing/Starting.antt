-- ===== src/Filing/Starting.antt =====
-- Starting instances and resuming parents keep the invariant.
use mini_bpm_engine.Prelude.{ℕ, String, ◌≡◌, refl, Option-cases, inl, inr, Option}
use mini_bpm_engine.Prelude.Keyed.{insert-IsKeyed}
use mini_bpm_engine.Domain.Definition.{ProcessDefinition, event_listeners}
use mini_bpm_engine.Domain.Element.{ScopeEventListener, timer, message, error}
use mini_bpm_engine.Domain.Error.{EngineError}
use mini_bpm_engine.Domain.Json.{Variables}
use mini_bpm_engine.Domain.Token.{Token}
use mini_bpm_engine.Runtime.AuditLog.{push_audit_log}
use mini_bpm_engine.Runtime.Instance.{ProcessInstance}
use mini_bpm_engine.Run.{Env, Run}
use mini_bpm_engine.Run.Keeping.{
  Keeps, Keeps-pure, Keeps-ask, Keeps-option, Keeps-bind, Keeps-modify, Keeps-for_each,
}
use mini_bpm_engine.ProcessStart.{
  build_initial_instance, register_listener, start_instance_with_variables_and_parent,
  spawn_call_activity,
}
use mini_bpm_engine.ProcessStart.Resuming.{
  take_over, resume_active, Resume, incident, at_boundary, onward, resume_at, fail_parent,
  resume_of, resume_waiting, resume_parent_if_needed, waiting_token,
}
use mini_bpm_engine.Filing.{IsFiled, Keeps-effect, Keeps-write, filing}
use mini_bpm_engine.Filing.Handlers.{Keeps-try_end_scripts}

Keeps-listener :
    (env : Env) (instance_id : ℕ) (l : ScopeEventListener)
    → Keeps IsFiled (register_listener env instance_id l)
unfolding register_listener
Keeps-listener env instance_id (timer t i d) = Keeps-bind _ _ (Keeps-ask _) (λ now.
    Keeps-bind _ _ (Keeps-ask _) (λ id.
      Keeps-modify _
        (λ e h. (h.0, h.1, h.2, insert-IsKeyed (λ t. t.id) e.pending_timers id _ refl h.3, h.4))))
Keeps-listener env instance_id (message m i d) = Keeps-bind _ _ (Keeps-ask _) (λ id.
    Keeps-modify _ (λ e h.
      (h.0, h.1, h.2, h.3, insert-IsKeyed (λ m. m.id) e.pending_message_catches id _ refl h.4)))
Keeps-listener env instance_id (error c d) = Keeps-pure tt

take_over-id :
    (vars : Variables) (waiting : Token) (parent : ProcessInstance)
    → (take_over vars waiting parent).1.id ≡ parent.id
unfolding take_over push_audit_log
take_over-id vars waiting parent =
    elim (Option-cases (resume_active parent.current_node vars parent.active_tokens)) [
      | inl none_active ↦ rw (none_active, take_over) refl
      | inr (r, active) ↦ rw (active, take_over) refl
    ]

module _ (env : Env) (nested : ℕ → Token → Run (Unit {0}))
    (Keeps-nested : (instance_id : ℕ) (token : Token)
      → Keeps IsFiled (nested instance_id token)) where
  pub Keeps-start :
      (definition_key : ℕ) (variables : Variables) (parent : Option ℕ)
      → Keeps IsFiled
          (start_instance_with_variables_and_parent env nested definition_key variables parent)
  unfolding start_instance_with_variables_and_parent build_initial_instance
  Keeps-start definition_key variables parent = Keeps-bind _ _ (search (filing)) (λ r.
      Keeps-bind _ _ (Keeps-ask _) (λ instance_id. Keeps-bind _ _ (Keeps-ask _) (λ drawn.
        Keeps-bind _ _ (Keeps-ask _) (λ started_at.
          Keeps-bind _ _
            (Keeps-modify _ (λ e h.
              (insert-IsKeyed (λ i. i.id) e.instances instance_id _ refl h.0, h.1, h.2, h.3, h.4)))
            (λ u. Keeps-bind _ _ (Keeps-effect _) (λ u. Keeps-bind _ _ (Keeps-ask _) (λ token.
              Keeps-bind _ _
                (Keeps-for_each (event_listeners r.0) _ (Keeps-listener env instance_id))
                (λ u. search (filing, Keeps-nested) depth 30))))))))

  pub Keeps-spawn :
      (child_def_key parent_instance_id : ℕ) (variables : Variables)
      → Keeps IsFiled (spawn_call_activity env nested child_def_key parent_instance_id variables)
  unfolding spawn_call_activity
  Keeps-spawn child_def_key parent_instance_id variables = search (filing, Keeps-start) depth 30

  Keeps-resume_at :
      (parent_id completed_id : ℕ) (def : ProcessDefinition) (called : String) (token : Token)
      (r : Resume)
      → Keeps IsFiled (resume_at env nested parent_id completed_id def called token r)
  unfolding resume_at push_audit_log
  Keeps-resume_at p c def called token (incident code) = search (filing) depth 30
  Keeps-resume_at p c def called token (at_boundary b) = search (filing, Keeps-nested) depth 30
  Keeps-resume_at p c def called token onward = search (filing, Keeps-nested) depth 30

  Keeps-fail_parent :
      (parent_id : ℕ) (called : String) (e : EngineError)
      → Keeps IsFiled (fail_parent env nested parent_id called e)
  unfolding fail_parent push_audit_log
  Keeps-fail_parent parent_id called e = search (filing) depth 30

  Keeps-resume_waiting :
      (parent_id completed_id : ℕ) (vars : Variables) (code : Option String)
      (parent : ProcessInstance) (waiting : Token)
      → Keeps IsFiled (resume_waiting env nested parent_id completed_id vars code parent waiting)
  unfolding resume_waiting
  Keeps-resume_waiting parent_id completed_id vars code parent waiting =
      Keeps-bind _ _ (Keeps-write _ _ (take_over-id vars waiting)) (λ u.
        Keeps-bind _ _ (Keeps-effect _) (λ u. Keeps-bind _ _ (search (filing)) (λ def.
          Keeps-bind _ _ (Keeps-try_end_scripts env parent_id _ def parent.current_node) (λ s.
            Keeps-option s.failure _ _
              (Keeps-resume_at parent_id completed_id def parent.current_node s.token
                (resume_of def parent.current_node code))
              (Keeps-fail_parent parent_id parent.current_node)))))

  pub Keeps-resume_parent :
      (completed_id : ℕ) (code : Option String)
      → Keeps IsFiled (resume_parent_if_needed env nested completed_id code)
  unfolding resume_parent_if_needed
  Keeps-resume_parent completed_id code = Keeps-bind _ _ (search (filing)) (λ inst.
      Keeps-option inst.parent_instance_id _ _ (Keeps-pure _) (λ parent_id.
        Keeps-bind _ _ (search (filing)) (λ parent.
          Keeps-option (waiting_token parent.state) _ _ (Keeps-pure _)
            (λ waiting. Keeps-resume_waiting parent_id completed_id _ code parent waiting))))
