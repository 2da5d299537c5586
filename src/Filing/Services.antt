-- ===== src/Filing/Services.antt =====
-- The completion of service tasks keeps the invariant.
use mini_bpm_engine.Prelude.{ℕ, String, ◌≡◌, Bool, true, false, Option, none, some, nat_eq}
use mini_bpm_engine.Prelude.Keyed.{remove-IsKeyed}
use mini_bpm_engine.Domain.Error.{EngineError}
use mini_bpm_engine.Domain.Json.{Variables}
use mini_bpm_engine.Domain.Token.{Token}
use mini_bpm_engine.Runtime.AuditLog.{push_audit_log}
use mini_bpm_engine.Runtime.Instance.{ProcessInstance}
use mini_bpm_engine.Runtime.Pending.{PendingServiceTask}
use mini_bpm_engine.Run.{Env, Run}
use mini_bpm_engine.Run.Keeping.{
  Keeps, Keeps-pure, Keeps-raise, Keeps-reads, Keeps-option, Keeps-bool, Keeps-bind, Keeps-modify,
}
use mini_bpm_engine.ServiceTask.Completion.{
  take_if, take_found, take_task, completed_by, resolved_at, token_with, go_on, complete_task,
  complete_service_task, resolve_incident, at_error_boundary, uncaught, boundary_for,
  handle_bpmn_error,
}
use mini_bpm_engine.Filing.{IsFiled, Keeps-write, filing}
use mini_bpm_engine.Filing.Handlers.{Keeps-run_end_scripts, Keeps-register}
use mini_bpm_engine.Filing.Waiting.{
  Keeps-cancel_timers, Keeps-cancel_catches, Keeps-restore_service_task, Keeps-take_token,
  run_again-id,
}

Keeps-take_if :
    (task_id : ℕ) (passes : Bool) (refusal : EngineError) (task : PendingServiceTask)
    → Keeps IsFiled (take_if task_id passes refusal task)
unfolding take_if
Keeps-take_if task_id false refusal task = Keeps-raise _
Keeps-take_if task_id true refusal task =
    Keeps-bind _ _
      (Keeps-modify _ (λ e h.
        (h.0, h.1, remove-IsKeyed (λ t. t.id) e.pending_service_tasks task_id h.2, h.3, h.4)))
      (λ u. Keeps-pure task)

Keeps-take_found :
    (task_id : ℕ) (test : PendingServiceTask → Bool) (refusal : PendingServiceTask → EngineError)
    (found : Option PendingServiceTask)
    → Keeps IsFiled (take_found task_id test refusal found)
unfolding take_found
Keeps-take_found task_id test refusal none = Keeps-raise _
Keeps-take_found task_id test refusal (some task) =
    Keeps-take_if task_id (test task) (refusal task) task

Keeps-take_task :
    (task_id : ℕ) (test : PendingServiceTask → Bool) (refusal : PendingServiceTask → EngineError)
    → Keeps IsFiled (take_task task_id test refusal)
unfolding take_task
Keeps-take_task task_id test refusal =
    Keeps-bind _ _ (Keeps-reads _) (Keeps-take_found task_id test refusal)

completed_by-id :
    (node worker : String) (vars : Variables) (inst : ProcessInstance)
    → (completed_by node worker vars inst).id ≡ inst.id
unfolding push_audit_log
completed_by-id node worker vars inst = run_again-id _

resolved_at-id : (node : String) (inst : ProcessInstance) → (resolved_at node inst).id ≡ inst.id
unfolding push_audit_log
resolved_at-id node inst = run_again-id _

module _ (env : Env) (batch : ℕ → Token → Run (Unit {0}))
    (Keeps-batch : (instance_id : ℕ) (token : Token) → Keeps IsFiled (batch instance_id token))
    (task_id : ℕ) where
  Keeps-token_with :
      (vars : Variables) (task : PendingServiceTask)
      → Keeps IsFiled (token_with env batch task_id vars task)
  unfolding token_with
  Keeps-token_with vars task =
      search (filing, Keeps-take_token env, Keeps-cancel_timers, Keeps-cancel_catches) depth 30

  Keeps-go_on :
      (task : PendingServiceTask) (next : String) (token : Token)
      → Keeps IsFiled (go_on env batch task_id task next token)
  unfolding go_on
  Keeps-go_on task next token = search (filing, Keeps-batch) depth 30

  Keeps-complete_task :
      (worker : String) (vars : Variables) (task : PendingServiceTask)
      → Keeps IsFiled (complete_task env batch task_id worker vars task)
  unfolding complete_task
  Keeps-complete_task worker vars task = Keeps-bind _ _ (Keeps-token_with vars task) (λ token.
      Keeps-bind _ _ (Keeps-write _ _ (completed_by-id task.node_id worker token.variables))
        (λ u. search (filing, Keeps-run_end_scripts env, Keeps-go_on) depth 40))

  pub Keeps-complete_service_task :
      (worker : String) (vars : Variables)
      → Keeps IsFiled (complete_service_task env batch task_id worker vars)
  unfolding complete_service_task
  Keeps-complete_service_task worker vars = Keeps-bind _ _ (Keeps-take_task _ _ _) (λ task.
      Keeps-bind _ _ (Keeps-reads _) (λ suspended.
        Keeps-bool suspended _ _ (Keeps-complete_task worker vars task)
          (Keeps-bind _ _ (Keeps-restore_service_task task) (λ u. Keeps-raise _))))

  pub Keeps-resolve_incident :
      (vars : Variables) → Keeps IsFiled (resolve_incident env batch task_id vars)
  unfolding resolve_incident
  Keeps-resolve_incident vars = Keeps-bind _ _ (Keeps-take_task _ _ _) (λ task.
      Keeps-bind _ _ (Keeps-token_with vars task) (λ token.
        Keeps-bind _ _ (Keeps-write _ _ (resolved_at-id task.node_id))
          (λ u. search (filing, Keeps-run_end_scripts env, Keeps-register, Keeps-batch) depth 40)))

  Keeps-at_error_boundary :
      (code : String) (task : PendingServiceTask) (inst : ProcessInstance) (boundary_id : String)
      → Keeps IsFiled (at_error_boundary env batch task_id code task inst boundary_id)
  unfolding at_error_boundary push_audit_log
  Keeps-at_error_boundary code task inst boundary_id =
      search (filing, Keeps-take_token env, Keeps-batch) depth 40

  Keeps-uncaught :
      (worker code : String) (task : PendingServiceTask)
      → Keeps IsFiled (uncaught env batch task_id worker code task)
  unfolding uncaught push_audit_log
  Keeps-uncaught worker code task = search (filing) depth 30

  pub Keeps-handle_bpmn_error :
      (worker code : String) → Keeps IsFiled (handle_bpmn_error env batch task_id worker code)
  unfolding handle_bpmn_error
  Keeps-handle_bpmn_error worker code = Keeps-bind _ _ (Keeps-take_task _ _ _) (λ task.
      Keeps-bind _ _ (search (filing)) (λ inst. Keeps-bind _ _ (Keeps-cancel_timers _ _) (λ u.
        Keeps-bind _ _ (Keeps-cancel_catches _ _) (λ u. Keeps-bind _ _ (Keeps-reads _) (λ def.
          Keeps-option (boundary_for env batch task_id def task.node_id code) _ _
            (Keeps-uncaught worker code task) (Keeps-at_error_boundary code task inst))))))
