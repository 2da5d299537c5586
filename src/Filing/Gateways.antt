-- ===== src/Filing/Gateways.antt =====
-- The handlers of gateways and of compensation keep the invariant.
use mini_bpm_engine.Prelude.{ℕ, String, refl, Bool, Option, List, [], ◌∷◌}
use mini_bpm_engine.Domain.Definition.{ProcessDefinition, get_node}
use mini_bpm_engine.Domain.Token.{Token}
use mini_bpm_engine.Gateway.{Outcome}
use mini_bpm_engine.Runtime.Action.{
  NextAction, continue, continue_multiple, wait_for_user, wait_for_service_task, wait_for_join,
  wait_for_timer, wait_for_message, wait_for_event_group, complete, error_end, escalation_end,
  spawn_and_continue, terminate, wait_for_call_activity, multi_instance_fork, multi_instance_next,
}
use mini_bpm_engine.Runtime.AuditLog.{push_audit_log}
use mini_bpm_engine.Runtime.Instance.{CompensationRecord}
use mini_bpm_engine.Run.{Env, Run}
use mini_bpm_engine.Run.Keeping.{
  Keeps, Keeps-pure, Keeps-ask, Keeps-reads, Keeps-option, Keeps-bind,
}
use mini_bpm_engine.Executor.Handlers.Gateways.{
  routed, write_fork, write_path, write_complex, handle_parallel_gateway, handle_exclusive_gateway,
  handle_inclusive_gateway, handle_complex_gateway, handle_event_based_gateway,
}
use mini_bpm_engine.Executor.Handlers.Compensation.{run_handlers, handle_compensation_throw_event}
use mini_bpm_engine.Filing.{IsFiled, Keeps-write, filing}
use mini_bpm_engine.Filing.Handlers.{Keeps-run_end_scripts}

Keeps-routed : (env : Env) (route : (ℕ → ℕ) → Outcome) → Keeps IsFiled (routed env route)
unfolding routed
Keeps-routed env route = search (filing) depth 30

Keeps-write_fork :
    (instance_id : ℕ) (current_id kind : String) (action : NextAction)
    → Keeps IsFiled (write_fork instance_id current_id kind action)
unfolding write_fork push_audit_log
Keeps-write_fork i c k (continue_multiple f) = Keeps-write _ _ (λ inst. refl)
Keeps-write_fork i c k (continue t) = Keeps-pure _
Keeps-write_fork i c k (wait_for_user p) = Keeps-pure _
Keeps-write_fork i c k (wait_for_service_task p) = Keeps-pure _
Keeps-write_fork i c k (wait_for_join g t) = Keeps-pure _
Keeps-write_fork i c k (wait_for_timer p) = Keeps-pure _
Keeps-write_fork i c k (wait_for_message p) = Keeps-pure _
Keeps-write_fork i c k (wait_for_event_group a) = Keeps-pure _
Keeps-write_fork i c k complete = Keeps-pure _
Keeps-write_fork i c k (error_end e) = Keeps-pure _
Keeps-write_fork i c k (escalation_end e) = Keeps-pure _
Keeps-write_fork i c k (spawn_and_continue m s) = Keeps-pure _
Keeps-write_fork i c k terminate = Keeps-pure _
Keeps-write_fork i c k (wait_for_call_activity e t) = Keeps-pure _
Keeps-write_fork i c k (multi_instance_fork n ts) = Keeps-pure _
Keeps-write_fork i c k (multi_instance_next n t) = Keeps-pure _

module _ (env : Env) (instance_id : ℕ) (token : Token) (def : ProcessDefinition)
    (current_id : String) where
  Keeps-write_path :
      (kind target : String)
      → Keeps IsFiled (write_path env instance_id token def current_id kind target)
  unfolding write_path push_audit_log
  Keeps-write_path kind target = Keeps-write _ _ (λ inst. refl)

  Keeps-write_complex :
      (action : NextAction)
      → Keeps IsFiled (write_complex env instance_id token def current_id action)
  unfolding write_complex
  Keeps-write_complex (continue t) = Keeps-write_path _ _
  Keeps-write_complex (continue_multiple f) = Keeps-write_fork _ _ _ _
  Keeps-write_complex (wait_for_user p) = Keeps-write_fork _ _ _ _
  Keeps-write_complex (wait_for_service_task p) = Keeps-write_fork _ _ _ _
  Keeps-write_complex (wait_for_join g t) = Keeps-write_fork _ _ _ _
  Keeps-write_complex (wait_for_timer p) = Keeps-write_fork _ _ _ _
  Keeps-write_complex (wait_for_message p) = Keeps-write_fork _ _ _ _
  Keeps-write_complex (wait_for_event_group a) = Keeps-write_fork _ _ _ _
  Keeps-write_complex complete = Keeps-write_fork _ _ _ _
  Keeps-write_complex (error_end e) = Keeps-write_fork _ _ _ _
  Keeps-write_complex (escalation_end e) = Keeps-write_fork _ _ _ _
  Keeps-write_complex (spawn_and_continue m s) = Keeps-write_fork _ _ _ _
  Keeps-write_complex terminate = Keeps-write_fork _ _ _ _
  Keeps-write_complex (wait_for_call_activity e t) = Keeps-write_fork _ _ _ _
  Keeps-write_complex (multi_instance_fork n ts) = Keeps-write_fork _ _ _ _
  Keeps-write_complex (multi_instance_next n t) = Keeps-write_fork _ _ _ _

  pub Keeps-parallel_gateway :
      Keeps IsFiled (handle_parallel_gateway env instance_id token def current_id)
  unfolding handle_parallel_gateway
  Keeps-parallel_gateway =
      search (filing, Keeps-run_end_scripts env, Keeps-routed, Keeps-write_fork) depth 30

  pub Keeps-exclusive_gateway :
      (default : Option String)
      → Keeps IsFiled (handle_exclusive_gateway env instance_id token def current_id default)
  unfolding handle_exclusive_gateway
  Keeps-exclusive_gateway default =
      search (filing, Keeps-run_end_scripts env, Keeps-write_path) depth 30

  pub Keeps-inclusive_gateway :
      Keeps IsFiled (handle_inclusive_gateway env instance_id token def current_id)
  unfolding handle_inclusive_gateway
  Keeps-inclusive_gateway =
      search (filing, Keeps-run_end_scripts env, Keeps-routed, Keeps-write_fork) depth 30

  pub Keeps-complex_gateway :
      (default : Option String)
      → Keeps IsFiled (handle_complex_gateway env instance_id token def current_id default)
  unfolding handle_complex_gateway
  Keeps-complex_gateway default =
      search (filing, Keeps-run_end_scripts env, Keeps-routed, Keeps-write_complex) depth 30

  pub Keeps-event_based_gateway :
      Keeps IsFiled (handle_event_based_gateway env instance_id token def current_id)
  unfolding handle_event_based_gateway push_audit_log
  Keeps-event_based_gateway = search (filing, Keeps-run_end_scripts env) depth 30

module _ (env : Env) (nested : ℕ → Token → Run (Unit {0}))
    (Keeps-nested : (instance_id : ℕ) (token : Token) → Keeps IsFiled (nested instance_id token))
    (instance_id : ℕ) (def : ProcessDefinition) where
  Keeps-run_handlers :
      (records : List CompensationRecord) (token : Token)
      → Keeps IsFiled (run_handlers env nested instance_id def records token)
  unfolding run_handlers
  Keeps-run_handlers [] token = Keeps-pure _
  Keeps-run_handlers (r ∷ rest) token =
      Keeps-option (get_node def r.handler_node_id) _ _ (Keeps-run_handlers rest token) (λ node.
        Keeps-bind _ _ (Keeps-ask _) (λ t.
          Keeps-bind _ _ (Keeps-nested instance_id t)
            (λ u. Keeps-bind _ _ (Keeps-reads _) (λ variables. Keeps-run_handlers rest _))))

  pub Keeps-compensation_throw :
      (token : Token) (current_id : String) (activity_ref : Option String) (is_end_event : Bool)
      → Keeps IsFiled (
          handle_compensation_throw_event env nested instance_id def token current_id activity_ref
            is_end_event)
  unfolding handle_compensation_throw_event push_audit_log
  Keeps-compensation_throw token current_id activity_ref is_end_event =
      search (filing, Keeps-run_end_scripts env, Keeps-run_handlers) depth 40
