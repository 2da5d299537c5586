-- ===== src/Filing/Handlers.antt =====
-- The handlers keep the invariant.
use mini_bpm_engine.Prelude.{
  ℕ, String, refl, Bool, true, false, Option, none, some, List, [], ◌∷◌, Map, insert, nat_eq,
}
use mini_bpm_engine.Prelude.Keyed.{IsKeyed, insert-IsKeyed}
use mini_bpm_engine.Domain.Definition.{ProcessDefinition}
use mini_bpm_engine.Domain.Element.{ListenerEvent, ExecutionListener}
use mini_bpm_engine.Domain.Token.{Token}
use mini_bpm_engine.Runtime.AuditLog.{push_audit_log}
use mini_bpm_engine.Runtime.Pending.{PendingTimer, PendingMessageCatch}
use mini_bpm_engine.Run.{Env}
use mini_bpm_engine.Run.Keeping.{
  Keeps, Keeps-option, Keeps-result, Keeps-bool, Keeps-pure, Keeps-raise, Keeps-ask,
  Keeps-asked_for, Keeps-reads, Keeps-bind, Keeps-modify,
}
use mini_bpm_engine.Executor.Scripts.{
  Scripted, run_listeners, run_node_scripts, try_end_scripts, or_raise, run_end_scripts, is_event,
}
use mini_bpm_engine.Domain.Timer.{TimerDefinition}
use mini_bpm_engine.Runtime.Action.{NextAction}
use mini_bpm_engine.Executor.Helpers.{find_compensation_handler, find_any_boundary_escalation_event}
use mini_bpm_engine.Executor.Handlers.SubProcesses.{handle_call_activity}
use mini_bpm_engine.Executor.Handlers.Events.{
  end_path, pass_through, escalate, handle_escalation_throw_event, handle_timer_catch_event,
  handle_message_catch_event,
}
use mini_bpm_engine.Executor.Handlers.{insert_timers, insert_catches, arm_boundary_events}
use mini_bpm_engine.Executor.Handlers.Compensation.{register_compensation_handler}
use mini_bpm_engine.Executor.Handlers.Tasks.{
  handle_user_task, handle_script_task, handle_send_task, handle_service_task,
}
use mini_bpm_engine.Filing.{IsFiled, Keeps-touch, Keeps-effect, filing}

module _ (env : Env) where
  Keeps-run_listeners :
      (node_id : String) (event : ListenerEvent) (ls : List ExecutionListener) (token : Token)
      (entries : List String)
      → Keeps IsFiled (run_listeners env node_id event ls token entries)
  unfolding run_listeners
  Keeps-run_listeners node_id event [] token entries = Keeps-pure _
  Keeps-run_listeners node_id event (l ∷ rest) token entries =
      Keeps-bool (is_event l.event event) _ _ (Keeps-run_listeners node_id event rest token entries)
        (Keeps-bind _ _ (Keeps-ask _) (λ result.
          Keeps-result result _ _ (λ e. Keeps-pure _)
            (λ variables. Keeps-run_listeners node_id event rest _ _)))

  pub Keeps-run_node_scripts :
      (token : Token) (def : ProcessDefinition) (node_id : String) (event : ListenerEvent)
      → Keeps IsFiled (run_node_scripts env token def node_id event)
  unfolding run_node_scripts
  Keeps-run_node_scripts token def node_id event = Keeps-run_listeners node_id event _ token []

  pub Keeps-try_end_scripts :
      (instance_id : ℕ) (token : Token) (def : ProcessDefinition) (node_id : String)
      → Keeps IsFiled (try_end_scripts env instance_id token def node_id)
  unfolding try_end_scripts
  Keeps-try_end_scripts instance_id token def node_id = Keeps-bind _ _ (Keeps-reads _) (λ found.
      Keeps-option found _ _ (Keeps-pure _) (λ inst.
        Keeps-bind _ _ (Keeps-run_node_scripts token def node_id _)
          (λ s. Keeps-option s.failure _ _ (search (filing)) (λ e. Keeps-pure _))))

  pub Keeps-or_raise : (s : Scripted) → Keeps IsFiled (or_raise env s)
  Keeps-or_raise s = Keeps-option s.failure _ _ (Keeps-pure _) Keeps-raise

  pub Keeps-run_end_scripts :
      (instance_id : ℕ) (token : Token) (def : ProcessDefinition) (node_id : String)
      → Keeps IsFiled (run_end_scripts env instance_id token def node_id)
  unfolding run_end_scripts
  Keeps-run_end_scripts instance_id token def node_id =
      Keeps-bind _ _ (Keeps-try_end_scripts instance_id token def node_id) Keeps-or_raise

pub insert_timers-IsKeyed :
    (pending : Map ℕ PendingTimer) (timers : List PendingTimer)
    → IsKeyed (λ t. t.id) pending
    → IsKeyed (λ t. t.id) (insert_timers pending timers)
unfolding insert_timers
insert_timers-IsKeyed pending [] h = h
insert_timers-IsKeyed pending (t ∷ timers) h =
    insert_timers-IsKeyed (insert pending t.id t) timers
      (insert-IsKeyed (λ x. x.id) pending t.id t refl h)

pub insert_catches-IsKeyed :
    (pending : Map ℕ PendingMessageCatch) (catches : List PendingMessageCatch)
    → IsKeyed (λ m. m.id) pending
    → IsKeyed (λ m. m.id) (insert_catches pending catches)
unfolding insert_catches
insert_catches-IsKeyed pending [] h = h
insert_catches-IsKeyed pending (m ∷ catches) h =
    insert_catches-IsKeyed (insert pending m.id m) catches
      (insert-IsKeyed (λ x. x.id) pending m.id m refl h)

module _ (env : Env) (instance_id : ℕ) (token : Token) (def : ProcessDefinition)
    (current_id : String) where
  Keeps-arm : Keeps IsFiled (arm_boundary_events env def current_id instance_id token)
  unfolding arm_boundary_events
  Keeps-arm = Keeps-bind _ _ (Keeps-ask _) (λ waits. Keeps-bind _ _ (Keeps-asked_for _) (λ u.
      Keeps-modify _ (λ e h. (
        h.0,
        h.1,
        h.2,
        insert_timers-IsKeyed _ waits.0 h.3,
        insert_catches-IsKeyed _ waits.1 h.4,
      ))))

  pub Keeps-user_task :
      (assignee : String)
      → Keeps IsFiled (handle_user_task env instance_id token def current_id assignee)
  unfolding handle_user_task push_audit_log
  Keeps-user_task assignee = search (filing, Keeps-arm) depth 30

  pub Keeps-service_task :
      (topic : String)
      → Keeps IsFiled (handle_service_task env instance_id token def current_id topic)
  unfolding handle_service_task push_audit_log
  Keeps-service_task topic = search (filing, Keeps-arm) depth 30

  pub Keeps-call_activity :
      (called : String)
      → Keeps IsFiled (handle_call_activity env instance_id token def current_id called)
  unfolding handle_call_activity push_audit_log
  Keeps-call_activity called = search (filing, Keeps-arm) depth 30

module _ (env : Env) (instance_id : ℕ) (def : ProcessDefinition) (current_id : String) where
  pub Keeps-register : Keeps IsFiled (register_compensation_handler instance_id current_id def)
  unfolding register_compensation_handler push_audit_log
  Keeps-register =
      Keeps-option (find_compensation_handler def current_id) _ _ (Keeps-pure _)
        (λ node. Keeps-touch _ _ (λ inst. refl))

  module _ (token : Token) where
    pub Keeps-script_task :
        (script : String)
        → Keeps IsFiled (handle_script_task env instance_id token def current_id script)
    unfolding handle_script_task push_audit_log
    Keeps-script_task script = search (filing, Keeps-run_end_scripts env, Keeps-register) depth 30

    pub Keeps-send_task :
        (name : String) → Keeps IsFiled (handle_send_task env instance_id token def current_id name)
    unfolding handle_send_task push_audit_log
    Keeps-send_task name = search (filing, Keeps-run_end_scripts env) depth 30

    pub Keeps-end_path :
        (entry : String) (action : NextAction)
        → Keeps IsFiled (end_path env instance_id token def current_id entry action)
    unfolding end_path push_audit_log
    Keeps-end_path entry action = search (filing, Keeps-run_end_scripts env) depth 30

    pub Keeps-pass_through : Keeps IsFiled (pass_through env instance_id token def current_id)
    unfolding pass_through
    Keeps-pass_through = search (filing, Keeps-run_end_scripts env) depth 30

    Keeps-escalate :
        (code : String) (after : Token) (handler : Option (String × String × Bool))
        → Keeps IsFiled (escalate env instance_id token def current_id code after handler)
    unfolding escalate push_audit_log
    Keeps-escalate code after none = search (filing) depth 30
    Keeps-escalate code after (some (b, a, true)) = search (filing) depth 30
    Keeps-escalate code after (some (b, a, false)) = search (filing) depth 30

    pub Keeps-escalation_throw :
        (code : String)
        → Keeps IsFiled (handle_escalation_throw_event env instance_id token def current_id code)
    unfolding handle_escalation_throw_event
    Keeps-escalation_throw code =
        Keeps-bind _ _ (Keeps-run_end_scripts env instance_id token def current_id) (λ after.
          Keeps-bind _ _ (Keeps-effect _)
            (λ u. Keeps-escalate code after (find_any_boundary_escalation_event def code)))

    pub Keeps-timer_catch :
        (t : TimerDefinition)
        → Keeps IsFiled (handle_timer_catch_event env instance_id token current_id t)
    unfolding handle_timer_catch_event push_audit_log
    Keeps-timer_catch t = search (filing) depth 30

    pub Keeps-message_catch :
        (name : String)
        → Keeps IsFiled (handle_message_catch_event env instance_id token current_id name)
    unfolding handle_message_catch_event push_audit_log
    Keeps-message_catch name = search (filing) depth 30
