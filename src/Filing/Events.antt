-- ===== src/Filing/Events.antt =====
-- The sweep over the timers and the correlation of messages keep the invariant.
use mini_bpm_engine.Prelude.{ℕ, String, ◌≡◌, refl, Option, none, List, [], ◌∷◌, nat_eq}
use mini_bpm_engine.Prelude.Keyed.{insert-IsKeyed, remove-IsKeyed}
use mini_bpm_engine.Domain.Definition.{ProcessDefinition}
use mini_bpm_engine.Domain.Json.{Variables}
use mini_bpm_engine.Domain.Token.{Token}
use mini_bpm_engine.Runtime.AuditLog.{push_audit_log}
use mini_bpm_engine.Runtime.Pending.{PendingTimer, PendingMessageCatch}
use mini_bpm_engine.Runtime.Instance.{ProcessInstance}
use mini_bpm_engine.Run.{Env, Run}
use mini_bpm_engine.Run.Keeping.{
  Keeps, Keeps-pure, Keeps-raise, Keeps-ask, Keeps-reads, Keeps-if, Keeps-option, Keeps-bind,
  Keeps-modify, Keeps-for_each,
}
use mini_bpm_engine.TimerProcessor as Timers
use mini_bpm_engine.TimerProcessor.{
  reschedule, resume_token, fire_timer, process_timer, process_timers,
}
use mini_bpm_engine.MessageProcessor as Messages
use mini_bpm_engine.MessageProcessor.{resume_catch, deliver, start_all, correlate_message}
use mini_bpm_engine.WaitStates.{run_again}
use mini_bpm_engine.Filing.{IsFiled, Keeps-effect, Keeps-touch, filing}
use mini_bpm_engine.Filing.Starting.{Keeps-start, Keeps-spawn}
use mini_bpm_engine.Filing.Waiting.{Keeps-clear, Keeps-resumed_token, run_again-id}

module _ (env : Env) (batch : ℕ → Token → Run (Unit {0}))
    (Keeps-batch : (instance_id : ℕ) (token : Token)
      → Keeps IsFiled (batch instance_id token)) where
  Keeps-timer_subprocess :
      (instance_id : ℕ) (bpmn_id : String)
      → Keeps IsFiled (Timers.start_event_subprocess env batch instance_id bpmn_id)
  unfolding Timers.start_event_subprocess
  Keeps-timer_subprocess instance_id bpmn_id =
      search (filing, Keeps-spawn env batch Keeps-batch) depth 30

  Keeps-reschedule : (timer : PendingTimer) → Keeps IsFiled (reschedule env batch timer)
  unfolding reschedule
  Keeps-reschedule timer = Keeps-bind _ _ (Keeps-ask _) (λ now.
      Keeps-bind _ _ (Keeps-ask _) (λ new_pending.
        Keeps-option new_pending _ _ (Keeps-pure tt) (λ p. Keeps-modify _ (λ e h.
          (h.0, h.1, h.2, insert-IsKeyed (λ t. t.id) e.pending_timers p.id p refl h.3, h.4)))))

  Keeps-resume_token :
      (timer : PendingTimer) (def : ProcessDefinition)
      → Keeps IsFiled (resume_token env batch timer def)
  unfolding resume_token
  Keeps-resume_token timer def =
      search (filing, Keeps-resumed_token env, Keeps-batch, Keeps-reschedule) depth 40

  Keeps-fire_timer : (timer : PendingTimer) → Keeps IsFiled (fire_timer env batch timer)
  unfolding fire_timer
  Keeps-fire_timer timer =
      search (filing, Keeps-clear, Keeps-timer_subprocess, Keeps-resume_token) depth 40

  Keeps-process_timer : (tid : ℕ) → Keeps IsFiled (process_timer env batch tid)
  unfolding process_timer
  Keeps-process_timer tid = Keeps-bind _ _ (Keeps-reads _) (λ found.
      Keeps-option found _ _ (Keeps-raise _) (λ timer.
        Keeps-bind _ _
          (Keeps-modify _
            (λ e h. (h.0, h.1, h.2, remove-IsKeyed (λ t. t.id) e.pending_timers tid h.3, h.4)))
          (λ u. Keeps-fire_timer timer)))

  pub Keeps-process_timers : Keeps IsFiled (process_timers env batch)
  unfolding process_timers
  Keeps-process_timers = Keeps-bind _ _ (Keeps-ask _) (λ now.
      Keeps-bind _ _ (Keeps-reads _)
        (λ tids. Keeps-bind _ _ (Keeps-for_each tids _ Keeps-process_timer) (λ u. Keeps-pure _)))

  module _ (name : String) (key : Option String) (vars : Variables) where
    Keeps-message_subprocess :
        (catch : PendingMessageCatch)
        → Keeps IsFiled (Messages.start_event_subprocess env batch name key vars catch)
    unfolding Messages.start_event_subprocess
    Keeps-message_subprocess catch = search (filing, Keeps-spawn env batch Keeps-batch) depth 30

    logged-id :
        (entry : String) (inst : ProcessInstance)
        → (push_audit_log (run_again inst) entry).id ≡ inst.id
    unfolding push_audit_log
    logged-id entry inst = run_again-id inst

    Keeps-resume_catch :
        (catch : PendingMessageCatch) → Keeps IsFiled (resume_catch env batch name key vars catch)
    unfolding resume_catch
    Keeps-resume_catch catch =
        search (filing, Keeps-resumed_token env, Keeps-batch, logged-id) depth 40

    Keeps-deliver : (catch_id : ℕ) → Keeps IsFiled (deliver env batch name key vars catch_id)
    unfolding deliver
    Keeps-deliver catch_id = Keeps-bind _ _ (Keeps-reads _) (λ found.
        Keeps-option found _ _ (Keeps-raise _) (λ catch.
          Keeps-bind _ _
            (Keeps-bind _ _
              (Keeps-modify _ (λ e h. (
                h.0,
                h.1,
                h.2,
                h.3,
                remove-IsKeyed (λ m. m.id) e.pending_message_catches catch_id h.4,
              )))
              (λ u. Keeps-clear _ _))
            (λ u. Keeps-if _ _ _ (Keeps-message_subprocess catch) (Keeps-resume_catch catch))))

    Keeps-start_all :
        (defs affected : List ℕ) → Keeps IsFiled (start_all env batch name key vars defs affected)
    unfolding start_all
    Keeps-start_all [] affected = Keeps-pure _
    Keeps-start_all (d ∷ rest) affected =
        Keeps-bind _ _ (Keeps-start env batch Keeps-batch d vars none) (λ new_id.
          Keeps-bind _ _
            (Keeps-option key _ _ (Keeps-pure tt)
              (λ bk. Keeps-bind _ _ (Keeps-touch _ _ (λ inst. refl)) (λ u. Keeps-effect _)))
            (λ u. Keeps-start_all rest _))

    pub Keeps-correlate_message : Keeps IsFiled (correlate_message env batch name key vars)
    unfolding correlate_message
    Keeps-correlate_message = Keeps-bind _ _ (Keeps-reads _) (λ to_resume.
        Keeps-bind _ _ (Keeps-for_each _ _ Keeps-deliver)
          (λ u. Keeps-bind _ _ (Keeps-reads _) (λ starting. Keeps-start_all starting _)))
