-- ===== src/Tests/Operations.antt =====
-- Suspension, the retry queue, the builder, conditions and timers at concrete inputs.
use mini_bpm_engine.Prelude.{
  ℕ, ◌+◌, ◌<◌, String, ◌≡◌, ◌⊎◌, refl, true, false, none, some, List, [], ◌∷◌, ◌++◌, length, get,
  All, leb, arith, if◌then◌else◌, nat_eq, string_eq,
}
use mini_bpm_engine.Prelude.Int.{pos}
use mini_bpm_engine.Domain.Element.{simple, conditional}
use mini_bpm_engine.Domain.Error.{
  EngineError, ok, err, already_completed, no_such_instance, instance_suspended,
}
use mini_bpm_engine.Domain.Timer.{Cron, TimerDefinition, next_expiry, cron_cycle}
use mini_bpm_engine.Domain.Timer.Expiry.{is_instant, next_expiry_later}
use mini_bpm_engine.Domain.Definition.{definition, SubProcesses}
use mini_bpm_engine.Domain.Definition.Validation.Structure.{IsWellFormed}
use mini_bpm_engine.Domain.Definition.Builder.{
  ProcessDefinitionBuilder, flow, conditional_flow, build,
}
use mini_bpm_engine.Domain.Definition.Builder.Building.{Appends, key_or, build_lem, flow-Appends}
use mini_bpm_engine.Condition.{evaluate_condition}
use mini_bpm_engine.Condition.Lookups.{evaluate_condition-nil}
use mini_bpm_engine.Runtime.Instance.{is_suspended, ProcessInstance}
use mini_bpm_engine.Runtime.AuditLog.{push_audit_log}
use mini_bpm_engine.Engine.{Engine, HistoryEventType}
use mini_bpm_engine.InstanceOps.{suspended_instance, conclude, suspend_instance, resume_instance}
use mini_bpm_engine.InstanceOps.Suspension.{
  has_ended, suspend_instance_lem, resume-suspend_instance,
}
use mini_bpm_engine.RetryQueue.{
  PersistJob, save_instance, shutdown, Call, Attempt, succeeded, failed, retry_job, run_worker,
}
use mini_bpm_engine.RetryQueue.Attempts.{EndsRight, InRange, retry_job-EndsRight}
use mini_bpm_engine.RetryQueue.Shutdown.{run_worker_stops}
use mini_bpm_engine.Tests.Data.{json, order_nodes, order_flows, forked, engine}

suspend_instance_lem_example :
    let r = suspend_instance engine 1 in
    ((get engine.instances 1 ≡ none) × (r ≡ err (no_such_instance 1)))
    ⊎ ((inst : ProcessInstance) × (get engine.instances 1 ≡ some inst)
        × (((has_ended inst.state ≡ true) × (r ≡ err already_completed))
            ⊎ ((is_suspended inst.state ≡ true) × (r ≡ err (instance_suspended 1)))
            ⊎ ((has_ended inst.state ≡ false)
                × (is_suspended inst.state ≡ false)
                × (r
                    ≡ ok (
                        conclude engine 1
                          (suspended_instance inst)
                          HistoryEventType.instance_suspended)))))
suspend_instance_lem_example = suspend_instance_lem engine 1

abbrev paused_engine : Engine
paused_engine = conclude engine 1 (suspended_instance forked) HistoryEventType.instance_suspended

resume-suspend_instance_example :
    (e'' : Engine) × (resume_instance paused_engine 1 ≡ ok e'')
    × (get e''.instances 1
        ≡ some (push_audit_log (push_audit_log forked "⏸ Instance suspended") "▶ Instance resumed"))
unfolding get suspend_instance
resume-suspend_instance_example = resume-suspend_instance engine paused_engine 1 forked refl refl

-- The backend comes back at the third attempt.
abbrev answers : ℕ → Call String → Attempt
answers attempt call = if leb 3 attempt then succeeded else failed "no connection"

retry_job-EndsRight_example :
    EndsRight
      (λ n. engine)
      answers
      (save_instance 1)
      0
      (retry_job (λ n. engine) answers (save_instance 1))
    × All
        (InRange (λ n. engine) answers (save_instance 1))
        (retry_job (λ n. engine) answers (save_instance 1)).1
retry_job-EndsRight_example = retry_job-EndsRight (λ n. engine) answers (save_instance 1)

abbrev one_job : List (PersistJob String)
one_job = save_instance 1 ∷ []

run_worker_stops_example :
    (run_worker (λ k n. engine) (λ k. answers) (one_job ++ shutdown ∷ one_job)
      ≡ run_worker (λ k n. engine) (λ k. answers) one_job)
    × (length (run_worker (λ k n. engine) (λ k. answers) one_job) ≡ length one_job)
run_worker_stops_example =
    run_worker_stops (λ k n. engine) (λ k. answers) one_job one_job (refl, tt)

abbrev order_builder : ProcessDefinitionBuilder
order_builder = record {
  id = "order";
  key = some 7;
  version = pos 1;
  nodes = order_nodes;
  flows = order_flows;
  listeners = [];
  event_listeners = [];
  sub_processes = SubProcesses.nil;
}

build_lem_example :
    ((IsWellFormed order_nodes order_flows → ⊥)
      × ((e : EngineError) × (build 5 order_builder ≡ err e)))
    ⊎ (IsWellFormed order_nodes order_flows
        × (build 5 order_builder
            ≡ ok (
                definition
                  (key_or 5 order_builder.key)
                  "order"
                  (pos 1)
                  order_nodes
                  order_flows
                  []
                  []
                  SubProcesses.nil)))
build_lem_example = build_lem 5 order_builder

flow-Appends_example :
    Appends order_builder "fork" (simple "end") (flow order_builder "fork" "end")
    × Appends order_builder "fork"
        (conditional "end" "x == 2")
        (conditional_flow order_builder "fork" "end" "x == 2")
flow-Appends_example = flow-Appends order_builder "fork" "end" "x == 2"

evaluate_condition-nil_example : evaluate_condition json "x != 1" [] ≡ false
evaluate_condition-nil_example = evaluate_condition-nil json "x != 1"

-- Every expression matches each next nanosecond.
abbrev always : Cron
always = record { find_next_occurrence = λ expression from. some (from + 1) }

always_later :
    (expression : String) (from at : ℕ)
    → always.find_next_occurrence expression from ≡ some at
    → from < at
always_later expression from at h = ground arith

abbrev daily : TimerDefinition
daily = cron_cycle "0 0 * * *" none

abbrev expiry : ℕ
expiry = 101

next_expiry_later_example : (100 < expiry) ⊎ ((is_instant daily ≡ true) × (expiry ≡ 100))
unfolding next_expiry
next_expiry_later_example = next_expiry_later always daily 100 expiry always_later refl
