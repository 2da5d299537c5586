-- ===== src/Filing/Operations.antt =====
-- Every call of Operations.antt keeps the invariant, and so does every sequence of calls.
use mini_bpm_engine.Filing.Calls.{
  Keeps-fail, Keeps-retry, Keeps-extend, Keeps-suspend, Keeps-resume, Keeps-migrate, Keeps-fetch,
}
use mini_bpm_engine.Prelude.{ℕ, none, List, [], ◌∷◌, nat_eq, string_eq}
use mini_bpm_engine.Run.{Env, World}
use mini_bpm_engine.Run.Keeping.{Keeps, Keeps-pure, Keeps-ask, Keeps-bind, Keeps-modify}
use mini_bpm_engine.Operations.{
  Operation, start_instance, user_task_done, fetch, service_task_done, service_task_failed,
  incident_retried, incident_resolved, lock_extended, bpmn_error, timers, message, suspend, resume,
  migrate, user_task_restored, service_task_restored, timer_restored, message_catch_restored,
  definition_deployed, definition_deleted, instance_deleted, operate, replay,
}
use mini_bpm_engine.Domain.Definition.{version}
use mini_bpm_engine.DefinitionOps.{deploy_definition}
use mini_bpm_engine.Filing.{IsFiled}
use mini_bpm_engine.Filing.Deployments.{
  deploy_as-IsFiled, Keeps-delete_instance, Keeps-delete_definition,
}
use mini_bpm_engine.Filing.Batches.{Keeps-batch}
use mini_bpm_engine.Filing.Starting.{Keeps-start}
use mini_bpm_engine.Filing.Waiting.{
  Keeps-complete_user_task, Keeps-restore_user_task, Keeps-restore_service_task,
  Keeps-restore_timer, Keeps-restore_message_catch,
}
use mini_bpm_engine.Filing.Services.{
  Keeps-complete_service_task, Keeps-resolve_incident, Keeps-handle_bpmn_error,
}
use mini_bpm_engine.Filing.Events.{Keeps-process_timers, Keeps-correlate_message}

module _ (env : Env) (depth : ℕ) where
  pub Keeps-operate : (op : Operation) → Keeps IsFiled (operate env depth op)
  unfolding operate deploy_definition
  Keeps-operate (start_instance key vars) =
      Keeps-bind _ _ (Keeps-start env _ (Keeps-batch env depth) key vars none) (λ id. Keeps-pure tt)
  Keeps-operate (user_task_done task_id vars) =
      Keeps-complete_user_task env _ (Keeps-batch env depth) task_id vars
  Keeps-operate (fetch worker max topics d) =
      Keeps-bind _ _ (Keeps-ask _) (λ now. Keeps-fetch now worker max topics d)
  Keeps-operate (service_task_done task_id worker vars) =
      Keeps-complete_service_task env _ (Keeps-batch env depth) task_id worker vars
  Keeps-operate (service_task_failed task_id worker retries msg details) =
      Keeps-fail task_id worker retries msg details
  Keeps-operate (incident_retried task_id retries) = Keeps-retry task_id retries
  Keeps-operate (incident_resolved task_id vars) =
      Keeps-resolve_incident env _ (Keeps-batch env depth) task_id vars
  Keeps-operate (lock_extended task_id worker d) =
      Keeps-bind _ _ (Keeps-ask _) (λ now. Keeps-extend task_id now worker d)
  Keeps-operate (bpmn_error task_id worker code) =
      Keeps-handle_bpmn_error env _ (Keeps-batch env depth) task_id worker code
  Keeps-operate timers =
      Keeps-bind _ _ (Keeps-process_timers env _ (Keeps-batch env depth)) (λ count. Keeps-pure tt)
  Keeps-operate (message name key vars) =
      Keeps-bind _ _ (Keeps-correlate_message env _ (Keeps-batch env depth) name key vars)
        (λ affected. Keeps-pure tt)
  Keeps-operate (suspend instance_id) = Keeps-suspend instance_id
  Keeps-operate (resume instance_id) = Keeps-resume instance_id
  Keeps-operate (migrate instance_id key mapping) = Keeps-migrate instance_id key mapping
  Keeps-operate (user_task_restored task) = Keeps-restore_user_task task
  Keeps-operate (service_task_restored task) = Keeps-restore_service_task task
  Keeps-operate (timer_restored t) = Keeps-restore_timer t
  Keeps-operate (message_catch_restored c) = Keeps-restore_message_catch c
  Keeps-operate (definition_deployed def) =
      Keeps-modify _ (λ e h. deploy_as-IsFiled def (version def) e h)
  Keeps-operate (definition_deleted deleted key cascade) =
      Keeps-delete_definition deleted key cascade
  Keeps-operate (instance_deleted deleted instance_id) = Keeps-delete_instance deleted instance_id

-- Whatever calls the engine answers, in whatever order, whether they succeed or fail, and however deeply
-- their batches nest: if at the start each instance, user task, service task, timer and message catch is
-- stored under its own identifier and no identifier occurs twice in its map, then so it is at the end.
-- (The calls are those of `Operation`.)
pub replay-IsFiled :
    (env : Env) (depth : ℕ) (ops : List Operation) (w : World)
    → IsFiled w.engine
    → IsFiled (replay env depth ops w).engine
unfolding replay
replay-IsFiled env depth [] w h = h
replay-IsFiled env depth (op ∷ ops) w h =
    replay-IsFiled env depth ops (operate env depth op w).1 ((Keeps-operate env depth op).keeps w h)
