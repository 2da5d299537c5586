-- ===== src/Filing/Batches.antt =====
-- Whole batches keep the invariant, however deeply they nest.
use mini_bpm_engine.Prelude.{ℕ, zero, suc, List, [], ◌∷◌}
use mini_bpm_engine.Domain.Token.{Token}
use mini_bpm_engine.Runtime.AuditLog.{push_audit_log}
use mini_bpm_engine.Run.{Env, Run}
use mini_bpm_engine.Run.Keeping.{Keeps, Keeps-pure, Keeps-overflow, Keeps-bind}
use mini_bpm_engine.Executor.Batch.{
  BatchEnd, unfinished, finished, abort, run_queue, finish_batch, after_batch, run_instance_batch,
  max_execution_steps,
}
use mini_bpm_engine.Filing.{IsFiled, Keeps-effect, filing}
use mini_bpm_engine.Filing.Starting.{Keeps-resume_parent}
use mini_bpm_engine.Filing.Steps.{Keeps-execute_step}
use mini_bpm_engine.Filing.Actions.{Keeps-next_action}

module _ (env : Env) (instance_id : ℕ) where
  Keeps-abort : Keeps IsFiled (abort env instance_id)
  unfolding abort push_audit_log
  Keeps-abort = search (filing) depth 30

  module _ (nested : ℕ → Token → Run (Unit {0}))
      (Keeps-nested : (instance_id : ℕ) (token : Token)
        → Keeps IsFiled (nested instance_id token)) where
    Keeps-run_queue :
        (steps : ℕ) (queue : List Token)
        → Keeps IsFiled (run_queue env instance_id nested steps queue)
    unfolding run_queue
    Keeps-run_queue steps [] = Keeps-pure tt
    Keeps-run_queue zero (token ∷ queue) = Keeps-abort
    Keeps-run_queue (suc steps) (token ∷ queue) =
        Keeps-bind _ _ (Keeps-execute_step env nested Keeps-nested instance_id token) (λ action.
          Keeps-bind _ _ (Keeps-effect _) (λ u.
            Keeps-bind _ _
              (Keeps-next_action env nested Keeps-nested instance_id action token.id
                token.current_node queue)
              (λ queue'. Keeps-run_queue steps queue')))

    Keeps-finish_batch :
        (ending : BatchEnd) → Keeps IsFiled (finish_batch env instance_id nested ending)
    unfolding finish_batch
    Keeps-finish_batch unfinished = Keeps-pure tt
    Keeps-finish_batch (finished code) =
        Keeps-bind _ _ (Keeps-resume_parent env nested Keeps-nested instance_id code)
          (λ u. Keeps-effect _)

    Keeps-after_batch : Keeps IsFiled (after_batch env instance_id nested)
    unfolding after_batch
    Keeps-after_batch = search (filing, Keeps-finish_batch) depth 30

pub Keeps-batch :
    (env : Env) (depth instance_id : ℕ) (token : Token)
    → Keeps IsFiled (run_instance_batch env depth instance_id token)
unfolding run_instance_batch
Keeps-batch env zero instance_id token = Keeps-overflow
Keeps-batch env (suc depth) instance_id token =
    Keeps-bind _ _
      (Keeps-run_queue env instance_id (run_instance_batch env depth) (Keeps-batch env depth)
        max_execution_steps (token ∷ []))
      (λ u.
        Keeps-after_batch env instance_id (run_instance_batch env depth) (Keeps-batch env depth))
