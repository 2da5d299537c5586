-- ===== src/InstanceOps/Deletion.antt =====
-- `delete_instance` of engine-core/src/engine/instance_ops.rs. `deleted` is what the backend answers to
-- the deletion of the instance, `ok` when there is no backend; the code drops its other answers.
use mini_bpm_engine.Prelude.{ℕ, remove, nat_eq}
use mini_bpm_engine.Domain.Error.{Result}
use mini_bpm_engine.Run.{Run, ◌>>=◌, ◌>>◌, modify, lift, instance_at}
use mini_bpm_engine.Executor.NextActions.{without_pending}

unfoldable pub delete_instance : (deleted : Result (Unit {0})) (instance_id : ℕ) → Run (Unit {0})
delete_instance deleted instance_id = do
  removed_inst ← instance_at instance_id
  modify (λ e. record e { instances = remove e.instances instance_id })
  lift deleted
  modify (without_pending instance_id)
