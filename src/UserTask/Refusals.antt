-- ===== src/UserTask/Refusals.antt =====
-- When a user task is not completed.
use mini_bpm_engine.Prelude.{
  ℕ, ◌≡◌, refl, sym, subst, true, some, get, insert, remove, Map, get-insert, get-insert_self,
  get-remove, arith, nat_eq,
}
use mini_bpm_engine.Domain.Error.{instance_suspended}
use mini_bpm_engine.Domain.Json.{Variables}
use mini_bpm_engine.Domain.Token.{Token}
use mini_bpm_engine.Runtime.Pending.{PendingUserTask}
use mini_bpm_engine.Run.{Env, World, raises, Run, raise, ◌>>=◌, reads, modify}
use mini_bpm_engine.WaitStates.{is_instance_suspended}
use mini_bpm_engine.UserTask.{
  without_user_task, complete_unless, complete_found, complete_user_task,
}

-- A task that is taken out and put back: the store answers as before for every identifier.
put_back :
    (tasks : Map ℕ PendingUserTask) (task_id : ℕ) (pending : PendingUserTask)
    → get tasks task_id ≡ some pending
    → (j : ℕ) → get (insert (remove tasks task_id) task_id pending) j ≡ get tasks j
put_back tasks task_id pending present j = ground (
  arith,
  get-insert (remove tasks task_id) task_id j pending,
  get-remove tasks task_id j,
  nat_eq.equal_iff task_id j,
)

-- The engine with the task pending, every other user task that there was and no more, and otherwise as before.
abbrev pub IsAsBefore : (task_id : ℕ) → PendingUserTask → (before after : World) → Type 0
IsAsBefore task_id pending before after =
    (get after.engine.pending_user_tasks task_id ≡ some pending)
    × ((j : ℕ) → get after.engine.pending_user_tasks j ≡ get before.engine.pending_user_tasks j)
    × (after.engine.definitions ≡ before.engine.definitions)
    × (after.engine.instances ≡ before.engine.instances)
    × (after.engine.pending_service_tasks ≡ before.engine.pending_service_tasks)
    × (after.engine.pending_timers ≡ before.engine.pending_timers)
    × (after.engine.pending_message_catches ≡ before.engine.pending_message_catches)
    × (after.engine.effects ≡ before.engine.effects)

module _ (env : Env) (batch : ℕ → Token → Run (Unit {0})) (task_id : ℕ) (vars : Variables)
    (w : World) where
  -- A user task of a suspended instance is refused. It stays pending, every other user task is pending as
  -- before and no new one is, and the definitions, the instances, the service tasks, the timers, the
  -- message catches and the recorded calls are as before.
  pub complete-suspended :
      (pending : PendingUserTask)
      → get w.engine.pending_user_tasks task_id ≡ some pending
      → is_instance_suspended w.engine pending.instance_id ≡ true
      → let (exit, w') = complete_user_task env batch task_id vars w in
        (exit ≡ raises (instance_suspended pending.instance_id)) × IsAsBefore task_id pending w w'
  unfolding complete_user_task complete_found complete_unless raise ◌>>=◌ reads modify
  complete-suspended pending present suspended =
      subst
        (λ found.
          let (exit, w') = complete_found env batch task_id vars found w in
          (exit ≡ raises (instance_suspended pending.instance_id))
          × IsAsBefore task_id pending w w')
        (sym present)
        (subst
          (λ b.
            let (exit, w') =
              complete_unless env batch task_id vars pending b
                (modify (without_user_task task_id) w).1 in
            (exit ≡ raises (instance_suspended pending.instance_id))
            × IsAsBefore task_id pending w w')
          (sym suspended)
          (
            refl,
            (
              get-insert_self (remove w.engine.pending_user_tasks task_id) task_id pending,
              put_back w.engine.pending_user_tasks task_id pending present,
              refl,
              refl,
              refl,
              refl,
              refl,
              refl,
            ),
          ))
