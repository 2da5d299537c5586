-- ===== src/WaitStates.antt =====
-- engine-core/src/engine/mod.rs: cancelling and restoring wait states, and what user_task.rs,
-- service_task.rs, timer_processor.rs and message_processor.rs share when a waiting token goes on.
-- Deletions that go to the backend directly are left out.
use mini_bpm_engine.Prelude.{
  ℕ, String, Bool, true, false, ◌&&◌, not, none, some, List, [], ◌∷◌, ◌++◌, Map, length, filter,
  contains, get, insert, remove, values, ◌==◌, if◌then◌else◌, nat_eq, string_eq,
}
use mini_bpm_engine.Prelude.Text.{format, decimal}
use mini_bpm_engine.Domain.Error.{Result, ok, err, invalid_definition}
use mini_bpm_engine.Domain.Element.{BpmnElement, boundary_timer_event, boundary_message_event}
use mini_bpm_engine.Domain.Token.{Token}
use mini_bpm_engine.Domain.Definition.{nodes}
use mini_bpm_engine.Runtime.Instance.{
  running, parallel_execution, is_parallel, is_suspended, ProcessInstance,
}
use mini_bpm_engine.Runtime.Pending.{
  PendingUserTask, PendingServiceTask, PendingTimer, PendingMessageCatch,
}
use mini_bpm_engine.Engine.{
  Engine, record_history_event, token_advanced, remove_persisted_user_task,
  remove_persisted_service_task,
}
use mini_bpm_engine.Run.{
  Env, Run, pure, ◌>>=◌, ◌>>◌, reads, modify, lift, ask, effect, instance_at, write_instance,
  touch_instance, for_each,
}

abbrev pub timer_attached : String → BpmnElement → Bool
timer_attached task_node_id (boundary_timer_event attached_to t c) = attached_to == task_node_id
timer_attached task_node_id _ = false

abbrev pub message_attached : String → BpmnElement → Bool
message_attached task_node_id (boundary_message_event attached_to m c) = attached_to == task_node_id
message_attached task_node_id _ = false

-- `bound_timers` and `bound_messages`.
unfoldable pub bound_nodes : (BpmnElement → Bool) → Map String BpmnElement → List String
bound_nodes test [] = []
bound_nodes test ((id, node) ∷ rest) =
    let later = bound_nodes test rest in if test node then id ∷ later else later

-- The nodes of the instance's definition, if both are known.
abbrev pub nodes_of : Engine → (instance_id : ℕ) → Map String BpmnElement
nodes_of e instance_id = elim (get e.instances instance_id) [
  | none ↦ []
  | some inst ↦ elim (get e.definitions inst.definition_key) [ none ↦ [] | some def ↦ nodes def ]
]

-- `retain(|_, t| !p(t))`.
unfoldable pub retain_unless {ℓ} : {A : Type ℓ} → (A → Bool) → Map ℕ A → Map ℕ A
retain_unless p pending = filter (λ entry. not (p entry.1)) pending

unfoldable pub cancel_boundary_timers : (instance_id : ℕ) (task_node_id : String) → Engine → Engine
cancel_boundary_timers instance_id task_node_id e =
    let bound_timers = bound_nodes (timer_attached task_node_id) (nodes_of e instance_id) in
    record e {
      pending_timers =
          retain_unless (λ t. t.instance_id == instance_id && contains bound_timers t.node_id)
            e.pending_timers;
    }

unfoldable pub cancel_boundary_message_catches :
    (instance_id : ℕ) (task_node_id : String) → Engine → Engine
cancel_boundary_message_catches instance_id task_node_id e =
    let bound_messages = bound_nodes (message_attached task_node_id) (nodes_of e instance_id) in
    record e {
      pending_message_catches =
          retain_unless (λ m. m.instance_id == instance_id && contains bound_messages m.node_id)
            e.pending_message_catches;
    }

abbrev cancelled_entry : String → ℕ → List String
cancelled_entry kind cancelled =
    if cancelled == 0
    then []
    else format ("⭮ Event-based gateway: " ∷ decimal cancelled ∷ kind ∷ []) ∷ []

unfoldable pub clear_wait_states_for_token : (instance_id token_id : ℕ) → Run (Unit {0})
clear_wait_states_for_token instance_id token_id = do
  timers ← reads (λ e. length (
      filter (λ t. t.instance_id == instance_id && t.token_id == token_id)
        (values e.pending_timers)))
  catches ← reads (λ e. length (
      filter (λ m. m.instance_id == instance_id && m.token_id == token_id)
        (values e.pending_message_catches)))
  if timers == 0 && catches == 0
      then pure tt
      else (touch_instance instance_id (λ inst. record inst {
        audit_log =
            inst.audit_log
            ++ cancelled_entry " alternative timer(s) cancelled" timers
            ++ cancelled_entry " alternative message catch(es) cancelled" catches;
      })
          >> effect (record_history_event instance_id token_advanced))
  modify (λ e. record e {
    pending_timers =
        retain_unless (λ t. t.instance_id == instance_id && t.token_id == token_id)
          e.pending_timers;
    pending_message_catches =
        retain_unless (λ m. m.instance_id == instance_id && m.token_id == token_id)
          e.pending_message_catches;
  })

unfoldable pub restore_user_task : PendingUserTask → Engine → Engine
restore_user_task task e = record e {
  pending_user_tasks = insert e.pending_user_tasks task.task_id task;
}

unfoldable pub restore_service_task : PendingServiceTask → Engine → Engine
restore_service_task task e = record e {
  pending_service_tasks = insert e.pending_service_tasks task.id task;
}

unfoldable pub restore_timer : PendingTimer → Engine → Engine
restore_timer timer e = record e { pending_timers = insert e.pending_timers timer.id timer }

unfoldable pub restore_message_catch : PendingMessageCatch → Engine → Engine
restore_message_catch catch e = record e {
  pending_message_catches = insert e.pending_message_catches catch.id catch;
}

abbrev pub is_instance_suspended : Engine → (instance_id : ℕ) → Bool
is_instance_suspended e instance_id = elim (get e.instances instance_id) [
  | none ↦ false
  | some inst ↦ is_suspended inst.state
]

-- `if !matches!(inst.state, ParallelExecution { .. }) { inst.state = Running }`.
abbrev pub run_again : ProcessInstance → ProcessInstance
run_again inst = if is_parallel inst.state then inst else record inst { state = running }

module _ (env : Env) (instance_id token_id : ℕ) where
  abbrev pub token_of : ProcessInstance → Result Token
  token_of inst = elim (get inst.tokens token_id) [
    | none ↦ err (
        invalid_definition
          (format ("Token " ∷ env.uuid_text token_id ∷ " not found in instance" ∷ [])))
    | some token ↦ ok token
  ]

  -- `inst.tokens.remove(&token_id).ok_or_else(…)?`.
  unfoldable pub take_token : Run Token
  take_token = do
    inst ← instance_at instance_id
    token ← lift (token_of inst)
    write_instance instance_id (λ i. record i { tokens = remove i.tokens token_id })
    pure token

  abbrev pub with_branch : Token → ProcessInstance → ProcessInstance
  with_branch branch inst = record inst {
    tokens = insert inst.tokens branch.id branch;
    active_tokens =
        inst.active_tokens
        ++ record {
          token = branch;
          fork_id = some branch.current_node;
          branch_index = length inst.active_tokens;
          completed = false;
        }
          ∷ [];
    state =
        if is_parallel inst.state
        then inst.state
        else parallel_execution (length (insert inst.tokens branch.id branch));
  }

  -- A non-interrupting boundary event leaves the token where it is and adds a copy.
  unfoldable pub branch_token : Run Token
  branch_token = do
    inst ← instance_at instance_id
    original ← lift (token_of inst)
    branch ← ask (λ n. record original { id = env.uuid n })
    write_instance instance_id (with_branch branch)
    pure branch

  abbrev waiting_tasks {ℓ} :
      {A : Type ℓ} → (owner : A → ℕ) (node : A → String) (token : A → ℕ) → String → Map ℕ A → List ℕ
  waiting_tasks owner node token node_to_cancel [] = []
  waiting_tasks owner node token node_to_cancel ((id, task) ∷ rest) =
      let later = waiting_tasks owner node token node_to_cancel rest in
      if owner task == instance_id && node task == node_to_cancel && token task == token_id
      then id ∷ later
      else later

  -- The tasks of an interrupted activity.
  unfoldable pub cancel_tasks : (node_to_cancel : String) → Run (Unit {0})
  cancel_tasks node_to_cancel = do
    to_remove_ut ← reads (λ e.
        waiting_tasks (λ t. t.instance_id) (λ t. t.node_id) (λ t. t.token_id) node_to_cancel
          e.pending_user_tasks)
    for_each to_remove_ut (λ id.
        modify (λ e. record e { pending_user_tasks = remove e.pending_user_tasks id })
        >> effect (remove_persisted_user_task id))
    to_remove_st ← reads (λ e.
        waiting_tasks (λ t. t.instance_id) (λ t. t.node_id) (λ t. t.token_id) node_to_cancel
          e.pending_service_tasks)
    for_each to_remove_st (λ id.
        modify (λ e. record e { pending_service_tasks = remove e.pending_service_tasks id })
        >> effect (remove_persisted_service_task id))

  -- The token that an event resumes, with what an interrupting one cancels.
  unfoldable pub resumed_token : (is_non_interrupting : Bool) → Run Token
  resumed_token true = branch_token
  resumed_token false = take_token >>= λ token. cancel_tasks token.current_node >> pure token
