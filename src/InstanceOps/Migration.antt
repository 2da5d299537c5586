-- ===== src/InstanceOps/Migration.antt =====
-- `migrate_instance` of engine-core/src/engine/instance_ops.rs: an instance moves to another definition.
pub mod Keys
pub mod Placement
use Prim.Native.String.{◌++◌ as concat}
use mini_bpm_engine.Prelude.{
  ℕ, String, Bool, not, Option, none, some, List, [], ◌∷◌, ◌++◌, Map, map, map_values, values, get,
  insert, contains_key, ◌==◌, if◌then◌else◌, nat_eq, string_eq,
}
use mini_bpm_engine.Prelude.Int.{show}
use mini_bpm_engine.Domain.Token.{Token}
use mini_bpm_engine.Domain.Element.{BpmnElement}
use mini_bpm_engine.Domain.Error.{Result, ok, err, ◌>>=◌, ◌>>◌, fail_if, orphaned_token}
use mini_bpm_engine.Domain.Definition.{ProcessDefinition, id, version, nodes}
use mini_bpm_engine.Runtime.Pending.{
  PendingUserTask, PendingServiceTask, PendingTimer, PendingMessageCatch,
}
use mini_bpm_engine.Runtime.Instance.{ActiveToken, ProcessInstance}
use mini_bpm_engine.Runtime.AuditLog.{push_audit_log}
use mini_bpm_engine.Engine.{
  Engine, HistoryEventType, persist_instance, record_history_event, perform, instance_of,
  definition_of,
}
use mini_bpm_engine.InstanceOps.{check_suspendable}

-- The node that stands for another one in the target definition.
abbrev pub resolve : Map String String → String → String
resolve node_mapping node = elim (get node_mapping node) [ none ↦ node | some new_node ↦ new_node ]

-- The nodes that the instance and its tokens stand on, in the order of the checks.
abbrev pub occupied : ProcessInstance → List String
occupied inst =
    inst.current_node
    ∷ (map (λ t. t.current_node) (values inst.tokens)
        ++ map (λ at. at.token.current_node) inst.active_tokens)

unfoldable pub check_nodes :
    Map String BpmnElement → (node_mapping : Map String String) → List String → Result (Unit {0})
check_nodes nodes node_mapping [] = ok tt
check_nodes nodes node_mapping (node ∷ rest) =
    fail_if (not (contains_key nodes (resolve node_mapping node)))
      (orphaned_token (resolve node_mapping node))
    >> check_nodes nodes node_mapping rest

-- `drain().map(…).collect()`: of two keys that become one the later entry stays.
abbrev pub rekey {ℓ} :
    {V : Type ℓ} → Map String String → (done : Map String V) → Map String V → Map String V
rekey node_mapping done [] = done
rekey node_mapping done ((k, v) ∷ m) = rekey node_mapping (insert done (resolve node_mapping k) v) m

abbrev pub moved_token : Map String String → Token → Token
moved_token node_mapping t = record t { current_node = resolve node_mapping t.current_node }

abbrev pub moved_active : Map String String → ActiveToken → ActiveToken
moved_active node_mapping at = record at { token = moved_token node_mapping at.token }

abbrev pub migrated_entry : ProcessDefinition → String
migrated_entry def =
    concat "🔧 Migriert zu Definition "
      (concat (id def) (concat " (v" (concat (show (version def)) ")")))

unfoldable pub migrated_instance :
    (target_definition_key : ℕ)
    → ProcessDefinition
    → Map String String
    → ProcessInstance
    → ProcessInstance
migrated_instance target_definition_key def node_mapping inst =
    push_audit_log
      (record inst {
        definition_key = target_definition_key;
        current_node = resolve node_mapping inst.current_node;
        tokens = map_values (moved_token node_mapping) inst.tokens;
        active_tokens = map (moved_active node_mapping) inst.active_tokens;
        join_barriers = rekey node_mapping [] inst.join_barriers;
        multi_instance_state = rekey node_mapping [] inst.multi_instance_state;
      })
      (migrated_entry def)

module _ (instance_id target_definition_key : ℕ) (node_mapping : Map String String) where
  unfoldable pub moved_user_task : PendingUserTask → PendingUserTask
  moved_user_task t =
      if t.instance_id == instance_id
      then record t { node_id = resolve node_mapping t.node_id }
      else t

  unfoldable pub moved_service_task : PendingServiceTask → PendingServiceTask
  moved_service_task t =
      if t.instance_id == instance_id
      then record t {
        node_id = resolve node_mapping t.node_id;
        definition_key = target_definition_key;
      }
      else t

  unfoldable pub moved_timer : PendingTimer → PendingTimer
  moved_timer t =
      if t.instance_id == instance_id
      then record t { node_id = resolve node_mapping t.node_id }
      else t

  unfoldable pub moved_message_catch : PendingMessageCatch → PendingMessageCatch
  moved_message_catch c =
      if c.instance_id == instance_id
      then record c { node_id = resolve node_mapping c.node_id }
      else c

  unfoldable pub after_migration : Engine → ProcessDefinition → ProcessInstance → Engine
  unfolding migrated_instance moved_user_task moved_service_task moved_timer moved_message_catch
  after_migration e def inst =
      perform
        (record e {
          instances =
              insert e.instances instance_id
                (migrated_instance target_definition_key def node_mapping inst);
          pending_user_tasks = map_values moved_user_task e.pending_user_tasks;
          pending_service_tasks = map_values moved_service_task e.pending_service_tasks;
          pending_timers = map_values moved_timer e.pending_timers;
          pending_message_catches = map_values moved_message_catch e.pending_message_catches;
        })
        (record_history_event instance_id HistoryEventType.instance_migrated
          ∷ persist_instance instance_id
          ∷ [])

  -- The guard on the state is the one of suspending.
  unfoldable pub migrate_instance : Engine → Result Engine
  unfolding check_suspendable check_nodes after_migration
  migrate_instance e = do
    def ← definition_of e target_definition_key
    inst ← instance_of e instance_id
    check_suspendable instance_id inst.state
    check_nodes (nodes def) node_mapping (occupied inst)
    ok (after_migration e def inst)
