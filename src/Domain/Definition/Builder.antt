-- ===== src/Domain/Definition/Builder.antt =====
-- `ProcessDefinitionBuilder` of engine-core/src/domain/definition.rs.
pub mod Building
use mini_bpm_engine.Prelude.{
  ℕ, String, Option, none, some, List, [], ◌∷◌, ◌++◌, Map, get, insert, string_eq,
}
use mini_bpm_engine.Prelude.Int.{ℤ, pos}
use mini_bpm_engine.Domain.Element.{
  BpmnElement, SequenceFlow, simple, conditional, ListenerEvent, ExecutionListener,
  ScopeEventListener,
}
use mini_bpm_engine.Domain.Error.{Result, ok, err, ◌>>=◌}
use mini_bpm_engine.Domain.Definition.{ProcessDefinition, definition, SubProcesses}
use mini_bpm_engine.Domain.Definition.Validation.{new as new_definition}

pub record ProcessDefinitionBuilder : Type 0 where
  pub id : String
  pub key : Option ℕ
  pub version : ℤ
  pub nodes : Map String BpmnElement
  pub flows : Map String (List SequenceFlow)
  pub listeners : Map String (List ExecutionListener)
  pub event_listeners : List ScopeEventListener
  pub sub_processes : SubProcesses

unfoldable pub new : String → ProcessDefinitionBuilder
new id = record {
  id = id;
  key = none;
  version = pos 1;
  nodes = [];
  flows = [];
  listeners = [];
  event_listeners = [];
  sub_processes = SubProcesses.nil;
}

unfoldable pub with_key : ProcessDefinitionBuilder → ℕ → ProcessDefinitionBuilder
with_key b key = record b { key = some key }

unfoldable pub with_version : ProcessDefinitionBuilder → ℤ → ProcessDefinitionBuilder
with_version b version = record b { version = version }

unfoldable pub node : ProcessDefinitionBuilder → String → BpmnElement → ProcessDefinitionBuilder
node b id element = record b { nodes = insert b.nodes id element }

abbrev pub or_empty {ℓ} : {A : Type ℓ} → Option (List A) → List A
or_empty none = []
or_empty (some xs) = xs

-- `entry(k).or_empty().push(x)`.
abbrev pub push_at {ℓ} : {A : Type ℓ} → Map String (List A) → String → A → Map String (List A)
push_at m k x = insert m k (or_empty (get m k) ++ x ∷ [])

unfoldable pub flow : ProcessDefinitionBuilder → (from to : String) → ProcessDefinitionBuilder
flow b from to = record b { flows = push_at b.flows from (simple to) }

unfoldable pub conditional_flow :
    ProcessDefinitionBuilder → (from to condition : String) → ProcessDefinitionBuilder
conditional_flow b from to condition = record b {
  flows = push_at b.flows from (conditional to condition);
}

unfoldable pub listener :
    ProcessDefinitionBuilder
    → (node_id : String) → ListenerEvent
    → (script : String) → ProcessDefinitionBuilder
listener b node_id event script = record b {
  listeners = push_at b.listeners node_id (record { event = event; script = script });
}

unfoldable pub scope_event :
    ProcessDefinitionBuilder → ScopeEventListener → ProcessDefinitionBuilder
scope_event b l = record b { event_listeners = b.event_listeners ++ l ∷ [] }

push_sub_process : SubProcesses → ProcessDefinition → SubProcesses
push_sub_process SubProcesses.nil d = SubProcesses.cons d SubProcesses.nil
push_sub_process (SubProcesses.cons c rest) d = SubProcesses.cons c (push_sub_process rest d)

unfoldable pub sub_process : ProcessDefinitionBuilder → ProcessDefinition → ProcessDefinitionBuilder
unfolding push_sub_process
sub_process b d = record b { sub_processes = push_sub_process b.sub_processes d }

abbrev pub set_key : Option ℕ → ProcessDefinition → ProcessDefinition
set_key none d = d
set_key (some key) (definition k i v n f l e s) = definition key i v n f l e s

-- `Uuid::new_v4()` of `ProcessDefinition::new` is the first argument.
unfoldable pub build : ℕ → ProcessDefinitionBuilder → Result ProcessDefinition
build uuid b =
    new_definition uuid b.id b.version b.nodes b.flows b.listeners b.event_listeners b.sub_processes
    >>= λ def. ok (set_key b.key def)
