-- ===== src/DefinitionOps.antt =====
-- engine-core/src/engine/definition_ops.rs: deploying and deleting process definitions.
pub mod Versions
use mini_bpm_engine.Prelude.{
  ℕ, Bool, true, false, Option, none, some, List, [], ◌∷◌, length, insert, remove, contains_key,
  ◌==◌, not, if◌then◌else◌, Map, nat_eq,
}
use mini_bpm_engine.Prelude.Int.{ℤ, succ_i32}
use mini_bpm_engine.Domain.Error.{Result, ok, no_such_definition, definition_has_instances, fail_if}
use mini_bpm_engine.Domain.Definition.{
  ProcessDefinition, SubProcesses, definition, nil, cons, key, id, version,
}
use mini_bpm_engine.Runtime.Instance.{ProcessInstance}
use mini_bpm_engine.Engine.{Engine, perform, persist_definition, emit_event, definition_changed}
use mini_bpm_engine.Registry.{highest_version}
use mini_bpm_engine.Run.{Run, raise, ◌>>=◌, ◌>>◌, reads, modify, lift, effect, for_each}
use mini_bpm_engine.InstanceOps.Deletion.{delete_instance}

-- `highest_version.map(|v| v + 1).unwrap_or(definition.version)`.
abbrev pub normalized_version : (highest_version : Option ℤ) (version : ℤ) → ℤ
normalized_version none version = version
normalized_version (some v) version = succ_i32 v

unfoldable mutual
  -- The deployment of a definition whose version field holds `own`.
  pub deploy_as : ProcessDefinition → (own : ℤ) → Engine → Engine
  deploy_as (definition k i _ nodes flows listeners events sub_processes) own e =
      let v = normalized_version (highest_version e.definitions i) own in
      let def = definition k i v nodes flows listeners events nil in
      perform (deploy_subs sub_processes v (record e { definitions = insert e.definitions k def }))
        (persist_definition k ∷ emit_event definition_changed ∷ [])

  -- The sub-processes one after the other, each with the version of the definition it stands in.
  pub deploy_subs : SubProcesses → (version : ℤ) → Engine → Engine
  deploy_subs nil version e = e
  deploy_subs (cons sub rest) version e = deploy_subs rest version (deploy_as sub version e)

-- The key and the version of the deployment, and the engine after it.
unfoldable pub deploy_definition : ProcessDefinition → Engine → (ℕ × ℤ) × Engine
deploy_definition def e = (
  (key def, normalized_version (highest_version e.definitions (id def)) (version def)),
  deploy_as def (version def) e,
)

-- The identifiers of the instances of a definition.
unfoldable pub associated_instances : (definition_key : ℕ) → Map ℕ ProcessInstance → List ℕ
associated_instances definition_key [] = []
associated_instances definition_key ((k, inst) ∷ rest) =
    let later = associated_instances definition_key rest in
    if inst.definition_key == definition_key then inst.id ∷ later else later

unfoldable pub cascade_over :
    (deleted : Result (Unit {0})) (cascade : Bool) → List ℕ → Run (Unit {0})
cascade_over deleted cascade [] = lift (ok tt)
cascade_over deleted false (i ∷ is) = raise (definition_has_instances (length (i ∷ is)))
cascade_over deleted true (i ∷ is) = for_each (i ∷ is) (delete_instance deleted)

-- `deleted` is what the backend answers to every deletion, `ok` when there is no backend.
unfoldable pub delete_definition :
    (deleted : Result (Unit {0})) (definition_key : ℕ) (cascade : Bool) → Run (Unit {0})
delete_definition deleted definition_key cascade = do
  found ← reads (λ e. contains_key e.definitions definition_key)
  lift (fail_if (not found) (no_such_definition definition_key))
  instances ← reads (λ e. associated_instances definition_key e.instances)
  cascade_over deleted cascade instances
  modify (λ e. record e { definitions = remove e.definitions definition_key })
  lift deleted
  effect (emit_event definition_changed)
