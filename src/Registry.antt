-- ===== src/Registry.antt =====
-- engine-core/src/engine/registry.rs: the registry of process definitions.
pub mod Latest
use mini_bpm_engine.Prelude.{
  ℕ, String, Bool, true, false, Option, none, some, List, [], ◌∷◌, Map, ◌==◌, if◌then◌else◌,
  string_eq,
}
use mini_bpm_engine.Prelude.Int.{ℤ, leb_int, max_int}
use mini_bpm_engine.Domain.Definition.{ProcessDefinition, id, version}

abbrev pub Definitions : Type 0
Definitions = Map ℕ ProcessDefinition

-- `filter(id == bpmn_id)`.
unfoldable pub with_bpmn_id : (bpmn_id : String) → Definitions → Definitions
with_bpmn_id bpmn_id [] = []
with_bpmn_id bpmn_id ((key, def) ∷ rest) =
    let later = with_bpmn_id bpmn_id rest in if id def == bpmn_id then (key, def) ∷ later else later

-- `max_by_key(version)`: of equal versions the last one.
unfoldable pub latest_of : Definitions → Option (ℕ × ProcessDefinition)
latest_of [] = none
latest_of ((key, def) ∷ rest) = elim (latest_of rest) [
  | none ↦ some (key, def)
  | some (k, d) ↦ if leb_int (version def) (version d) then some (k, d) else some (key, def)
]

unfoldable pub find_latest_by_bpmn_id :
    Definitions → (bpmn_id : String) → Option (ℕ × ProcessDefinition)
find_latest_by_bpmn_id definitions bpmn_id = latest_of (with_bpmn_id bpmn_id definitions)

unfoldable pub max_version : Definitions → Option ℤ
max_version [] = none
max_version ((key, def) ∷ rest) = elim (max_version rest) [
  | none ↦ some (version def)
  | some v ↦ some (max_int (version def) v)
]

unfoldable pub highest_version : Definitions → (bpmn_id : String) → Option ℤ
highest_version definitions bpmn_id = max_version (with_bpmn_id bpmn_id definitions)
