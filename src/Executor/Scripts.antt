-- ===== src/Executor/Scripts.antt =====
-- The listener scripts of a node: `run_node_scripts` and `run_end_scripts` of
-- engine-core/src/scripting/runner.rs, and `run_end_scripts` of engine-core/src/engine/executor/completion.rs.
use Prim.Native.String.{◌++◌ as concat}
use mini_bpm_engine.Prelude.{
  ℕ, String, Bool, true, false, Option, none, some, List, [], ◌∷◌, ◌++◌, get, nat_eq, string_eq,
}
use mini_bpm_engine.Domain.Error.{EngineError, script_error, ok, err, no_such_instance}
use mini_bpm_engine.Domain.Token.{Token}
use mini_bpm_engine.Domain.Element.{ListenerEvent, start, end, ExecutionListener}
use mini_bpm_engine.Domain.Definition.{ProcessDefinition, listeners}
use mini_bpm_engine.Runtime.Instance.{ProcessInstance}
use mini_bpm_engine.Run.{Env, Run, pure, raise, ◌>>=◌, ◌>>◌, ask, reads, touch_instance}

abbrev pub event_name : ListenerEvent → String
event_name start = "start"
event_name end = "end"

abbrev pub is_event : ListenerEvent → ListenerEvent → Bool
is_event start start = true
is_event end end = true
is_event _ _ = false

-- The `map_err` of the code.
abbrev pub located : String → ListenerEvent → EngineError → EngineError
located node_id event (script_error msg) = script_error (
    concat "Knoten '"
      (concat node_id (concat "' (" (concat (event_name event) (concat "-Listener): " msg)))))
located node_id event other = other

abbrev pub script_entry : String → ListenerEvent → String
script_entry node_id event =
    concat "📜 Executed " (concat (event_name event) (concat " script on '" (concat node_id "'")))

-- How the scripts went, with the token as they leave it (also after a failure) and their entries.
pub record Scripted : Type 0 where
  pub failure : Option EngineError
  pub token : Token
  pub entries : List String

module _ (env : Env) where
  unfoldable pub run_listeners :
      String → ListenerEvent → List ExecutionListener → Token → List String → Run Scripted
  run_listeners node_id event [] token entries =
      pure (record { failure = none; token = token; entries = entries })
  run_listeners node_id event (l ∷ rest) token entries = elim (is_event l.event event) [
    | false ↦ run_listeners node_id event rest token entries
    | true ↦ ask (λ n. env.run_script n l.script token.variables) >>= λ result. elim result [
      | err e ↦
          pure
            (record { failure = some (located node_id event e); token = token; entries = entries })
      | ok variables ↦
          run_listeners node_id event rest (record token { variables = variables })
            (entries ++ script_entry node_id event ∷ [])
    ]
  ]

  abbrev pub listeners_of : ProcessDefinition → String → List ExecutionListener
  listeners_of def node_id = elim (get (listeners def) node_id) [ none ↦ [] | some ls ↦ ls ]

  unfoldable pub run_node_scripts :
      Token → ProcessDefinition → String → ListenerEvent → Run Scripted
  unfolding run_listeners
  run_node_scripts token def node_id event =
      run_listeners node_id event (listeners_of def node_id) token []

  -- After the end scripts the instance has their entries and the token's variables; after a failure it
  -- has neither.
  abbrev pub after_end_scripts : Scripted → ProcessInstance → ProcessInstance
  after_end_scripts s inst = record inst {
    audit_log = inst.audit_log ++ s.entries;
    variables = s.token.variables;
  }

  -- `run_end_scripts`, whose error the caller handles.
  unfoldable pub try_end_scripts :
      (instance_id : ℕ) → Token → ProcessDefinition → (node_id : String) → Run Scripted
  unfolding run_node_scripts
  try_end_scripts instance_id token def node_id =
      reads (λ e. get e.instances instance_id) >>= λ found. elim found [
        | none ↦
            pure (record {
              failure = some (no_such_instance instance_id);
              token = token;
              entries = [];
            })
        | some inst ↦ run_node_scripts token def node_id end >>= λ s. elim s.failure [
          | some e ↦ pure s
          | none ↦ touch_instance instance_id (after_end_scripts s) >> pure s
        ]
      ]

  abbrev pub or_raise : Scripted → Run Token
  or_raise s = elim s.failure [ some e ↦ raise e | none ↦ pure s.token ]

  -- `run_end_scripts(…).await?`.
  unfoldable pub run_end_scripts :
      (instance_id : ℕ) → Token → ProcessDefinition → (node_id : String) → Run Token
  unfolding try_end_scripts
  run_end_scripts instance_id token def node_id =
      try_end_scripts instance_id token def node_id >>= or_raise
