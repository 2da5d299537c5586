-- ===== src/Executor/Handlers/SubProcesses.antt =====
-- engine-core/src/engine/handlers/sub_processes.rs: call activities and embedded sub-processes.
use mini_bpm_engine.Prelude.{ℕ, String, [], ◌∷◌}
use mini_bpm_engine.Prelude.Text.{format}
use mini_bpm_engine.Domain.Token.{Token}
use mini_bpm_engine.Domain.Definition.{ProcessDefinition}
use mini_bpm_engine.Runtime.Action.{NextAction, continue, wait_for_call_activity}
use mini_bpm_engine.Run.{Env, Run, pure, ◌>>=◌, ◌>>◌, lift, write_instance}
use mini_bpm_engine.Executor.Helpers.{resolve_next_target}
use mini_bpm_engine.Executor.Handlers.{arm_boundary_events, at_node}

module _ (env : Env) where
  unfoldable pub handle_call_activity :
      (instance_id : ℕ)
      → Token
      → ProcessDefinition
      → (current_id called_element : String) → Run NextAction
  handle_call_activity instance_id token def_clone current_id called_element = do
    arm_boundary_events env def_clone current_id instance_id token
    write_instance instance_id (
        at_node current_id
          (format ("🔗 Call Activity '" ∷ current_id ∷ "' invoking '" ∷ called_element ∷ "'" ∷ [])))
    pure (wait_for_call_activity called_element token)

  unfoldable pub handle_embedded_sub_process : Token → (start_node_id : String) → Run NextAction
  handle_embedded_sub_process token start_node_id =
      pure (continue (record token { current_node = start_node_id }))

  unfoldable pub handle_sub_process_end_event :
      Token → ProcessDefinition → (sub_process_id : String) → Run NextAction
  handle_sub_process_end_event token def_clone sub_process_id = do
    next ← lift (resolve_next_target env.json def_clone sub_process_id token.variables)
    pure (continue (record token { current_node = next }))
