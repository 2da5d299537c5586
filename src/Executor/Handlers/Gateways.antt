-- ===== src/Executor/Handlers/Gateways.antt =====
-- engine-core/src/engine/handlers/gateways.rs: what happens at a gateway.
use mini_bpm_engine.Prelude.{ℕ, suc, ◌+◌, String, Option, none, some, List, [], ◌∷◌, length}
use mini_bpm_engine.Prelude.Text.{format, decimal}
use mini_bpm_engine.Domain.Error.{Result, ok, err, invalid_definition, ◌>>=◌ as then_ok}
use mini_bpm_engine.Domain.Element.{
  BpmnElement, SequenceFlow, timer_catch_event, message_catch_event,
}
use mini_bpm_engine.Domain.Timer.{next_expiry}
use mini_bpm_engine.Domain.Token.{Token}
use mini_bpm_engine.Domain.Definition.{ProcessDefinition, get_node, next_nodes}
use mini_bpm_engine.Runtime.Action.{
  NextAction, NextActions, nil, cons, continue, continue_multiple, wait_for_timer, wait_for_message,
  wait_for_event_group,
}
use mini_bpm_engine.Runtime.AuditLog.{push_audit_log}
use mini_bpm_engine.Boundary.{expiry_or_now}
use mini_bpm_engine.Gateway.{
  Outcome, execute_parallel_gateway, execute_exclusive_gateway, execute_inclusive_gateway,
  execute_complex_gateway,
}
use mini_bpm_engine.Run.{Env, Run, pure, ◌>>=◌, ◌>>◌, lift, ask, asked_for, write_instance}
use mini_bpm_engine.Executor.Scripts.{run_end_scripts}
use mini_bpm_engine.Executor.Handlers.{at_node, parked}

-- The number of tokens, and so of identifiers, in an action.
abbrev pub forked : NextAction → ℕ
forked (continue_multiple f) = length f
forked _ = 0

-- A gateway's outcome, whose tokens take their identifiers from the world.
unfoldable pub routed : Env → ((ℕ → ℕ) → Outcome) → Run (NextAction × Token)
routed env route = do
  outcome ← ask (λ n. route (λ k. env.uuid (n + k)))
  r ← lift outcome
  asked_for (forked r.0)
  pure r

-- The write for `ContinueMultiple`; the other actions leave the instance as it is.
unfoldable pub write_fork :
    (instance_id : ℕ) (current_id kind : String) → NextAction → Run (Unit {0})
write_fork instance_id current_id kind (continue_multiple f) = write_instance instance_id (
    at_node current_id (
      format (
        kind
        ∷ " gateway '"
        ∷ current_id
        ∷ "' → forked to "
        ∷ decimal (length f)
        ∷ " path(s)"
        ∷ [])))
write_fork instance_id current_id kind _ = pure tt

abbrev pub waits : NextActions → ℕ
waits nil = 0
waits (cons action rest) = suc (waits rest)

module _ (env : Env) (instance_id : ℕ) (token : Token) (def_clone : ProcessDefinition)
    (current_id : String) where
  unfoldable pub handle_parallel_gateway : Run NextAction
  handle_parallel_gateway = do
    after ← run_end_scripts env instance_id token def_clone current_id
    r ← routed env (λ uuids. execute_parallel_gateway uuids def_clone current_id after)
    write_fork instance_id current_id "■ Parallel" r.0
    pure r.0

  -- The entry of a gateway that takes one path.
  unfoldable pub write_path : (kind target : String) → Run (Unit {0})
  write_path kind target = write_instance instance_id (λ inst.
      record (push_audit_log inst
        (format (kind ∷ " gateway '" ∷ current_id ∷ "' → took path to '" ∷ target ∷ "'" ∷ []))) {
          current_node = target;
        })

  unfoldable pub handle_exclusive_gateway : (default : Option String) → Run NextAction
  handle_exclusive_gateway default = do
    after ← run_end_scripts env instance_id token def_clone current_id
    r ← lift (execute_exclusive_gateway env.json def_clone current_id after default)
    write_path "◆ Exclusive" r.1.current_node
    pure r.0

  unfoldable pub handle_inclusive_gateway : Run NextAction
  handle_inclusive_gateway = do
    after ← run_end_scripts env instance_id token def_clone current_id
    r ← routed env (λ uuids. execute_inclusive_gateway env.json uuids def_clone current_id after)
    write_fork instance_id current_id "◇ Inclusive" r.0
    pure r.0

  unfoldable pub write_complex : NextAction → Run (Unit {0})
  write_complex (continue next_token) = write_path "⟡ Complex" next_token.current_node
  write_complex action = write_fork instance_id current_id "⟡ Complex" action

  unfoldable pub handle_complex_gateway : (default : Option String) → Run NextAction
  handle_complex_gateway default = do
    after ← run_end_scripts env instance_id token def_clone current_id
    r ←
        routed env
          (λ uuids. execute_complex_gateway env.json uuids def_clone current_id after default)
    write_complex r.0
    pure r.0

  abbrev pub then_cons : NextAction → Result NextActions → Result NextActions
  then_cons action rest = then_ok rest (λ actions. ok (cons action actions))

  -- The wait at a target; `n` counts the answers of the world.
  unfoldable pub wait_at : (n : ℕ) (target_node : String) → BpmnElement → Result NextAction
  wait_at n target_node (timer_catch_event timer_def) = ok (
      wait_for_timer (record {
        id = env.uuid n;
        instance_id = instance_id;
        node_id = target_node;
        expires_at = expiry_or_now (next_expiry env.cron timer_def (env.now n)) (env.now n);
        token_id = token.id;
        timer_def = some timer_def;
        remaining_repetitions = none;
      }))
  wait_at n target_node (message_catch_event message_name) = ok (
      wait_for_message (record {
        id = env.uuid n;
        instance_id = instance_id;
        node_id = target_node;
        message_name = message_name;
        token_id = token.id;
      }))
  wait_at n target_node _ = err (
      invalid_definition
        (format ("EventBasedGateway target '" ∷ target_node ∷ "' is not a catch event" ∷ [])))

  unfoldable pub waits_at : (n : ℕ) → List SequenceFlow → Result NextActions
  waits_at n [] = ok nil
  waits_at n (sf ∷ rest) =
      let later = waits_at (suc n) rest in
      elim (get_node def_clone sf.target) [
        | none ↦ later
        | some target_element ↦
            then_ok (wait_at n sf.target target_element) (λ action. then_cons action later)
      ]

  unfoldable pub handle_event_based_gateway : Run NextAction
  handle_event_based_gateway = do
    after ← run_end_scripts env instance_id token def_clone current_id
    let outgoing = next_nodes def_clone current_id
    found ← ask (λ n. waits_at n outgoing)
    actions ← lift found
    asked_for (length outgoing)
    write_instance instance_id (
        parked after current_id (
          format (
            "⭮ Event-based gateway '"
            ∷ current_id
            ∷ "' waiting for "
            ∷ decimal (waits actions)
            ∷ " alternative events"
            ∷ [])))
    pure (wait_for_event_group actions)
