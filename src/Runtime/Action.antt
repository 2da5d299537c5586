-- ===== src/Runtime/Action.antt =====
-- `NextAction` of engine-core/src/runtime/instance.rs: what a step asks the execution loop to do.
use mini_bpm_engine.Prelude.{String, List}
use mini_bpm_engine.Domain.Token.{Token}
use mini_bpm_engine.Runtime.Pending.{
  PendingUserTask, PendingServiceTask, PendingTimer, PendingMessageCatch,
}

mutual
  pub data NextAction : Type 0 where
    continue : Token → NextAction
    continue_multiple : List Token → NextAction
    wait_for_user : PendingUserTask → NextAction
    wait_for_service_task : PendingServiceTask → NextAction
    wait_for_join : (gateway_id : String) (token : Token) → NextAction
    wait_for_timer : PendingTimer → NextAction
    wait_for_message : PendingMessageCatch → NextAction
    wait_for_event_group : NextActions → NextAction
    complete : NextAction
    error_end : (error_code : String) → NextAction
    escalation_end : (escalation_code : String) → NextAction
    spawn_and_continue : (main : Token) (spawned : List Token) → NextAction
    terminate : NextAction
    wait_for_call_activity : (called_element : String) (token : Token) → NextAction
    multi_instance_fork : (node_id : String) (tokens : List Token) → NextAction
    multi_instance_next : (node_id : String) (token : Token) → NextAction

  -- `Vec<NextAction>`.
  pub data NextActions : Type 0 where
    nil : NextActions
    cons : NextAction → NextActions → NextActions
