-- ===== src/Tests/Calls.antt =====
-- Sequences of calls at concrete inputs.
use mini_bpm_engine.Prelude.{
  ℕ, ◌+◌, String, ◌≡◌, refl, none, some, List, [], ◌∷◌, ◌++◌, map, All, get, arith, nat_eq,
  string_eq,
}
use mini_bpm_engine.Prelude.Int.{pos}
use mini_bpm_engine.Prelude.Text.{decimal}
use mini_bpm_engine.Domain.Error.{ok, instance_suspended}
use mini_bpm_engine.Domain.Definition.{definition, nil}
use mini_bpm_engine.Domain.Token.{Token}
use mini_bpm_engine.Runtime.Action.{terminate}
use mini_bpm_engine.Runtime.Instance.{suspended, running, CompensationRecord}
use mini_bpm_engine.Runtime.Pending.{PendingUserTask}
use mini_bpm_engine.Engine.{Engine}
use mini_bpm_engine.Run.{Env, World, Run, returns, raises, modify}
use mini_bpm_engine.ServiceTask.{fetch_and_lock_service_tasks}
use mini_bpm_engine.ServiceTask.Completion.{not_owned}
use mini_bpm_engine.ServiceTask.Exclusion.{AreApart}
use mini_bpm_engine.Executor.Batch.{run_instance_batch}
use mini_bpm_engine.Executor.NextActions.{handle_next_action}
use mini_bpm_engine.Executor.NextActions.Termination.{HasNothingPending, HasEnded, terminate_lem}
use mini_bpm_engine.Registry.{with_bpmn_id, max_version, find_latest_by_bpmn_id, highest_version}
use mini_bpm_engine.DefinitionOps.{deploy_definition}
use mini_bpm_engine.DefinitionOps.Versions.{IsAbove, deploy_latest}
use mini_bpm_engine.Registry.Latest.{IsLatestFor, find_latest_lem}
use mini_bpm_engine.UserTask.{complete_user_task}
use mini_bpm_engine.UserTask.Refusals.{IsAsBefore, complete-suspended}
use mini_bpm_engine.Operations.{
  Operation, start_instance, fetch, service_task_done, service_task_failed, lock_extended,
  bpmn_error, replay,
}
use mini_bpm_engine.Operations.Exclusion.{started, replay-apart}
use mini_bpm_engine.Operations.Ownership.{IsRefused, stranger-IsRefused}
use mini_bpm_engine.Filing.{IsFiled}
use mini_bpm_engine.Filing.Operations.{replay-IsFiled}
use mini_bpm_engine.Tests.Data.{
  json, order, order_nodes, order_flows, forked, x_is_1, token_at, task, engine,
}

-- Identifiers are drawn in order, and so are the seconds of the clock; no script is run.
abbrev env : Env
env = record {
  json = json;
  cron = record { find_next_occurrence = λ expression from. none };
  uuid = λ n. 100 + n;
  uuid_text = decimal;
  now = λ n. n;
  run_script = λ n script variables. ok variables;
  debug_text = λ text. text;
  error_text = λ e. "error";
  text_of = λ variables name. none;
}

-- An order is started; both its service tasks are fetched and completed.
abbrev calls : List Operation
calls =
    start_instance 7 x_is_1
    ∷ fetch "w1" 10 ("pack" ∷ "bill" ∷ []) (pos 30)
    ∷ service_task_done 108 "w1" []
    ∷ service_task_done 111 "w1" []
    ∷ []

abbrev before : World
before = started ((7, order) ∷ [])

abbrev no_batch : ℕ → Token → Run (Unit {0})
no_batch = run_instance_batch env 0

replay-IsFiled_example : IsFiled (replay env 2 calls before).engine
replay-IsFiled_example = replay-IsFiled env 2 calls before (tt, tt, tt, tt, tt)

replay-apart_example :
    let e = (replay env 2 (start_instance 7 x_is_1 ∷ []) before).engine in
    let (e', result) = fetch_and_lock_service_tasks 0 "w1" 1 ("pack" ∷ []) (pos 30) e in
    let (e'', result') = fetch_and_lock_service_tasks 1 "w2" 5 ("pack" ∷ "bill" ∷ []) (pos 30) e' in
    AreApart result result'
replay-apart_example =
    replay-apart env 2 ((7, order) ∷ []) (start_instance 7 x_is_1 ∷ []) 0 "w1" 1 ("pack" ∷ [])
      (pos 30) 1 "w2" 5 ("pack" ∷ "bill" ∷ []) (pos 30) (omega arith)

abbrev world : Engine → World
world e = record { engine = e; asked = 0 }

terminate_lem_example :
    let (exit, w') =
      handle_next_action env no_batch 1 terminate 10 "a" (token_at 11 "b" ∷ []) (world engine) in
    (exit ≡ returns []) × HasNothingPending 1 w'.engine × HasEnded 1 w'.engine
terminate_lem_example = terminate_lem env no_batch 1 10 "a" (token_at 11 "b" ∷ []) (world engine)

abbrev approval : PendingUserTask
approval = record {
  task_id = 30;
  instance_id = 1;
  node_id = "a";
  assignee = "ada";
  token_id = 10;
  created_at = 0;
  business_key = none;
}

abbrev halted : World
halted = world (record engine {
  instances = (1, record forked { state = suspended running }) ∷ [];
  pending_user_tasks = (30, approval) ∷ [];
})

complete-suspended_example :
    let (exit, w') = complete_user_task env no_batch 30 x_is_1 halted in
    (exit ≡ raises (instance_suspended 1)) × IsAsBefore 30 approval halted w'
unfolding get
complete-suspended_example = complete-suspended env no_batch 30 x_is_1 halted approval refl refl

stranger-IsRefused_example :
    All (IsRefused env 1 (not_owned 21 (task 21 "pack" (some "w1"))) (world engine)) (
      service_task_done 21 "w2" x_is_1
      ∷ bpmn_error 21 "w2" "late"
      ∷ service_task_failed 21 "w2" none none none
      ∷ lock_extended 21 "w2" (pos 5)
      ∷ [])
unfolding get
stranger-IsRefused_example =
    stranger-IsRefused env 1 21 (task 21 "pack" (some "w1")) "w2" (world engine) refl refl x_is_1
      "late" none none none (pos 5)

abbrev record_of : (activity handler : String) → CompensationRecord
record_of activity handler = record { activity_id = activity; handler_node_id = handler }

-- Two activities are registered; the definition lacks the handler of a third one.
abbrev registered : List CompensationRecord
registered = record_of "x" "a" ∷ record_of "y" "gone" ∷ record_of "z" "b" ∷ []

-- A nested batch that leaves a user task at the node that it starts from.
abbrev leave_task : ℕ → Token → Run (Unit {0})
leave_task instance_id t = modify (λ e. record e {
  pending_user_tasks =
      e.pending_user_tasks ++ (t.id, record approval { node_id = t.current_node }) ∷ [];
})

abbrev left_tasks : Engine → List String
left_tasks e = map (λ p. p.1.node_id) e.pending_user_tasks

find_latest_lem_example :
    IsLatestFor
      ((7, order) ∷ [])
      "order"
      (find_latest_by_bpmn_id ((7, order) ∷ []) "order")
      (highest_version ((7, order) ∷ []) "order")
find_latest_lem_example = find_latest_lem ((7, order) ∷ []) "order"

-- The order process is deployed again under another key.
deploy_latest_example :
    let ((key, v'), e') =
      deploy_definition (definition 8 "order" (pos 1) order_nodes order_flows [] [] nil) engine in
    (key ≡ 8)
    × (find_latest_by_bpmn_id e'.definitions "order"
        ≡ some (8, definition 8 "order" v' order_nodes order_flows [] [] nil))
    × (highest_version e'.definitions "order" ≡ some v')
    × IsAbove engine.definitions "order" v'
unfolding highest_version with_bpmn_id max_version
deploy_latest_example = deploy_latest 8 "order" (pos 1) order_nodes order_flows [] [] engine refl
