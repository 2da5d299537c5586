-- ===== src/Tests/Data.antt =====
-- A process with one gateway of each kind, and an engine with two service tasks.
use Prim.Native.Nat.{Ordering}
use mini_bpm_engine.Prelude.{
  ℕ, String, Bool, true, false, not, Option, none, some, List, [], ◌∷◌, Map, nat_beq, ltb, ◌==◌,
  if◌then◌else◌, string_eq,
}
use mini_bpm_engine.Prelude.Int.{pos}
use mini_bpm_engine.Domain.Json.{Json, Value, null, number, string, Variables}
use mini_bpm_engine.Domain.Token.{Token}
use mini_bpm_engine.Domain.Element.{
  BpmnElement, SequenceFlow, start_event, end_event, service_task, exclusive_gateway,
  inclusive_gateway, complex_gateway,
}
use mini_bpm_engine.Domain.Definition.{ProcessDefinition, definition, SubProcesses}
use mini_bpm_engine.Runtime.Pending.{PendingServiceTask}
use mini_bpm_engine.Runtime.Instance.{running, ActiveToken, JoinBarrier, ProcessInstance}
use mini_bpm_engine.Engine.{Engine}

abbrev same_value : Value → Value → Bool
same_value null null = true
same_value (string a) (string b) = a == b
same_value _ _ = false

-- Numbers stand for themselves; the parser knows two of them.
abbrev pub json : Json
json = record {
  value_eq = same_value;
  as_f64 = λ n. some n;
  f64_nonzero = λ n. not (nat_beq n 0);
  f64_close = nat_beq;
  f64_partial_cmp = λ a b.
      if nat_beq a b
      then some Ordering.eq
      else if ltb a b
      then some Ordering.lt
      else some Ordering.gt;
  parse_i64 = λ s. if s == "1" then some 1 else if s == "2" then some 2 else none;
  parse_f64 = λ s. none;
}

abbrev flow : String → SequenceFlow
flow target = record { target = target; condition = none }

abbrev when : String → String → SequenceFlow
when condition target = record { target = target; condition = some condition }

abbrev pub order_nodes : Map String BpmnElement
order_nodes =
    ("start", start_event)
    ∷ ("choice", exclusive_gateway (some "end"))
    ∷ ("pick", complex_gateway none (some "b"))
    ∷ ("fork", inclusive_gateway)
    ∷ ("a", service_task "pack" none)
    ∷ ("b", service_task "bill" none)
    ∷ ("join", inclusive_gateway)
    ∷ ("end", end_event)
    ∷ []

abbrev pub order_flows : Map String (List SequenceFlow)
order_flows =
    ("start", flow "choice" ∷ [])
    ∷ ("choice", when "x == 2" "pick" ∷ when "x == 1" "fork" ∷ [])
    ∷ ("pick", when "x == 1" "a" ∷ flow "b" ∷ [])
    ∷ ("fork", when "x == 1" "a" ∷ flow "b" ∷ [])
    ∷ ("a", flow "join" ∷ [])
    ∷ ("b", flow "join" ∷ [])
    ∷ ("join", flow "end" ∷ [])
    ∷ []

abbrev pub order : ProcessDefinition
order = definition 7 "order" (pos 1) order_nodes order_flows [] [] SubProcesses.nil

abbrev pub x_is_1 : Variables
x_is_1 = ("x", number 1) ∷ []

abbrev pub token_at : ℕ → String → Token
token_at id node = record { id = id; current_node = node; variables = x_is_1; is_merged = false }

abbrev pub branch : ℕ → Token → ActiveToken
branch i t = record { token = t; fork_id = some "fork"; branch_index = i; completed = false }

-- Both branches of the inclusive split are on their way to the join.
abbrev pub barrier : JoinBarrier
barrier = record { gateway_node_id = "join"; expected_count = 2; arrived_tokens = [] }

abbrev pub forked : ProcessInstance
forked = record {
  id = 1;
  definition_key = 7;
  business_key = "4711";
  parent_instance_id = none;
  state = running;
  current_node = "fork";
  audit_log = "▶ Process started" ∷ [];
  variables = x_is_1;
  tokens = [];
  active_tokens = branch 0 (token_at 10 "a") ∷ branch 1 (token_at 11 "b") ∷ [];
  join_barriers = ("join", barrier) ∷ [];
  multi_instance_state = [];
  compensation_log = [];
  started_at = some 0;
  completed_at = none;
}

abbrev pub task : ℕ → String → Option String → PendingServiceTask
task id topic worker = record {
  id = id;
  instance_id = 1;
  definition_key = 7;
  node_id = "a";
  topic = topic;
  token_id = 10;
  business_key = none;
  variables_snapshot = x_is_1;
  created_at = 0;
  worker_id = worker;
  lock_expiration = none;
  retries = pos 1;
  error_message = none;
  error_details = none;
}

abbrev pub engine : Engine
engine = record {
  definitions = (7, order) ∷ [];
  instances = (1, forked) ∷ [];
  pending_user_tasks = [];
  pending_service_tasks =
      (20, task 20 "pack" none) ∷ (21, task 21 "pack" (some "w1")) ∷ (22, task 22 "bill" none) ∷ [];
  pending_timers = [];
  pending_message_catches = [];
  effects = [];
}
