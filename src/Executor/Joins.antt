-- ===== src/Executor/Joins.antt =====
-- engine-core/src/engine/executor/parallel.rs and completion.rs: join barriers and active tokens.
-- `uuid_text` is the `Display` of the uuid crate.
pub mod Barrier
pub mod Firing
pub mod ForkJoin
use Prim.Native.String.{◌++◌ as concat}
use mini_bpm_engine.Prelude.{
  ℕ, suc, String, Bool, true, false, ◌||◌, Option, none, some, List, [], ◌∷◌, ◌++◌, Map, length,
  all, is_empty, get, insert, remove, extend, leb, ◌==◌, if◌then◌else◌, nat_eq, string_eq,
}
use mini_bpm_engine.Prelude.Text.{decimal}
use mini_bpm_engine.Condition.{evaluate_condition}
use mini_bpm_engine.Domain.Json.{Json, Variables}
use mini_bpm_engine.Domain.Token.{Token, with_variables}
use mini_bpm_engine.Domain.Element.{BpmnElement, complex_gateway}
use mini_bpm_engine.Domain.Error.{Result, ok, err, invalid_definition, ◌>>=◌}
use mini_bpm_engine.Domain.Definition.{ProcessDefinition, get_node, incoming_flow_count}
use mini_bpm_engine.Runtime.Instance.{ActiveToken, JoinBarrier, ProcessInstance}
use mini_bpm_engine.Engine.{
  Engine, record_history_event, token_joined, perform, instance_of, definition_of, set_instance,
}
use mini_bpm_engine.Executor.JoinSearch.{find_downstream_join}

-- `iter_mut().find(|at| at.token.id == token_id)`, and `completed = true` there.
unfoldable pub mark_completed : List ActiveToken → ℕ → List ActiveToken
mark_completed [] token_id = []
mark_completed (at ∷ rest) token_id =
    let later = mark_completed rest token_id in
    if at.token.id == token_id then record at { completed = true } ∷ rest else at ∷ later

unfoldable pub mark_all : List ActiveToken → List Token → List ActiveToken
mark_all active [] = active
mark_all active (t ∷ tokens) = mark_all (mark_completed active t.id) tokens

unfoldable pub complete_branch_token : Engine → (instance_id token_id : ℕ) → Result Engine
unfolding mark_completed
complete_branch_token e instance_id token_id = do
  inst ← instance_of e instance_id
  ok (
      set_instance e instance_id
        (record inst { active_tokens = mark_completed inst.active_tokens token_id }))

abbrev pub has_no_token : Map ℕ Token → Bool
has_no_token [] = true
has_no_token (entry ∷ rest) = false

unfoldable pub all_tokens_completed : Engine → (instance_id : ℕ) → Result Bool
all_tokens_completed e instance_id = do
  inst ← instance_of e instance_id
  ok (
      if has_no_token inst.tokens
      then (if is_empty inst.active_tokens then true else all (λ t. t.completed) inst.active_tokens)
      else false)

unfoldable pub register_active_token :
    Engine → (instance_id : ℕ) (fork_id : String) (branch_index : ℕ) → Token → Result Engine
register_active_token e instance_id fork_id branch_index token = do
  inst ← instance_of e instance_id
  ok (
      set_instance e instance_id (record inst {
        active_tokens =
            inst.active_tokens
            ++ record {
              token = token;
              fork_id = some fork_id;
              branch_index = branch_index;
              completed = false;
            }
              ∷ [];
      }))

-- A barrier at which no token has arrived.
abbrev pub empty_barrier : String → ℕ → JoinBarrier
empty_barrier gateway_id expected = record {
  gateway_node_id = gateway_id;
  expected_count = expected;
  arrived_tokens = [];
}

unfoldable pub register_join_barrier_if_needed :
    Engine → (instance_id : ℕ) (split_gateway_id : String) (branch_count : ℕ) → Result Engine
register_join_barrier_if_needed e instance_id split_gateway_id branch_count = do
  inst ← instance_of e instance_id
  def ← definition_of e inst.definition_key
  ok (elim (find_downstream_join def split_gateway_id) [
    | none ↦ e
    | some join_id ↦ set_instance e instance_id (record inst {
      join_barriers = insert inst.join_barriers join_id (empty_barrier join_id branch_count);
    })
  ])

-- `merged.extend(t.variables.clone())` for each token, from the empty map.
unfoldable pub merge_onto : Variables → List Token → Variables
merge_onto variables [] = variables
merge_onto variables (t ∷ tokens) = merge_onto (extend variables t.variables) tokens

abbrev pub merged_variables : List Token → Variables
merged_variables = merge_onto []

abbrev pub barrier_or_new : Option JoinBarrier → String → ℕ → JoinBarrier
barrier_or_new none gateway_id structural_expected = empty_barrier gateway_id structural_expected
barrier_or_new (some barrier) gateway_id structural_expected = barrier

abbrev pub arrive_in : JoinBarrier → Token → JoinBarrier
arrive_in barrier token = record barrier { arrived_tokens = barrier.arrived_tokens ++ token ∷ [] }

unfoldable pub join_condition_met : Json → Option BpmnElement → List Token → Bool
unfolding merge_onto
join_condition_met J (some (complex_gateway (some cond) default)) arrived =
    evaluate_condition J cond (merged_variables arrived)
join_condition_met J _ arrived = false

abbrev arrival_entry : String → ℕ → ℕ → String
arrival_entry gateway_id current expected = concat "➔ Token arrived at join '" (
    concat gateway_id
      (concat "' (" (concat (decimal current) (concat "/" (concat (decimal expected) ")")))))

abbrev condition_entry : String → String
condition_entry gateway_id =
    concat "⟡ Complex gateway join condition met early at '" (concat gateway_id "'")

abbrev joined_entry : String → String
joined_entry gateway_id = concat "🔗 Join '" (concat gateway_id "' completed. Tokens merged.")

-- The instance with the token at its barrier, and the entries that the code logs before it decides.
unfoldable pub record_arrival :
    ProcessInstance → String → JoinBarrier → (condition_met : Bool) → ProcessInstance
record_arrival inst gateway_id barrier condition_met = record inst {
  join_barriers = insert inst.join_barriers gateway_id barrier;
  audit_log =
      inst.audit_log
      ++ arrival_entry gateway_id (length barrier.arrived_tokens) barrier.expected_count
        ∷ (if condition_met then condition_entry gateway_id ∷ [] else []);
}

abbrev pub merged_token : ℕ → String → List Token → Token
merged_token uuid gateway_id arrived =
    record (with_variables uuid gateway_id (merged_variables arrived)) { is_merged = true }

abbrev pub fired : ProcessInstance → String → JoinBarrier → ProcessInstance
fired inst gateway_id barrier = record inst {
  join_barriers = remove inst.join_barriers gateway_id;
  active_tokens = mark_all inst.active_tokens barrier.arrived_tokens;
  audit_log = inst.audit_log ++ joined_entry gateway_id ∷ [];
}

-- The barrier fires: it goes, its tokens are completed, and one merged token leaves.
unfoldable pub fire :
    (uuid : ℕ) (uuid_text : ℕ → String) (instance_id : ℕ)
    → ProcessInstance
    → String
    → Result (Token × ProcessInstance)
fire uuid uuid_text instance_id inst gateway_id = elim (get inst.join_barriers gateway_id) [
  | none ↦ err (
      invalid_definition (
        concat "Join barrier for gateway '"
          (concat gateway_id (concat "' not found in instance " (uuid_text instance_id)))))
  | some barrier ↦
      ok (merged_token uuid gateway_id barrier.arrived_tokens, fired inst gateway_id barrier)
]

module _ (J : Json) (uuid : ℕ) (uuid_text : ℕ → String) where
  -- The part of `arrive_at_join` under the instance's lock.
  unfoldable pub arrive :
      (instance_id : ℕ)
      → ProcessDefinition
      → ProcessInstance
      → String
      → Token
      → Result (Option Token × ProcessInstance)
  unfolding join_condition_met record_arrival fire
  arrive instance_id def inst gateway_id token =
      let barrier =
        arrive_in
          (barrier_or_new (get inst.join_barriers gateway_id) gateway_id
            (incoming_flow_count def gateway_id))
          token in
      let condition_met = join_condition_met J (get_node def gateway_id) barrier.arrived_tokens in
      let waiting = record_arrival inst gateway_id barrier condition_met in
      if leb barrier.expected_count (length barrier.arrived_tokens) || condition_met
      then (fire uuid uuid_text instance_id waiting gateway_id >>= λ r. ok (some r.0, r.1))
      else ok (none, waiting)

  unfoldable pub arrive_at_join :
      Engine → (instance_id : ℕ) (gateway_id : String) → Token → Result (Option Token × Engine)
  unfolding arrive
  arrive_at_join e instance_id gateway_id token = do
    inst ← instance_of e instance_id
    def ← definition_of e inst.definition_key
    r ← arrive instance_id def inst gateway_id token
    let e' = set_instance e instance_id r.1
    ok (elim r.0 [
      | none ↦ (none, e')
      | some merged ↦ (some merged, perform e' (record_history_event instance_id token_joined ∷ []))
    ])
