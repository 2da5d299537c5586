-- ===== src/Gateway.antt =====
-- engine-core/src/engine/gateway.rs: where a token goes at a gateway.
-- Each function returns the action with the token as the code leaves it behind `&mut`. `uuids` lists
-- the identifiers that `Uuid::new_v4` draws.
pub mod Routing
pub mod Choice
use mini_bpm_engine.Prelude.{
  ℕ, suc, String, Bool, true, false, ◌&&◌, not, Option, none, some, List, [], ◌∷◌, map, filter,
  find, is_empty, leb, ◌==◌, if◌then◌else◌, string_eq,
}
use mini_bpm_engine.Condition.{evaluate_condition, or_else}
use mini_bpm_engine.Domain.Json.{Json, Variables}
use mini_bpm_engine.Domain.Token.{Token, with_variables}
use mini_bpm_engine.Domain.Element.{SequenceFlow}
use mini_bpm_engine.Domain.Error.{Result, ok, err, no_matching_condition}
use mini_bpm_engine.Domain.Definition.{ProcessDefinition, next_nodes, incoming_flow_count}
use mini_bpm_engine.Runtime.Action.{NextAction, continue, continue_multiple, wait_for_join}

abbrev pub targets : List SequenceFlow → List String
targets = map λ sf. sf.target

-- One copy of the variables for each target.
unfoldable pub fork : (ℕ → ℕ) → Variables → List String → List Token
fork uuids variables [] = []
fork uuids variables (target ∷ rest) =
    with_variables (uuids 0) target variables ∷ fork (λ n. uuids (suc n)) variables rest

-- `incoming_count >= 2 && !token.is_merged`.
abbrev pub must_join : ProcessDefinition → String → Token → Bool
must_join def current_id token = leb 2 (incoming_flow_count def current_id) && not token.is_merged

abbrev pub move_to : Token → String → Token
move_to token target = record token { current_node = target }

abbrev pub unmerged : Token → Token
unmerged token = record token { is_merged = false }

abbrev pub Outcome : Type 0
Outcome = Result (NextAction × Token)

parallel_split : (ℕ → ℕ) → List SequenceFlow → Token → Outcome
parallel_split uuids (sf ∷ []) token =
    ok (continue (move_to token sf.target), move_to token sf.target)
parallel_split uuids outgoing token =
    ok (continue_multiple (fork uuids token.variables (targets outgoing)), token)

unfoldable pub execute_parallel_gateway : (ℕ → ℕ) → ProcessDefinition → String → Token → Outcome
unfolding parallel_split
execute_parallel_gateway uuids def current_id token =
    if must_join def current_id token
    then ok (wait_for_join current_id token, token)
    else parallel_split uuids (next_nodes def current_id) (unmerged token)

-- The end of an inclusive and of a complex split.
pub split_to : (ℕ → ℕ) → String → List String → Token → Outcome
split_to uuids current_id [] token = err (no_matching_condition current_id)
split_to uuids current_id (target ∷ []) token =
    ok (continue (move_to token target), move_to token target)
split_to uuids current_id matched token =
    ok (continue_multiple (fork uuids token.variables matched), token)

abbrev pub target_of : Option SequenceFlow → Option String
target_of none = none
target_of (some sf) = some sf.target

take_path : String → Option String → Token → Outcome
take_path current_id none token = err (no_matching_condition current_id)
take_path current_id (some target) token =
    ok (continue (move_to token target), move_to token target)

or_default : Option String → List String → List String
or_default (some d) [] = d ∷ []
or_default none [] = []
or_default default (target ∷ rest) = target ∷ rest

module _ (J : Json) where
  -- A flow with a condition that holds.
  abbrev pub is_satisfied : Variables → SequenceFlow → Bool
  is_satisfied variables sf = elim sf.condition [
    | none ↦ false
    | some cond ↦ evaluate_condition J cond variables
  ]

  -- A flow with no condition, or with one that holds.
  abbrev pub is_open : Variables → SequenceFlow → Bool
  is_open variables sf = elim sf.condition [
    | none ↦ true
    | some cond ↦ evaluate_condition J cond variables
  ]

  unfoldable pub execute_exclusive_gateway :
      ProcessDefinition → String → Token → Option String → Outcome
  unfolding take_path
  execute_exclusive_gateway def current_id token default =
      take_path current_id
        (or_else (target_of (find (is_satisfied token.variables) (next_nodes def current_id)))
          default)
        token

  unfoldable pub execute_inclusive_gateway : (ℕ → ℕ) → ProcessDefinition → String → Token → Outcome
  unfolding split_to
  execute_inclusive_gateway uuids def current_id token =
      if must_join def current_id token
      then ok (wait_for_join current_id token, token)
      else split_to uuids current_id
          (targets (filter (is_open token.variables) (next_nodes def current_id))) (unmerged token)

  -- An unconditional flow to the default target is left out.
  abbrev pub is_taken : Variables → Option String → SequenceFlow → Bool
  is_taken variables default sf = elim sf.condition [
    | none ↦ elim default [ none ↦ true | some d ↦ not (sf.target == d) ]
    | some cond ↦ evaluate_condition J cond variables
  ]

  unfoldable pub execute_complex_gateway :
      (ℕ → ℕ) → ProcessDefinition → String → Token → Option String → Outcome
  unfolding split_to or_default
  execute_complex_gateway uuids def current_id token default =
      if must_join def current_id token
      then ok (wait_for_join current_id token, token)
      else split_to uuids current_id
          (or_default default
            (targets (filter (is_taken token.variables default) (next_nodes def current_id))))
          (unmerged token)
