-- ===== src/Tests/Joins.antt =====
-- The join of the order process, with both branches and with one.
use mini_bpm_engine.Prelude.{refl, [], ◌∷◌, some, ◌≡◌, nat_eq, get, string_eq}
use mini_bpm_engine.Prelude.Text.{decimal}
use mini_bpm_engine.Domain.Definition.{
  get_node, next_nodes, is_join_gateway, incoming_flow_count, incoming, is_split_gateway,
}
use mini_bpm_engine.Domain.Error.{ok}
use mini_bpm_engine.Runtime.Instance.{ProcessInstance}
use mini_bpm_engine.Engine.{Engine}
use mini_bpm_engine.Executor.Helpers.{same_gateway_type}
use mini_bpm_engine.Executor.JoinSearch.{visit, find_downstream_join}
use mini_bpm_engine.Executor.Joins.{register_join_barrier_if_needed}
use mini_bpm_engine.Executor.Joins.ForkJoin.{register_then_arrive}
use mini_bpm_engine.Executor.Joins.Barrier.{FiredOnce, arrive_all, arrive_all-FiredOnce}
use mini_bpm_engine.Tests.Data.{json, order, forked, engine, barrier, token_at}

arrive_all-FiredOnce_example :
    FiredOnce json 99 decimal 1 order "join" forked (token_at 11 "join" ∷ token_at 10 "join" ∷ []) (
      arrive_all json 99 decimal 1 order "join" forked
        (token_at 11 "join" ∷ token_at 10 "join" ∷ []))
unfolding get get_node
arrive_all-FiredOnce_example =
    arrive_all-FiredOnce json 99 decimal 1 order "join" refl forked barrier (token_at 11 "join")
      (token_at 10 "join" ∷ []) refl refl

register_then_arrive_example :
    (e' : Engine) × (inst' : ProcessInstance) × (register_join_barrier_if_needed engine 1 "fork" 2
      ≡ ok e')
    × (get e'.instances 1 ≡ some inst')
    × FiredOnce json 99 decimal 1 order "join" inst'
        (token_at 11 "join" ∷ token_at 10 "join" ∷ [])
        (arrive_all json 99 decimal 1 order "join" inst'
          (token_at 11 "join" ∷ token_at 10 "join" ∷ []))
unfolding get get_node find_downstream_join next_nodes visit is_join_gateway incoming_flow_count
    incoming same_gateway_type is_split_gateway
register_then_arrive_example =
    register_then_arrive json 99 decimal engine 1 forked order "fork" "join" (token_at 11 "join")
      (token_at 10 "join" ∷ []) refl refl refl refl
