-- ===== src/Executor/Joins/Firing.antt =====
-- When a join lets a token through.
use mini_bpm_engine.Prelude.{
  ℕ, ◌+◌, ◌≤◌, ◌<◌, String, ◌≡◌, Bool, true, false, Option, none, some, List, [], ◌∷◌, length, get,
  get-insert_self, length-append, arith, string_eq,
}
use mini_bpm_engine.Domain.Json.{Json}
use mini_bpm_engine.Domain.Token.{Token}
use mini_bpm_engine.Domain.Element.{BpmnElement, complex_gateway}
use mini_bpm_engine.Domain.Error.{ok}
use mini_bpm_engine.Domain.Definition.{ProcessDefinition, get_node, incoming_flow_count}
use mini_bpm_engine.Runtime.Instance.{JoinBarrier, ProcessInstance}
use mini_bpm_engine.Executor.Joins.{
  merged_token, fired, barrier_or_new, arrive_in, join_condition_met, record_arrival, fire, arrive,
}

-- A complex gateway with a join condition may fire early.
abbrev pub has_join_condition : Option BpmnElement → Bool
has_join_condition (some (complex_gateway (some cond) default)) = true
has_join_condition _ = false

never_early :
    (J : Json) (o : Option BpmnElement) (ts : List Token)
    → has_join_condition o ≡ false
    → join_condition_met J o ts ≡ false
unfolding join_condition_met
never_early J o ts h = ground arith

-- The barrier that a token meets: the registered one, or a new one for all incoming flows.
abbrev pub barrier_at : ProcessDefinition → String → ProcessInstance → JoinBarrier
barrier_at def gateway_id inst =
    barrier_or_new (get inst.join_barriers gateway_id) gateway_id
      (incoming_flow_count def gateway_id)

module _ (J : Json) (uuid : ℕ) (uuid_text : ℕ → String) (instance_id : ℕ) (def : ProcessDefinition)
    (gateway_id : String) (plain : has_join_condition (get_node def gateway_id) ≡ false) where
  -- Before the last expected arrival the token stays at the barrier.
  pub arrive_waits :
      (inst : ProcessInstance) (token : Token)
      → length (barrier_at def gateway_id inst).arrived_tokens + 1
        < (barrier_at def gateway_id inst).expected_count
      → arrive J uuid uuid_text instance_id def inst gateway_id token
        ≡ ok (
          none,
          record_arrival inst gateway_id (arrive_in (barrier_at def gateway_id inst) token) false,
        )
  unfolding arrive
  arrive_waits inst token h = ground (
    arith,
    never_early J (get_node def gateway_id)
        (arrive_in (barrier_at def gateway_id inst) token).arrived_tokens plain,
    length-append (barrier_at def gateway_id inst).arrived_tokens (token ∷ []),
  )

  -- At the last expected arrival, or a later one, the barrier goes and the merged token leaves.
  pub arrive_fires :
      (inst : ProcessInstance) (token : Token)
      → (barrier_at def gateway_id inst).expected_count
        ≤ length (barrier_at def gateway_id inst).arrived_tokens + 1
      → let barrier = arrive_in (barrier_at def gateway_id inst) token in
        arrive J uuid uuid_text instance_id def inst gateway_id token
        ≡ ok (
          some (merged_token uuid gateway_id barrier.arrived_tokens),
          fired (record_arrival inst gateway_id barrier false) gateway_id barrier,
        )
  unfolding arrive fire record_arrival
  arrive_fires inst token h = ground (
    arith,
    never_early J (get_node def gateway_id)
        (arrive_in (barrier_at def gateway_id inst) token).arrived_tokens plain,
    length-append (barrier_at def gateway_id inst).arrived_tokens (token ∷ []),
    get-insert_self inst.join_barriers gateway_id
        (arrive_in (barrier_at def gateway_id inst) token),
  )
