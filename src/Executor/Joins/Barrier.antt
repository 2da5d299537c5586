-- ===== src/Executor/Joins/Barrier.antt =====
-- A join over a whole sequence of arrivals.
use mini_bpm_engine.Prelude.{
  ℕ, ◌+◌, ◌≤◌, ◌<◌, String, ◌≡◌, refl, subst, ap, ◌∙◌, false, Option, none, some, List, [], ◌∷◌,
  ◌++◌, length, get, get-insert_self, get-remove_self, length-append, arith, string_eq,
}
use mathlib.Core.Path.{ap₂}
use mathlib.Core.List.{append_assoc}
use mini_bpm_engine.Domain.Json.{Json}
use mini_bpm_engine.Domain.Token.{Token}
use mini_bpm_engine.Domain.Error.{Result, ok, ◌>>=◌}
use mini_bpm_engine.Domain.Definition.{ProcessDefinition, get_node}
use mini_bpm_engine.Runtime.Instance.{JoinBarrier, ProcessInstance}
use mini_bpm_engine.Executor.Joins.{
  mark_all, merged_token, fired, arrive_in, record_arrival, arrive,
}
use mini_bpm_engine.Executor.Joins.Firing.{
  has_join_condition, barrier_at, arrive_waits, arrive_fires,
}

-- The tokens that leave, oldest first.
abbrev pub released : Option Token → List Token → List Token
released none rest = rest
released (some t) rest = t ∷ rest

module _ (J : Json) (uuid : ℕ) (uuid_text : ℕ → String) (instance_id : ℕ) (def : ProcessDefinition)
    (gateway_id : String) where
  -- Tokens that arrive one after the other.
  pub arrive_all : ProcessInstance → List Token → Result (List Token × ProcessInstance)
  arrive_all inst [] = ok ([], inst)
  arrive_all inst (t ∷ ts) = arrive J uuid uuid_text instance_id def inst gateway_id t >>= λ r.
      arrive_all r.1 ts >>= λ s. ok (released r.0 s.0, s.1)

  -- One merged token has left, its barrier is gone, and the arrived tokens are completed.
  abbrev pub FiredOnce :
      ProcessInstance → List Token → Result (List Token × ProcessInstance) → Type 0
  FiredOnce inst arrived r =
      (inst' : ProcessInstance) × (r ≡ ok (merged_token uuid gateway_id arrived ∷ [], inst'))
      × (get inst'.join_barriers gateway_id ≡ none)
      × (inst'.active_tokens ≡ mark_all inst.active_tokens arrived)

  -- No token has left, and the barrier holds those that arrived.
  abbrev pub StillWaits :
      ProcessInstance → JoinBarrier → List Token → Result (List Token × ProcessInstance) → Type 0
  StillWaits inst barrier arrived r =
      (inst' : ProcessInstance) × (r ≡ ok ([], inst'))
      × (get inst'.join_barriers gateway_id ≡ some (record barrier { arrived_tokens = arrived }))
      × (inst'.active_tokens ≡ inst.active_tokens)

module _ (J : Json) (uuid : ℕ) (uuid_text : ℕ → String) (instance_id : ℕ) (def : ProcessDefinition)
    (gateway_id : String) (plain : has_join_condition (get_node def gateway_id) ≡ false) where
  barrier_at-some :
      (inst : ProcessInstance) (b : JoinBarrier)
      → get inst.join_barriers gateway_id ≡ some b
      → barrier_at def gateway_id inst ≡ b
  barrier_at-some inst b h = rw h

  stays :
      (inst : ProcessInstance) (b : JoinBarrier) (t : Token)
      → get inst.join_barriers gateway_id ≡ some b
      → length b.arrived_tokens + 1 < b.expected_count
      → arrive J uuid uuid_text instance_id def inst gateway_id t
        ≡ ok (none, record_arrival inst gateway_id (arrive_in b t) false)
  stays inst b t h lt =
      subst
        (λ c.
          length c.arrived_tokens + 1 < c.expected_count
          → arrive J uuid uuid_text instance_id def inst gateway_id t
            ≡ ok (none, record_arrival inst gateway_id (arrive_in c t) false))
        (barrier_at-some inst b h)
        (arrive_waits J uuid uuid_text instance_id def gateway_id plain inst t) lt

  fires :
      (inst : ProcessInstance) (b : JoinBarrier) (t : Token)
      → get inst.join_barriers gateway_id ≡ some b
      → b.expected_count ≤ length b.arrived_tokens + 1
      → arrive J uuid uuid_text instance_id def inst gateway_id t
        ≡ ok (
          some (merged_token uuid gateway_id (b.arrived_tokens ++ t ∷ [])),
          fired (record_arrival inst gateway_id (arrive_in b t) false) gateway_id (arrive_in b t),
        )
  fires inst b t h le =
      subst
        (λ c.
          c.expected_count ≤ length c.arrived_tokens + 1
          → arrive J uuid uuid_text instance_id def inst gateway_id t
            ≡ ok (
              some (merged_token uuid gateway_id (c.arrived_tokens ++ t ∷ [])),
              fired (record_arrival inst gateway_id (arrive_in c t) false) gateway_id
                  (arrive_in c t),
            ))
        (barrier_at-some inst b h)
        (arrive_fires J uuid uuid_text instance_id def gateway_id plain inst t) le

  recorded :
      (inst : ProcessInstance) (b : JoinBarrier)
      → (get (record_arrival inst gateway_id b false).join_barriers gateway_id ≡ some b)
        × ((record_arrival inst gateway_id b false).active_tokens ≡ inst.active_tokens)
  unfolding record_arrival
  recorded inst b = (get-insert_self inst.join_barriers gateway_id b, refl)

  -- One arrival that stays, before the others.
  arrive_all-stays :
      (inst : ProcessInstance) (b : JoinBarrier) (t : Token) (ts rest : List Token)
      (inst' : ProcessInstance)
      → get inst.join_barriers gateway_id ≡ some b
      → length b.arrived_tokens + 1 < b.expected_count
      → arrive_all J uuid uuid_text instance_id def gateway_id
          (record_arrival inst gateway_id (arrive_in b t) false)
          ts
        ≡ ok (rest, inst')
      → arrive_all J uuid uuid_text instance_id def gateway_id inst (t ∷ ts) ≡ ok (rest, inst')
  unfolding arrive_all
  arrive_all-stays inst b t ts rest inst' h lt later = rw (stays inst b t h lt) (rw later refl)

  -- From a barrier at which as many tokens are missing as now arrive, at a gateway with no join
  -- condition, the arrivals let exactly one token through: at the last of them, merged from all that
  -- arrived, old and new, in order of arrival. The barrier is gone then.
  pub arrive_all-FiredOnce :
      (inst : ProcessInstance) (b : JoinBarrier) (t : Token) (ts : List Token)
      → get inst.join_barriers gateway_id ≡ some b
      → length b.arrived_tokens + length (t ∷ ts) ≡ b.expected_count
      → FiredOnce J uuid uuid_text instance_id def gateway_id inst
          (b.arrived_tokens ++ t ∷ ts)
          (arrive_all J uuid uuid_text instance_id def gateway_id inst (t ∷ ts))
  unfolding arrive_all
  arrive_all-FiredOnce inst b t [] h n = rw (fires inst b t h (omega arith)) (
    _,
    refl,
    get-remove_self _ gateway_id,
    ap (λ a. mark_all a (b.arrived_tokens ++ t ∷ [])) (recorded inst (arrive_in b t)).1,
  )
  arrive_all-FiredOnce inst b t (t' ∷ ts) h n =
      let seen = recorded inst (arrive_in b t) in
      let (inst', r, gone, active) =
        arrive_all-FiredOnce (record_arrival inst gateway_id (arrive_in b t) false) (arrive_in b t)
          t' ts seen.0 (omega (arith, length-append b.arrived_tokens (t ∷ []))) in
      let order = append_assoc b.arrived_tokens (t ∷ []) (t' ∷ ts) in
      (
        inst',
        arrive_all-stays inst b t (t' ∷ ts) _ inst' h (omega arith)
            (r ∙ ap (λ ts. ok (merged_token uuid gateway_id ts ∷ [], inst')) order),
        gone,
        active ∙ ap₂ mark_all seen.1 order,
      )
