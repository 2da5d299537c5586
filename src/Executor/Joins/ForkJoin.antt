-- ===== src/Executor/Joins/ForkJoin.antt =====
-- A split and its join.
use mini_bpm_engine.Prelude.{
  ℕ, String, ◌≡◌, false, some, List, ◌∷◌, insert, length, get, get-insert_self, arith, nat_eq,
  string_eq,
}
use mini_bpm_engine.Domain.Json.{Json}
use mini_bpm_engine.Domain.Token.{Token}
use mini_bpm_engine.Domain.Error.{ok}
use mini_bpm_engine.Domain.Definition.{ProcessDefinition, get_node}
use mini_bpm_engine.Runtime.Instance.{ProcessInstance}
use mini_bpm_engine.Engine.{Engine, set_instance}
use mini_bpm_engine.Executor.JoinSearch.{find_downstream_join}
use mini_bpm_engine.Executor.Joins.{empty_barrier, register_join_barrier_if_needed}
use mini_bpm_engine.Executor.Joins.Firing.{has_join_condition}
use mini_bpm_engine.Executor.Joins.Barrier.{FiredOnce, arrive_all, arrive_all-FiredOnce}

-- After a split has registered its branches, the instance stands in the engine with a barrier at the join
-- that the search finds; when as many tokens as there were branches have arrived there, however many
-- flows lead to the join, exactly one merged token has left, and the barrier is gone.
pub register_then_arrive :
    (J : Json) (uuid : ℕ) (uuid_text : ℕ → String) (e : Engine) (instance_id : ℕ)
    (inst : ProcessInstance) (def : ProcessDefinition) (split join : String) (t : Token)
    (ts : List Token)
    → get e.instances instance_id ≡ some inst
    → get e.definitions inst.definition_key ≡ some def
    → find_downstream_join def split ≡ some join
    → has_join_condition (get_node def join) ≡ false
    → (e' : Engine) × (inst' : ProcessInstance) × (register_join_barrier_if_needed e instance_id
          split
          (length (t ∷ ts))
        ≡ ok e')
      × (get e'.instances instance_id ≡ some inst')
      × FiredOnce J uuid uuid_text instance_id def join inst'
          (t ∷ ts)
          (arrive_all J uuid uuid_text instance_id def join inst' (t ∷ ts))
unfolding register_join_barrier_if_needed
register_then_arrive J uuid uuid_text e instance_id inst def split join t ts stored deployed found
      plain =
    (
      set_instance e instance_id forked,
      forked,
      ground arith,
      get-insert_self e.instances instance_id forked,
      arrive_all-FiredOnce J uuid uuid_text instance_id def join plain forked
          (empty_barrier join (length (t ∷ ts))) t ts
          (get-insert_self inst.join_barriers join (empty_barrier join (length (t ∷ ts))))
          (omega arith),
    )
  where
    forked : ProcessInstance
    forked = record inst {
      join_barriers = insert inst.join_barriers join (empty_barrier join (length (t ∷ ts)));
    }
