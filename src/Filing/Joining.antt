-- ===== src/Filing/Joining.antt =====
-- The writes of join barriers and active tokens keep the invariant.
use mini_bpm_engine.Prelude.{
  ℕ, suc, String, ◌≡◌, refl, ◌∙◌, Bool, true, false, Option, none, some, List, [], ◌∷◌, length, get,
  nat_eq, string_eq, if◌then◌else◌, ◌||◌, leb,
}
use mini_bpm_engine.Domain.Definition.{ProcessDefinition, get_node, incoming_flow_count}
use mini_bpm_engine.Domain.Error.{ok, ok_or, no_such_instance, ◌>>=◌ as then_ok}
use mini_bpm_engine.Domain.Json.{Json}
use mini_bpm_engine.Domain.Token.{Token}
use mini_bpm_engine.Runtime.Instance.{ProcessInstance}
use mini_bpm_engine.Engine.{Engine, instance_of, definition_of, set_instance}
use mini_bpm_engine.Run.{update, step_engine}
use mini_bpm_engine.Run.Keeping.{
  Keeps, IfOk, IfOk-bind, IfOk-true, IfOk-option, Keeps-pure, Keeps-bind, Keeps-update,
  Keeps-step_engine,
}
use mini_bpm_engine.Executor.JoinSearch.{find_downstream_join}
use mini_bpm_engine.Executor.Joins.{
  complete_branch_token, register_active_token, register_join_barrier_if_needed, arrive_at_join,
  arrive, fire, record_arrival, arrive_in, barrier_or_new, join_condition_met,
}
use mini_bpm_engine.Executor.NextActions.{register_branches}
use mini_bpm_engine.Filing.{IsFiled, set_instance-IsFiled}

-- An instance that is found stands under its identifier, so a write of it keeps the invariant.
unfoldable pub Owned : (e : Engine) (instance_id : ℕ) → ProcessInstance → Type 0
Owned e instance_id inst =
    (new : ProcessInstance) → new.id ≡ inst.id → IsFiled (set_instance e instance_id new)

pub instance_of-Owned :
    (e : Engine) (instance_id : ℕ)
    → IsFiled e
    → IfOk (Owned e instance_id) (instance_of e instance_id)
unfolding Owned
instance_of-Owned e instance_id h = settle (get e.instances instance_id) refl
  where
    settle :
        (found : Option ProcessInstance)
        → get e.instances instance_id ≡ found
        → IfOk (Owned e instance_id) (ok_or found (no_such_instance instance_id))
    settle none eq = tt
    settle (some inst) eq = λ new same. set_instance-IsFiled e instance_id inst new eq same h

IsFiled-option :
    {A : Type 0} (o : Option A) (e : Engine) (g : A → Engine)
    → IsFiled e
    → ((a : A) → IsFiled (g a))
    → IsFiled (elim o [ none ↦ e | some a ↦ g a ])
IsFiled-option none e g h k = h
IsFiled-option (some a) e g h k = k a

IsFiled-merged :
    {A : Type 0} (o : Option A) (e e' : Engine)
    → IsFiled e
    → IsFiled e'
    → IsFiled (elim o as (λ x. Option A × Engine) [ none ↦ (none, e) | some a ↦ (some a, e') ]).1
IsFiled-merged none e e' h h' = h
IsFiled-merged (some a) e e' h h' = h'

module _ (instance_id : ℕ) where
  pub Keeps-complete_branch :
      (token_id : ℕ) → Keeps IsFiled (update (λ e. complete_branch_token e instance_id token_id))
  unfolding complete_branch_token Owned
  Keeps-complete_branch token_id = Keeps-update _ (λ e h.
      IfOk-bind (Owned e instance_id) IsFiled (instance_of e instance_id) _
        (instance_of-Owned e instance_id h) (λ inst own. own _ refl))

  Keeps-register_active :
      (fork_id : String) (idx : ℕ) (t : Token)
      → Keeps IsFiled (update (λ e. register_active_token e instance_id fork_id idx t))
  unfolding register_active_token Owned
  Keeps-register_active fork_id idx t = Keeps-update _ (λ e h.
      IfOk-bind (Owned e instance_id) IsFiled (instance_of e instance_id) _
        (instance_of-Owned e instance_id h) (λ inst own. own _ refl))

  pub Keeps-register_barrier :
      (gateway_id : String) (count : ℕ)
      → Keeps IsFiled (update (λ e. register_join_barrier_if_needed e instance_id gateway_id count))
  unfolding register_join_barrier_if_needed Owned
  Keeps-register_barrier gateway_id count = Keeps-update _ (λ e h.
      IfOk-bind (Owned e instance_id) IsFiled (instance_of e instance_id) _
        (instance_of-Owned e instance_id h)
        (λ inst own.
          IfOk-bind (λ def. Unit {0}) IsFiled (definition_of e inst.definition_key) _ (IfOk-true _)
            (λ def u.
              IsFiled-option (find_downstream_join def gateway_id) e _ h (λ join_id. own _ refl))))

  pub Keeps-register_branches :
      (fork_id : String) (idx : ℕ) (tokens : List Token)
      → Keeps IsFiled (register_branches instance_id fork_id idx tokens)
  unfolding register_branches
  Keeps-register_branches fork_id idx [] = Keeps-pure tt
  Keeps-register_branches fork_id idx (t ∷ tokens) =
      Keeps-bind _ _ (Keeps-register_active fork_id idx t)
        (λ u. Keeps-register_branches fork_id (suc idx) tokens)

module _ (J : Json) (uuid : ℕ) (uuid_text : ℕ → String) (instance_id : ℕ) where
  fire-id :
      (inst : ProcessInstance) (gateway_id : String)
      → IfOk (λ r. r.1.id ≡ inst.id) (fire uuid uuid_text instance_id inst gateway_id)
  unfolding fire
  fire-id inst gateway_id =
      IfOk-option (λ r. r.1.id ≡ inst.id) (get inst.join_barriers gateway_id) _ _ tt (λ b. refl)

  decided-id :
      (id : ℕ) (waiting : ProcessInstance) (gateway_id : String)
      → waiting.id ≡ id
      → (fires : Bool)
      → IfOk {A = Option Token × ProcessInstance}
          (λ r. r.1.id ≡ id)
          (if fires
            then then_ok
                (fire uuid uuid_text instance_id waiting gateway_id)
                (λ r. ok (some r.0, r.1))
            else ok (none, waiting))
  decided-id id waiting gateway_id same true =
      IfOk-bind (λ r. r.1.id ≡ waiting.id) (λ r. r.1.id ≡ id)
        (fire uuid uuid_text instance_id waiting gateway_id) (λ r. ok (some r.0, r.1))
        (fire-id waiting gateway_id) (λ r e. e ∙ same)
  decided-id id waiting gateway_id same false = same

  arrive-id :
      (def : ProcessDefinition) (inst : ProcessInstance) (gateway_id : String) (token : Token)
      → IfOk (λ r. r.1.id ≡ inst.id) (arrive J uuid uuid_text instance_id def inst gateway_id token)
  unfolding arrive record_arrival
  arrive-id def inst gateway_id token =
      let barrier =
        arrive_in
          (barrier_or_new (get inst.join_barriers gateway_id) gateway_id
            (incoming_flow_count def gateway_id))
          token in
      let met = join_condition_met J (get_node def gateway_id) barrier.arrived_tokens in
      decided-id inst.id (record_arrival inst gateway_id barrier met) gateway_id refl
        (leb barrier.expected_count (length barrier.arrived_tokens) || met)

  pub Keeps-arrive :
      (gateway_id : String) (token : Token)
      → Keeps IsFiled
          (step_engine (λ e. arrive_at_join J uuid uuid_text e instance_id gateway_id token))
  unfolding arrive_at_join Owned
  Keeps-arrive gateway_id token = Keeps-step_engine _ (λ e h.
      IfOk-bind (Owned e instance_id) (λ r. IsFiled r.1) (instance_of e instance_id) _
        (instance_of-Owned e instance_id h)
        (λ inst own.
          IfOk-bind (λ def. Unit {0}) (λ r. IsFiled r.1) (definition_of e inst.definition_key) _
            (IfOk-true _)
            (λ def u.
              IfOk-bind (λ r. r.1.id ≡ inst.id) (λ r. IsFiled r.1)
                (arrive J uuid uuid_text instance_id def inst gateway_id token) _
                (arrive-id def inst gateway_id token)
                (λ r same. IsFiled-merged r.0 _ _ (own r.1 same) (own r.1 same)))))
