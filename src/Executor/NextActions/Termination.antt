-- ===== src/Executor/NextActions/Termination.antt =====
-- What a terminate end event leaves of its instance.
use mini_bpm_engine.Prelude.{
  ℕ, String, ◌≡◌, ◌≢◌, ◌⊎◌, inl, inr, refl, true, Option, none, some, List, [], ◌∷◌, Map, All, get,
  get-insert_self, ◌==◌, Bool-cases, nat_eq, arith,
}
use mini_bpm_engine.Domain.Token.{Token}
use mini_bpm_engine.Runtime.Action.{terminate}
use mini_bpm_engine.Runtime.Instance.{completed, ActiveToken, ProcessInstance}
use mini_bpm_engine.Engine.{Engine, set_instance}
use mini_bpm_engine.Run.{Env, World, returns, Run, pure, ◌>>=◌, modify, ask, touch_instance}
use mini_bpm_engine.Executor.NextActions.{
  retain_others, without_pending, complete_all, handle_next_action,
}

-- No wait state of the instance is left.
abbrev pub HasNothingPending : (instance_id : ℕ) → Engine → Type 0
HasNothingPending instance_id e =
    All (λ p. p.1.instance_id ≢ instance_id) e.pending_user_tasks
    × All (λ p. p.1.instance_id ≢ instance_id) e.pending_service_tasks
    × All (λ p. p.1.instance_id ≢ instance_id) e.pending_timers
    × All (λ p. p.1.instance_id ≢ instance_id) e.pending_message_catches

-- The instance is gone, or it is completed with each of its tokens.
abbrev pub HasEnded : (instance_id : ℕ) → Engine → Type 0
HasEnded instance_id e =
    (get e.instances instance_id ≡ none)
    ⊎ ((inst : ProcessInstance) × (get e.instances instance_id ≡ some inst)
        × (inst.state ≡ completed)
        × All (λ at. at.completed ≡ true) inst.active_tokens)

retain_others-All :
    {A : Type 0} (owner : A → ℕ) (instance_id : ℕ) (m : Map ℕ A)
    → All (λ p. owner p.1 ≢ instance_id) (retain_others owner instance_id m)
unfolding retain_others
retain_others-All owner instance_id [] = tt
retain_others-All owner instance_id ((k, a) ∷ m) = elim (Bool-cases (owner a == instance_id)) [
  | inl hit ↦ rw (hit) (retain_others-All owner instance_id m)
  | inr miss ↦ rw (miss) (ground arith, retain_others-All owner instance_id m)
]

complete_all-All :
    (active : List ActiveToken) → All (λ at. at.completed ≡ true) (complete_all active)
unfolding complete_all
complete_all-All [] = tt
complete_all-All (at ∷ rest) = (refl, complete_all-All rest)

abbrev written : Engine → ℕ → (ProcessInstance → ProcessInstance) → Option ProcessInstance → Engine
written e instance_id f found = elim found [
  | none ↦ e
  | some inst ↦ set_instance e instance_id (f inst)
]

ended :
    (instance_id : ℕ) (e : Engine) (f : ProcessInstance → ProcessInstance)
    → HasNothingPending instance_id e
    → ((inst : ProcessInstance)
        → ((f inst).state ≡ completed) × All (λ at. at.completed ≡ true) (f inst).active_tokens)
    → (found : Option ProcessInstance) → get e.instances instance_id ≡ found
    → HasNothingPending instance_id (written e instance_id f found)
      × HasEnded instance_id (written e instance_id f found)
ended instance_id e f h done none eq = (h, inl eq)
ended instance_id e f h done (some inst) eq = (
  h,
  inr (f inst, get-insert_self e.instances instance_id (f inst), (done inst).0, (done inst).1),
)

-- After a terminate end event no token of the batch is left, no user task, service task, timer or message
-- catch of the instance is pending, and the instance, if there is one, is completed with all its active tokens.
pub terminate_lem :
    (env : Env) (nested : ℕ → Token → Run (Unit {0})) (instance_id token_id : ℕ)
    (gateway_id : String) (queue : List Token) (w : World)
    → let (exit, w') =
        handle_next_action env nested instance_id terminate token_id gateway_id queue w in
      (exit ≡ returns []) × HasNothingPending instance_id w'.engine × HasEnded instance_id w'.engine
unfolding handle_next_action pure ◌>>=◌ modify ask touch_instance complete_all
terminate_lem env nested instance_id token_id gateway_id queue w =
    let e = without_pending instance_id w.engine in
    let r =
      ended instance_id e _
        (
          retain_others-All (λ t. t.instance_id) instance_id w.engine.pending_user_tasks,
          retain_others-All (λ t. t.instance_id) instance_id w.engine.pending_service_tasks,
          retain_others-All (λ t. t.instance_id) instance_id w.engine.pending_timers,
          retain_others-All (λ t. t.instance_id) instance_id w.engine.pending_message_catches,
        )
        (λ inst. (refl, complete_all-All inst.active_tokens)) (get w.engine.instances instance_id)
        refl in
    (refl, r.0, r.1)
