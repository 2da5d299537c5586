-- ===== src/Filing.antt =====
-- Each instance and each wait state of engine-core/src/engine/mod.rs stands in its map under its own
-- identifier, and under no other: the invariant, and the single writes that keep it.
pub mod Handlers
pub mod Gateways
pub mod Starting
pub mod Joining
pub mod Actions
pub mod Steps
pub mod Batches
pub mod Waiting
pub mod Services
pub mod Events
pub mod Calls
pub mod Deployments
pub mod Operations
use mini_bpm_engine.Prelude.{
  ℕ, ◌≡◌, refl, sym, ◌∙◌, ap, subst, Option, none, some, Option-cases, inl, inr, List, [], ◌∷◌, Map,
  get, insert, arith, nat_eq,
}
use mini_bpm_engine.Prelude.Keyed.{IsKeyed, insert-IsKeyed, filter-IsKeyed, get-own}
use mini_bpm_engine.Domain.Error.{Result, ok, err, no_such_instance, ok_or}
use mini_bpm_engine.Runtime.Instance.{ProcessInstance}
use mini_bpm_engine.Engine.{Engine, Effect, set_instance, if_instance}
use mini_bpm_engine.Run.{
  World, Run, effect, modify, write_instance, touch_instance, definition_at, instance_at, pure,
  raise, ◌>>=◌, reads, lift,
}
use mini_bpm_engine.Run.Keeping.{
  Keeps, Keeps-pure, Keeps-raise, Keeps-overflow, Keeps-ask, Keeps-asked_for, Keeps-reads,
  Keeps-lift, Keeps-if, Keeps-option, Keeps-result, Keeps-bool, Keeps-bind, Keeps-modify,
}

abbrev pub IsFiled : Engine → Type 0
IsFiled e =
    IsKeyed (λ i. i.id) e.instances
    × IsKeyed (λ t. t.task_id) e.pending_user_tasks
    × IsKeyed (λ t. t.id) e.pending_service_tasks
    × IsKeyed (λ t. t.id) e.pending_timers
    × IsKeyed (λ m. m.id) e.pending_message_catches

pub set_instance-IsFiled :
    (e : Engine) (instance_id : ℕ) (inst new : ProcessInstance)
    → get e.instances instance_id ≡ some inst
    → new.id ≡ inst.id
    → IsFiled e
    → IsFiled (set_instance e instance_id new)
set_instance-IsFiled e instance_id inst new found same h = (
  insert-IsKeyed (λ i. i.id) e.instances instance_id new
      (same ∙ get-own (λ i. i.id) e.instances instance_id inst h.0 found) h.0,
  h.1,
  h.2,
  h.3,
  h.4,
)

pub Keeps-effect : (x : Effect) → Keeps IsFiled (effect x)
Keeps-effect x = Keeps-modify _ (λ e h. h)

abbrev touched : Engine → ℕ → (ProcessInstance → ProcessInstance) → Option ProcessInstance → Engine
touched e instance_id f found = elim found [
  | none ↦ e
  | some inst ↦ set_instance e instance_id (f inst)
]

module _ (instance_id : ℕ) (f : ProcessInstance → ProcessInstance)
    (same : (inst : ProcessInstance) → (f inst).id ≡ inst.id) where
  pub IsFiled-instance : (e : Engine) → IsFiled e → IsFiled (if_instance e instance_id f)
  IsFiled-instance e h = settle e h (get e.instances instance_id) refl
    where
      settle :
          (e : Engine)
          → IsFiled e
          → (found : Option ProcessInstance) → get e.instances instance_id ≡ found
          → IsFiled (touched e instance_id f found)
      settle e h none eq = h
      settle e h (some inst) eq = set_instance-IsFiled e instance_id inst (f inst) eq (same inst) h

  pub Keeps-touch : Keeps IsFiled (touch_instance instance_id f)
  unfolding touch_instance
  Keeps-touch = Keeps-modify _ IsFiled-instance

  pub Keeps-write : Keeps IsFiled (write_instance instance_id f)
  unfolding write_instance pure raise ◌>>=◌ reads modify lift
  Keeps-write = record { keeps = λ w h. settle w h (get w.engine.instances instance_id) refl }
    where
      settle :
          (w : World)
          → IsFiled w.engine
          → (found : Option ProcessInstance) → get w.engine.instances instance_id ≡ found
          → IsFiled
              ((lift (ok_or found (no_such_instance instance_id)) >>= λ inst.
                  modify (λ e. set_instance e instance_id (f inst)))
                w).1.engine
      settle w h none eq = h
      settle w h (some inst) eq =
          set_instance-IsFiled w.engine instance_id inst (f inst) eq (same inst) h

-- What a read of a stored value tells of it.
pub Keeps-found {ℓ κ} :
    {A : Type ℓ} {B : Type κ} (m : Engine → Map ℕ A) (id_of : A → ℕ)
    (own : (e : Engine) → IsFiled e → IsKeyed id_of (m e)) (k : ℕ) (f : Option A → Run B)
    → Keeps IsFiled (f none)
    → ((a : A) → id_of a ≡ k → Keeps IsFiled (f (some a)))
    → Keeps IsFiled (reads (λ e. get (m e) k) >>= f)
unfolding reads ◌>>=◌
Keeps-found {A = A} m id_of own k f absent present = record {
  keeps = λ w h. settle w h (get (m w.engine) k) refl;
}
  where
    settle :
        (w : World)
        → IsFiled w.engine
        → (found : Option A) → get (m w.engine) k ≡ found
        → IsFiled (f found w).1.engine
    settle w h none eq = absent.keeps w h
    settle w h (some a) eq =
        (present a (get-own id_of (m w.engine) k a (own w.engine h) eq)).keeps w h

pub ruleset filing = (
  Keeps-pure, Keeps-raise, Keeps-overflow, Keeps-ask, Keeps-asked_for, Keeps-reads, Keeps-lift,
  Keeps-if, Keeps-option, Keeps-result, Keeps-bool, Keeps-bind, Keeps-effect, Keeps-write,
  Keeps-touch,
)
