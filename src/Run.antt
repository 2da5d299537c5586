-- ===== src/Run.antt =====
-- How the executing operations run: engine state, errors, and what the outside world answers.
-- What was written before an error stays written.
pub mod Keeping
pub mod Failing
use mini_bpm_engine.Prelude.{
  ℕ, suc, ◌+◌, String, Option, none, some, List, [], ◌∷◌, insert, get, nat_eq,
}
use mini_bpm_engine.Domain.Error.{EngineError, Result, ok, err, no_such_instance}
use mini_bpm_engine.Domain.Json.{Json, Variables}
use mini_bpm_engine.Domain.Timer.{Cron}
use mini_bpm_engine.Domain.Definition.{ProcessDefinition}
use mini_bpm_engine.Runtime.Instance.{ProcessInstance}
use mini_bpm_engine.Engine.{
  Engine, Effect, perform, instance_of, definition_of, set_instance, if_instance,
}

-- The libraries, the clock, the generator of identifiers and the script interpreter. The ℕ argument of
-- an answer counts the questions asked so far, so that each answer may differ.
pub record Env : Type 0 where
  pub json : Json
  pub cron : Cron
  -- `Uuid::new_v4()`, and `Display` of an identifier.
  pub uuid : ℕ → ℕ
  pub uuid_text : ℕ → String
  -- `Utc::now()`.
  pub now : ℕ → ℕ
  -- `execute_script_safe`: a Rhai script maps the variables or fails, or it is stopped.
  pub run_script : ℕ → String → Variables → Result Variables
  -- `Debug` of a string, and `as_str` of a JSON value stored under a name.
  pub debug_text : String → String
  -- `Display` of an error.
  pub error_text : EngineError → String
  pub text_of : Variables → String → Option String

pub record World : Type 0 where
  pub engine : Engine
  pub asked : ℕ

-- `too_deep` has no counterpart in the code: batches are nested deeper than the model runs them.
pub data Exit {ℓ} (A : Type ℓ) : Type ℓ where
  returns : A → Exit A
  raises : EngineError → Exit A
  too_deep : Exit A

abbrev pub Run {ℓ} : Type ℓ → Type ℓ
Run A = World → Exit A × World

unfoldable pub pure {ℓ} : {A : Type ℓ} → A → Run A
pure a w = (returns a, w)

unfoldable pub raise {ℓ} : {A : Type ℓ} → EngineError → Run A
raise e w = (raises e, w)

infixl 5 ◌>>=◌
unfoldable pub ◌>>=◌ {ℓ κ} : {A : Type ℓ} {B : Type κ} → Run A → (A → Run B) → Run B
◌>>=◌ m f w =
    let (r, w') = m w in
    elim r [ returns a ↦ f a w' | raises e ↦ (raises e, w') | too_deep ↦ (too_deep, w') ]

infixl 5 ◌>>◌
abbrev pub ◌>>◌ {ℓ} : {B : Type ℓ} → Run (Unit {0}) → Run B → Run B
m >> k = m >>= λ _. k

-- The engine, read and written.
unfoldable pub reads {ℓ} : {A : Type ℓ} → (Engine → A) → Run A
reads f w = (returns (f w.engine), w)

unfoldable pub modify : (Engine → Engine) → Run (Unit {0})
modify f w = (returns tt, record w { engine = f w.engine })

-- `?` on a result that reads the engine.
unfoldable pub lift {ℓ} : {A : Type ℓ} → Result A → Run A
lift (ok a) = pure a
lift (err e) = raise e

abbrev pub attempt {ℓ} : {A : Type ℓ} → (Engine → Result A) → Run A
attempt f = reads f >>= lift

-- An operation on the engine that may fail before it writes.
unfoldable pub update : (Engine → Result Engine) → Run (Unit {0})
unfolding pure raise ◌>>=◌ reads modify lift
update f = attempt f >>= λ e. modify (λ _. e)

-- The same, with an answer.
unfoldable pub step_engine {ℓ} : {A : Type ℓ} → (Engine → Result (A × Engine)) → Run A
unfolding pure raise ◌>>=◌ reads modify lift
step_engine f = attempt f >>= λ r. modify (λ _. r.1) >> pure r.0

-- A `match` on the result of an operation.
unfoldable pub try_run {ℓ} : {A : Type ℓ} → Run A → Run (Result A)
try_run m w =
    let (r, w') = m w in
    elim r [
      | returns a ↦ (returns (ok a), w')
      | raises e ↦ (returns (err e), w')
      | too_deep ↦ (too_deep, w')
    ]

unfoldable pub overflow {ℓ} : {A : Type ℓ} → Run A
overflow w = (too_deep, w)

-- The next answer of the world.
unfoldable pub ask {ℓ} : {A : Type ℓ} → (ℕ → A) → Run A
ask f w = (returns (f w.asked), record w { asked = suc w.asked })

-- The next `n` answers are used up.
unfoldable pub asked_for : ℕ → Run (Unit {0})
asked_for n w = (returns tt, record w { asked = n + w.asked })

abbrev pub effect : Effect → Run (Unit {0})
effect x = modify (λ e. perform e (x ∷ []))

-- `self.instances.get(&id).await.ok_or(NoSuchInstance)?`, and the same with a write under the lock.
abbrev pub instance_at : ℕ → Run ProcessInstance
instance_at instance_id = attempt (λ e. instance_of e instance_id)

unfoldable pub write_instance : ℕ → (ProcessInstance → ProcessInstance) → Run (Unit {0})
unfolding pure raise ◌>>=◌ reads modify lift
write_instance instance_id f =
    instance_at instance_id >>= λ inst. modify (λ e. set_instance e instance_id (f inst))

-- `if let Some(inst_arc) = self.instances.get(&id).await { … }`.
unfoldable pub touch_instance : ℕ → (ProcessInstance → ProcessInstance) → Run (Unit {0})
unfolding modify
touch_instance instance_id f = modify (λ e. if_instance e instance_id f)

abbrev pub definition_at : ℕ → Run ProcessDefinition
definition_at def_key = attempt (λ e. definition_of e def_key)

-- A `for` loop.
unfoldable pub for_each {ℓ} : {A : Type ℓ} → List A → (A → Run (Unit {0})) → Run (Unit {0})
for_each [] f = pure tt
for_each (x ∷ xs) f = f x >> for_each xs f
