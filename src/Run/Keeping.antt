-- ===== src/Run/Keeping.antt =====
-- Operations that keep an invariant of the engine, whether they return, fail, or nest too deeply.
use mini_bpm_engine.Prelude.{ℕ, Bool, true, false, Option, none, some, List, [], ◌∷◌, if◌then◌else◌}
use mini_bpm_engine.Domain.Error.{EngineError, Result, ok, err, ◌>>=◌ as then_ok}
use mini_bpm_engine.Engine.{Engine}
use mini_bpm_engine.Run.{
  World, Exit, returns, raises, too_deep, Run, pure, raise, ◌>>=◌, reads, modify, lift, update,
  step_engine, try_run, overflow, ask, asked_for, for_each,
}

module _ {ℓ} {A : Type ℓ} (I : Engine → Type 0) where
  pub record Keeps (m : Run A) : Type 0 where
    pub keeps : (w : World) → I w.engine → I (m w).1.engine

-- A predicate of what a result carries.
abbrev pub IfOk {ℓ} : {A : Type ℓ} → (A → Type 0) → Result A → Type 0
IfOk P (ok a) = P a
IfOk P (err e) = Unit {0}

pub IfOk-true {ℓ} : {A : Type ℓ} (r : Result A) → IfOk (λ a. Unit {0}) r
IfOk-true (ok a) = tt
IfOk-true (err e) = tt

module _ {κ} {B : Type κ} (P : B → Type 0) where
  pub IfOk-if : (b : Bool) (r s : Result B) → IfOk P r → IfOk P s → IfOk P (if b then r else s)
  IfOk-if true r s hr hs = hr
  IfOk-if false r s hr hs = hs

  pub IfOk-option {ℓ} :
      {A : Type ℓ} (o : Option A) (r : Result B) (f : A → Result B)
      → IfOk P r
      → ((a : A) → IfOk P (f a))
      → IfOk P (elim o [ none ↦ r | some a ↦ f a ])
  IfOk-option none r f hr hf = hr
  IfOk-option (some a) r f hr hf = hf a

pub IfOk-bind {ℓ κ} :
    {A : Type ℓ} {B : Type κ} (P : A → Type 0) (Q : B → Type 0) (r : Result A) (f : A → Result B)
    → IfOk P r
    → ((a : A) → P a → IfOk Q (f a))
    → IfOk Q (then_ok r f)
IfOk-bind P Q (ok a) f p h = h a p
IfOk-bind P Q (err e) f p h = tt

-- How `try_run` and `>>=` go on.
abbrev tried {ℓ} : {A : Type ℓ} → Exit A → World → Exit (Result A) × World
tried x w = elim x [
  | returns a ↦ (returns (ok a), w)
  | raises e ↦ (returns (err e), w)
  | too_deep ↦ (too_deep, w)
]

abbrev pub followed {ℓ κ} :
    {A : Type ℓ} {B : Type κ} → (A → Run B) → Exit A → World → Exit B × World
followed f x w = elim x [ returns a ↦ f a w | raises e ↦ (raises e, w) | too_deep ↦ (too_deep, w) ]

module _ {ℓ} {I : Engine → Type 0} {A : Type ℓ} where
  pub Keeps-pure : (a : A) → Keeps I (pure a)
  unfolding pure
  Keeps-pure a = record { keeps = λ w h. h }

  pub Keeps-raise : (e : EngineError) → Keeps I (raise {A = A} e)
  unfolding raise
  Keeps-raise e = record { keeps = λ w h. h }

  pub Keeps-overflow : Keeps I (overflow {A = A})
  unfolding overflow
  Keeps-overflow = record { keeps = λ w h. h }

  pub Keeps-ask : (f : ℕ → A) → Keeps I (ask f)
  unfolding ask
  Keeps-ask f = record { keeps = λ w h. h }

  pub Keeps-reads : (f : Engine → A) → Keeps I (reads f)
  unfolding reads
  Keeps-reads f = record { keeps = λ w h. h }

  pub Keeps-lift : (r : Result A) → Keeps I (lift r)
  unfolding lift pure raise
  Keeps-lift (ok a) = record { keeps = λ w h. h }
  Keeps-lift (err e) = record { keeps = λ w h. h }

  pub Keeps-if : (b : Bool) (m n : Run A) → Keeps I m → Keeps I n → Keeps I (if b then m else n)
  Keeps-if true m n hm hn = hm
  Keeps-if false m n hm hn = hn

  pub Keeps-step_engine :
      (f : Engine → Result (A × Engine))
      → ((e : Engine) → I e → IfOk (λ r. I r.1) (f e))
      → Keeps I (step_engine f)
  unfolding step_engine pure raise ◌>>=◌ reads modify lift
  Keeps-step_engine f h = record { keeps = λ w i. settle w i (f w.engine) (h w.engine i) }
    where
      settle :
          (w : World)
          → I w.engine
          → (r : Result (A × Engine)) → IfOk (λ r. I r.1) r
          → I ((lift r >>= λ x. modify (λ e. x.1) >>= λ u. pure x.0) w).1.engine
      settle w i (ok r) e = e
      settle w i (err x) e = i

  pub Keeps-try_run : (m : Run A) → Keeps I m → Keeps I (try_run m)
  unfolding try_run
  Keeps-try_run m h = record { keeps = λ w i. settle (m w).0 (m w).1 (h.keeps w i) }
    where
      settle : (x : Exit A) (w' : World) → I w'.engine → I (tried x w').1.engine
      settle (returns a) w' i = i
      settle (raises e) w' i = i
      settle too_deep w' i = i

module _ {ℓ κ} {I : Engine → Type 0} {A : Type ℓ} {B : Type κ} where
  pub Keeps-bind :
      (m : Run A) (f : A → Run B) → Keeps I m → ((a : A) → Keeps I (f a)) → Keeps I (m >>= f)
  unfolding ◌>>=◌
  Keeps-bind m f hm hf = record { keeps = λ w i. settle (m w).0 (m w).1 (hm.keeps w i) }
    where
      settle : (x : Exit A) (w' : World) → I w'.engine → I (followed f x w').1.engine
      settle (returns a) w' i = (hf a).keeps w' i
      settle (raises e) w' i = i
      settle too_deep w' i = i

module _ {I : Engine → Type 0} where
  pub Keeps-asked_for : (n : ℕ) → Keeps I (asked_for n)
  unfolding asked_for
  Keeps-asked_for n = record { keeps = λ w h. h }

  pub Keeps-modify : (f : Engine → Engine) → ((e : Engine) → I e → I (f e)) → Keeps I (modify f)
  unfolding modify
  Keeps-modify f h = record { keeps = λ w i. h w.engine i }

  pub Keeps-update :
      (f : Engine → Result Engine) → ((e : Engine) → I e → IfOk I (f e)) → Keeps I (update f)
  unfolding update pure raise ◌>>=◌ reads modify lift
  Keeps-update f h = record { keeps = λ w i. settle w i (f w.engine) (h w.engine i) }
    where
      settle :
          (w : World)
          → I w.engine
          → (r : Result Engine) → IfOk I r
          → I ((lift r >>= λ e. modify (λ _. e)) w).1.engine
      settle w i (ok e') e = e
      settle w i (err x) e = i

module _ {ℓ} {I : Engine → Type 0} {A : Type ℓ} where
  pub Keeps-for_each :
      (xs : List A) (f : A → Run (Unit {0})) → ((a : A) → Keeps I (f a)) → Keeps I (for_each xs f)
  unfolding for_each
  Keeps-for_each [] f h = Keeps-pure tt
  Keeps-for_each (x ∷ xs) f h = Keeps-bind _ _ (h x) (λ _. Keeps-for_each xs f h)

-- A `match` keeps the invariant when each branch does.
module _ {ℓ κ} {I : Engine → Type 0} {A : Type ℓ} {B : Type κ} where
  pub Keeps-option :
      (o : Option A) (n : Run B) (f : A → Run B)
      → Keeps I n
      → ((a : A) → Keeps I (f a))
      → Keeps I (elim o [ none ↦ n | some a ↦ f a ])
  Keeps-option none n f hn hf = hn
  Keeps-option (some a) n f hn hf = hf a

  pub Keeps-result :
      (r : Result A) (n : EngineError → Run B) (f : A → Run B)
      → ((e : EngineError) → Keeps I (n e))
      → ((a : A) → Keeps I (f a))
      → Keeps I (elim r [ err e ↦ n e | ok a ↦ f a ])
  Keeps-result (err e) n f hn hf = hn e
  Keeps-result (ok a) n f hn hf = hf a

module _ {κ} {I : Engine → Type 0} {B : Type κ} where
  pub Keeps-bool :
      (b : Bool) (n m : Run B) → Keeps I n → Keeps I m → Keeps I (elim b [ false ↦ n | true ↦ m ])
  Keeps-bool false n m hn hm = hn
  Keeps-bool true n m hn hm = hm
