-- ===== src/Run/Failing.antt =====
-- How errors pass through the operations.
use mini_bpm_engine.Prelude.{◌≡◌, ap}
use mini_bpm_engine.Domain.Error.{EngineError, Result, err}
use mini_bpm_engine.Engine.{Engine}
use mini_bpm_engine.Run.{World, raises, Run, pure, raise, ◌>>=◌, reads, modify, lift, update}
use mini_bpm_engine.Run.Keeping.{followed}

pub raises-bind {ℓ κ} :
    {A : Type ℓ} {B : Type κ} (m : Run A) (f : A → Run B) (w w' : World) (e : EngineError)
    → m w ≡ (raises e, w')
    → (m >>= f) w ≡ (raises e, w')
unfolding ◌>>=◌
raises-bind m f w w' e h = ap (λ r. followed f r.0 r.1) h

pub raises-update :
    (f : Engine → Result Engine) (w : World) (e : EngineError)
    → f w.engine ≡ err e
    → update f w ≡ (raises e, w)
unfolding update pure raise ◌>>=◌ reads modify lift
raises-update f w e h = ap (λ r. (lift r >>= λ e. modify (λ _. e)) w) h
