-- ===== src/ServiceTask/Automaton.antt =====
-- The lock protocol of service tasks as an automaton that knows of a task its holder and when the lock
-- runs out, and nothing else.
pub mod Steps
pub mod Refinement
use mini_bpm_engine.Prelude.{
  ℕ, String, ◌≡◌, ◌≢◌, ◌⊎◌, inl, inr, refl, sym, ap, ◌∙◌, subst, Bool, true, false, ◌&&◌, Option,
  none, some, List, [], ◌∷◌, get, suc, leb, ◌==◌, if◌then◌else◌, Bool-cases, nat_eq, string_eq,
  arith,
}
use mini_bpm_engine.Prelude.Int.{ℤ, add_seconds}
use mini_bpm_engine.Domain.Error.{Result, ok, err, EngineError}
use mini_bpm_engine.Runtime.Pending.{PendingServiceTask}
use mini_bpm_engine.Engine.{Engine}
use mini_bpm_engine.ServiceTask.{
  Tasks, is_unlocked, is_available, lock, fetch_loop, fetch_and_lock_service_tasks,
  fail_service_task, retry_incident, extend_lock,
}
use mini_bpm_engine.ServiceTask.Locking.{fetch_full, fetch_take, fetch_skip}
use mini_bpm_engine.ServiceTask.Ownership.{
  OwnerOnly, Replaces, fail_service_task_lem, extend_lock_lem, retry_incident_lem,
}
use mini_bpm_engine.ServiceTask.Completion.{is_holder}

-- The holder of a task and the time at which its lock runs out.
pub record Lock : Type 0 where
  pub holder : Option String
  pub until : Option ℕ

-- What a worker or an operator asks of the protocol, at the time `now`.
pub data Request : Type 0 where
  fetch :
      (now : ℕ) (worker : String) (max_tasks : ℕ) (topics : List String) (duration : ℤ) → Request
  report :
      (task_id : ℕ) (worker : String) (retries : Option ℤ) (message details : Option String)
      → Request
  extend : (now task_id : ℕ) (worker : String) (duration : ℤ) → Request
  retry : (task_id : ℕ) (retries : Option ℤ) → Request

abbrev pub lock_of : PendingServiceTask → Lock
lock_of t = record { holder = t.worker_id; until = t.lock_expiration }

abbrev pub lock_of_found : Option PendingServiceTask → Option Lock
lock_of_found none = none
lock_of_found (some t) = some (lock_of t)

abbrev pub lock_at : ℕ → Engine → Option Lock
lock_at task_id e = lock_of_found (get e.pending_service_tasks task_id)

-- A refused request changes nothing.
abbrev pub or_before : Engine → Result Engine → Engine
or_before e (ok e') = e'
or_before e (err _) = e

unfoldable pub answer : Request → Engine → Engine
answer (fetch now worker max_tasks topics duration) e =
    (fetch_and_lock_service_tasks now worker max_tasks topics duration e).0
answer (report task_id worker retries message details) e =
    or_before e (fail_service_task e task_id worker retries message details)
answer (extend now task_id worker duration) e =
    or_before e (extend_lock now e task_id worker duration)
answer (retry task_id retries) e = or_before e (retry_incident e task_id retries)

unfoldable pub answer_all : List Request → Engine → Engine
answer_all [] e = e
answer_all (r ∷ rs) e = answer_all rs (answer r e)

abbrev pub unlocked : Lock
unlocked = record { holder = none; until = none }

abbrev pub holds : String → Option Lock → Bool
holds worker none = false
holds worker (some l) = is_holder worker l.holder

-- What a request may do to the lock of the task `id`: a fetch takes a lock that has run out, or leaves
-- it; a report releases it and an extension moves its end, exactly if the worker holds it; a retry
-- releases it or leaves it.
abbrev pub Allows : (id : ℕ) → Request → (before after : Option Lock) → Type 0
Allows id (fetch now worker max_tasks topics duration) before after =
    (after ≡ before)
    ⊎ ((l : Lock) × (before ≡ some l)
        × (is_unlocked now l.until ≡ true)
        × (after ≡ some (record { holder = some worker; until = some (add_seconds now duration) })))
Allows id (report task_id worker retries message details) before after =
    after ≡ (if task_id == id && holds worker before then some unlocked else before)
Allows id (extend now task_id worker duration) before after = after ≡ (
    if task_id == id && holds worker before
    then some (record { holder = some worker; until = some (add_seconds now duration) })
    else before)
Allows id (retry task_id retries) before after =
    (after ≡ before) ⊎ ((task_id ≡ id) × (before ≢ none) × (after ≡ some unlocked))

-- The runs of the automaton.
pub data Follows (id : ℕ) : List Request → Option Lock → Option Lock → Type 0 where
  rests : (l : Option Lock) → Follows id [] l l
  moves :
      (r : Request) (rs : List Request) (l l' l'' : Option Lock)
      → Allows id r l l'
      → Follows id rs l' l''
      → Follows id (r ∷ rs) l l''
