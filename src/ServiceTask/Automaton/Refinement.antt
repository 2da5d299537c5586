-- ===== src/ServiceTask/Automaton/Refinement.antt =====
-- The service tasks of the engine go through runs of the automaton.
use mini_bpm_engine.Prelude.{ℕ, refl, ap, some, List, [], ◌∷◌, nat_eq, string_eq}
use mini_bpm_engine.Prelude.Int.{add_seconds}
use mini_bpm_engine.Engine.{Engine}
use mini_bpm_engine.ServiceTask.{fetch_and_lock_service_tasks}
use mini_bpm_engine.ServiceTask.Ownership.{fail_service_task_lem, extend_lock_lem}
use mini_bpm_engine.ServiceTask.Automaton.{
  Request, fetch, report, extend, retry, lock_at, answer, answer_all, unlocked, Allows, Follows,
  rests, moves,
}
use mini_bpm_engine.ServiceTask.Automaton.Steps.{loop-Fetched, owner_updates, retried}

answer-Allows :
    (r : Request) (id : ℕ) (e : Engine) → Allows id r (lock_at id e) (lock_at id (answer r e))
unfolding answer fetch_and_lock_service_tasks
answer-Allows (fetch now worker max_tasks topics duration) id e =
    loop-Fetched now worker max_tasks topics duration id 0 e.pending_service_tasks
answer-Allows (report task_id worker retries message details) id e =
    let (cases, replaces) = fail_service_task_lem e task_id worker retries message details in
    owner_updates e task_id worker _ _ unlocked id _ cases replaces (λ t h. refl)
answer-Allows (extend now task_id worker duration) id e =
    let (cases, replaces) = extend_lock_lem now e task_id worker duration in
    owner_updates e task_id worker _ _ _ id _ cases replaces
      (λ t h. ap (λ w. record { holder = w; until = some (add_seconds now duration) }) h)
answer-Allows (retry task_id retries) id e = retried e task_id retries id

-- Whatever is asked of the protocol, in whatever order, the lock of each task goes through a run of the
-- automaton.
pub answer_all-Follows :
    (rs : List Request) (id : ℕ) (e : Engine)
    → Follows id rs (lock_at id e) (lock_at id (answer_all rs e))
unfolding answer_all
answer_all-Follows [] id e = rests _
answer_all-Follows (r ∷ rs) id e =
    moves r rs _ _ _ (answer-Allows r id e) (answer_all-Follows rs id (answer r e))
