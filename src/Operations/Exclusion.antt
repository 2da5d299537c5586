-- ===== src/Operations/Exclusion.antt =====
-- The mutual exclusion of service tasks in every state that the engine reaches.
use mini_bpm_engine.Prelude.{ℕ, ◌<◌, String, List, [], Map}
use mini_bpm_engine.Prelude.Int.{ℤ, add_seconds}
use mini_bpm_engine.Domain.Definition.{ProcessDefinition}
use mini_bpm_engine.Run.{Env, World}
use mini_bpm_engine.ServiceTask.{fetch_and_lock_service_tasks}
use mini_bpm_engine.ServiceTask.Exclusion.{AreApart, fetches_apart}
use mini_bpm_engine.Operations.{Operation, replay}
use mini_bpm_engine.Filing.Operations.{replay-IsFiled}

-- `WorkflowEngine::new`, with definitions deployed.
abbrev pub started : Map ℕ ProcessDefinition → World
started definitions = record {
  engine = record {
    definitions = definitions;
    instances = [];
    pending_user_tasks = [];
    pending_service_tasks = [];
    pending_timers = [];
    pending_message_catches = [];
    effects = [];
  };
  asked = 0;
}

-- In every state that a new engine reaches by any sequence of calls: of two fetches, the later one before
-- the locks of the earlier one run out, no service task is handed out twice.
pub replay-apart :
    (env : Env) (depth : ℕ) (definitions : Map ℕ ProcessDefinition) (ops : List Operation) (now : ℕ)
    (worker : String) (max : ℕ) (topics : List String) (duration : ℤ) (now' : ℕ) (worker' : String)
    (max' : ℕ) (topics' : List String) (duration' : ℤ)
    → now' < add_seconds now duration
    → let e = (replay env depth ops (started definitions)).engine in
      let (e', result) = fetch_and_lock_service_tasks now worker max topics duration e in
      let (e'', result') = fetch_and_lock_service_tasks now' worker' max' topics' duration' e' in
      AreApart result result'
replay-apart env depth definitions ops now worker max topics duration now' worker' max' topics'
      duration' held =
    fetches_apart (replay env depth ops (started definitions)).engine now worker max topics duration
      now' worker' max' topics' duration'
      (replay-IsFiled env depth ops (started definitions) (tt, tt, tt, tt, tt)).2 held
