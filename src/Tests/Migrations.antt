-- ===== src/Tests/Migrations.antt =====
-- An instance that migrates, and the boundary events of a task.
use mini_bpm_engine.Prelude.{
  ◌+◌, String, ◌≡◌, ◌↔◌, refl, true, false, some, none, [], ◌∷◌, Map, get, contains_key, nat_eq,
  string_eq,
}
use mini_bpm_engine.Prelude.Int.{pos}
use mini_bpm_engine.Domain.Timer.{Cron, duration}
use mini_bpm_engine.Domain.Element.{
  BpmnElement, start_event, end_event, user_task, boundary_timer_event, boundary_message_event,
}
use mini_bpm_engine.Domain.Error.{ok}
use mini_bpm_engine.Domain.Definition.{ProcessDefinition, definition, SubProcesses, nodes}
use mini_bpm_engine.Runtime.Instance.{is_suspended, ProcessInstance}
use mini_bpm_engine.Engine.{Engine}
use mini_bpm_engine.InstanceOps.Suspension.{has_ended}
use mini_bpm_engine.InstanceOps.Migration.{after_migration, migrate_instance}
use mini_bpm_engine.InstanceOps.Migration.Keys.{HoldsNoOther}
use mini_bpm_engine.InstanceOps.Migration.Placement.{
  StandsOn, HasCounterpart, migrate_instance_iff, migrate_instance_placed,
}
use mini_bpm_engine.Boundary.{setup_boundary_events}
use mini_bpm_engine.Boundary.Setup.{
  Covers, IsTimerFor, IsMessageFor, NoTimerAt, NoMessageAt, setup_boundary_events-Covers,
}
use mini_bpm_engine.Tests.Data.{order, forked, engine, token_at}

-- The next version of the order process: the split has another name.
abbrev next_nodes_map : Map String BpmnElement
next_nodes_map =
    ("start", start_event)
    ∷ ("split", user_task "split")
    ∷ ("a", user_task "pack")
    ∷ ("b", user_task "bill")
    ∷ ("patience", boundary_timer_event "a" (duration 60) true)
    ∷ ("revoked", boundary_message_event "a" "revoke" false)
    ∷ ("end", end_event)
    ∷ []

abbrev next_order : ProcessDefinition
next_order = definition 8 "order" (pos 2) next_nodes_map [] [] [] SubProcesses.nil

abbrev deployed : Engine
deployed = record engine { definitions = (7, order) ∷ (8, next_order) ∷ [] }

abbrev renamed : Map String String
renamed = ("fork", "split") ∷ []

migrate_instance_iff_example : ((e' : Engine) × (migrate_instance 1 8 renamed deployed ≡ ok e')) ↔ (
    (has_ended forked.state ≡ false)
    × (is_suspended forked.state ≡ false)
    × StandsOn (HasCounterpart next_order renamed) forked)
unfolding get
migrate_instance_iff_example = migrate_instance_iff 1 8 renamed deployed next_order forked refl refl

migrate_instance_placed_example :
    (inst' : ProcessInstance) × (get
        (after_migration 1 8 renamed deployed next_order forked).instances
        1
      ≡ some inst')
    × (inst'.definition_key ≡ 8)
    × StandsOn (λ n. contains_key (nodes next_order) n ≡ true) inst'
    × HoldsNoOther forked.join_barriers inst'.join_barriers
    × HoldsNoOther forked.multi_instance_state inst'.multi_instance_state
unfolding get migrate_instance
migrate_instance_placed_example =
    migrate_instance_placed 1 8 renamed deployed
      (after_migration 1 8 renamed deployed next_order forked) next_order forked refl refl refl

abbrev never : Cron
never = record { find_next_occurrence = λ expression from. none }

setup_boundary_events-Covers_example :
    let (timers, messages) =
      setup_boundary_events never
        (λ n. 1000 + n)
        (λ n. 50 + n)
        next_order
        "a"
        1
        (token_at 10 "a") in
    Covers (IsTimerFor "a" 1 (token_at 10 "a")) (NoTimerAt "a") next_nodes_map timers
    × Covers (IsMessageFor "a" 1 (token_at 10 "a")) (NoMessageAt "a") next_nodes_map messages
setup_boundary_events-Covers_example =
    setup_boundary_events-Covers never (λ n. 1000 + n) (λ n. 50 + n) next_order "a" 1
      (token_at 10 "a")
