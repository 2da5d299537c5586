-- ===== src/Domain/Timer.antt =====
-- engine-core/src/domain/timer.rs: timer definitions and their next expiry.
pub mod Expiry
use mini_bpm_engine.Prelude.{
  ℕ, ◌+◌, ◌*◌, ◌-◌, ◌^◌, String, Bool, true, false, Option, none, some, ltb, leb, if◌then◌else◌,
}

-- Durations and points in time are nanoseconds; times count from chrono's earliest date.
pub data TimerDefinition : Type 0 where
  duration : ℕ → TimerDefinition
  absolute_date : ℕ → TimerDefinition
  cron_cycle : (expression : String) (max_repetitions : Option ℕ) → TimerDefinition
  repeating_interval : (repetitions : Option ℕ) (interval : ℕ) → TimerDefinition

-- What the code uses of the croner crate: parsing an expression and its first occurrence strictly
-- after a time, `none` where either fails.
pub record Cron : Type 0 where
  pub find_next_occurrence : String → ℕ → Option ℕ

-- `chrono::Duration::from_std`: durations up to `i64::MAX` milliseconds.
abbrev pub from_std : ℕ → Option ℕ
from_std d = if leb d ((2 ^ 63 - 1) * 1000000) then some d else none

unfoldable pub next_expiry : Cron → TimerDefinition → ℕ → Option ℕ
next_expiry cron (duration dur) now = elim (from_std dur) [ none ↦ none | some d ↦ some (now + d) ]
next_expiry cron (absolute_date dt) now = if ltb now dt then some dt else none
next_expiry cron (cron_cycle expression r) now = cron.find_next_occurrence expression now
next_expiry cron (repeating_interval r interval) now = elim (from_std interval) [
  | none ↦ none
  | some d ↦ some (now + d)
]

unfoldable pub is_recurring : TimerDefinition → Bool
is_recurring (cron_cycle e r) = true
is_recurring (repeating_interval r i) = true
is_recurring _ = false
