-- ===== src/Domain/Timer/Expiry.antt =====
-- When a timer expires.
use mini_bpm_engine.Prelude.{ℕ, ◌<◌, String, ◌≡◌, ◌⊎◌, inl, Bool, true, false, some, nat_beq, arith}
use mini_bpm_engine.Domain.Timer.{
  TimerDefinition, duration, absolute_date, cron_cycle, repeating_interval, Cron, next_expiry,
}

-- A timer that waits for no time at all.
abbrev pub is_instant : TimerDefinition → Bool
is_instant (duration d) = nat_beq d 0
is_instant (repeating_interval r i) = nat_beq i 0
is_instant _ = false

-- If croner answers only times after the one it is asked about, the next expiry lies after `now`; only
-- that of a duration or an interval of zero is `now` itself.
pub next_expiry_later :
    (cron : Cron) (t : TimerDefinition) (now x : ℕ)
    → ((expression : String) (from at : ℕ)
        → cron.find_next_occurrence expression from ≡ some at
        → from < at)
    → next_expiry cron t now ≡ some x
    → (now < x) ⊎ ((is_instant t ≡ true) × (x ≡ now))
unfolding next_expiry
next_expiry_later cron (duration d) now x law h = grind arith
next_expiry_later cron (absolute_date dt) now x law h = grind arith
next_expiry_later cron (cron_cycle expression r) now x law h = inl (law expression now x h)
next_expiry_later cron (repeating_interval r i) now x law h = grind arith
