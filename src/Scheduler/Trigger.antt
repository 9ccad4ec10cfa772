-- ===== src/Scheduler/Trigger.antt =====
-- core/scheduler/triggers.py: when a trigger fires, and when it fires next.
pub mod Future
use ai_lab_os.Prelude.{
  ℕ, ◌+◌, ◌*◌, Bool, true, false, Option, none, some, leb, ℤ, is_positive, pos_part, is_some,
  if◌then◌else◌, ltb, Result, ok, err,
}
use ai_lab_os.Scheduler.Models.{
  Instant, aware, Trigger, TriggerType, cron, interval, one_shot, manual, event, second,
}
use ai_lab_os.Scheduler.Cron.Parse.{cron_steps}
use ai_lab_os.Scheduler.Cron.Next.{next_cron, end_of_datetime}
use ai_lab_os.Scheduler.Faults.{SchedulerError, overflow}

pub should_fire : Trigger → Instant → Bool
should_fire trigger now = elim trigger.next_run_at [ none ↦ false | some t ↦ leb t now ]

-- now + timedelta(...), which `datetime` has no room for behind the year 9999.
unfoldable pub later : Instant → ℕ → Result SchedulerError (Option Instant)
later now span = if ltb (now + span) end_of_datetime then ok (some (now + span)) else err overflow

unfoldable pub next_of_type :
    TriggerType → Trigger → Instant → Result SchedulerError (Option Instant)
unfolding later
next_of_type one_shot trigger now = ok trigger.run_at
next_of_type interval trigger now =
    if is_positive trigger.interval_seconds
    then later now (pos_part trigger.interval_seconds * second)
    else ok none
next_of_type cron trigger now = ok (next_cron trigger.cron_expression (aware now))
next_of_type manual trigger now = ok none
next_of_type event trigger now = ok none

unfoldable pub compute_next : Trigger → Instant → Result SchedulerError (Option Instant)
unfolding next_of_type
compute_next trigger now = next_of_type trigger.trigger_type trigger now

validate_type : TriggerType → Trigger → Bool
validate_type cron trigger = is_some (cron_steps trigger.cron_expression)
validate_type interval trigger = is_positive trigger.interval_seconds
validate_type one_shot trigger = is_some trigger.run_at
validate_type manual trigger = true
validate_type event trigger = true

unfoldable pub validate : Trigger → Bool
unfolding validate_type
validate trigger = validate_type trigger.trigger_type trigger
