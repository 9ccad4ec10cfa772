-- ===== src/Scheduler/Cron/Next.antt =====
-- `TriggerEngine._next_cron`: the search for the next instant, and what instants a cron
-- expression stands for. `datetime` ends with the year 9999: a later date is an OverflowError.
pub mod Least
pub mod Earliest
use ai_lab_os.Prelude.{
  ℕ, ◌+◌, ◌-◌, ◌*◌, ◌/◌, ◌%◌, ◌≤◌, ◌<◌, ◌≡◌, refl, Bool, true, false, ◌&&◌, Option, none, some, leb,
  ltb, String, if◌then◌else◌,
}
use ai_lab_os.Scheduler.Models.{Instant, DateTime, naive, aware, minute, hour, day}
use ai_lab_os.Scheduler.Cron.Parse.{cron_steps}
use ai_lab_os.Scheduler.Cron.Scan.{or_else, first_hit}

-- Days from 0001-01-01 to 9999-12-31, and the first instant behind them.
abbrev pub days_of_datetime : ℕ
days_of_datetime = 3652059

abbrev pub end_of_datetime : ℕ
end_of_datetime = days_of_datetime * day

-- for minute in range(0, 60, minute_step): candidate > now
minute_body : Instant → Instant → ℕ → Option Instant
minute_body now base m =
    let candidate = base + m * minute in if ltb now candidate then some candidate else none

minute_hit : ℕ → Instant → Instant → Option Instant
unfolding minute_body
minute_hit minute_step now base = first_hit 60 minute_step 60 (minute_body now base) 0

-- `now.hour`, for a `now` behind that midnight
pub hour_of : Instant → ℕ
hour_of now = now % day / hour

-- for hour in range(0, 24, hour_step): the hours of the first day that are over are skipped
hour_body : Bool → ℕ → Instant → Instant → ℕ → Option Instant
unfolding minute_hit hour_of
hour_body first_day minute_step now date h =
    if first_day && ltb h (hour_of now) then none else minute_hit minute_step now (date + h * hour)

pub hour_hit : Bool → ℕ → ℕ → Instant → Instant → Option Instant
unfolding hour_body
hour_hit first_day minute_step hour_step now date =
    first_hit 24 hour_step 24 (hour_body first_day minute_step now date) 0

-- for day in (0, 1): the date of the second day may be out of range
next_match : ℕ → ℕ → Instant → Option Instant
unfolding hour_hit
next_match minute_step hour_step now =
    let midnight = now - now % day in
    or_else (hour_hit true minute_step hour_step now midnight) (
      if leb end_of_datetime (midnight + day)
      then none
      else hour_hit false minute_step hour_step now (midnight + day))

next_of_steps : Option (ℕ × ℕ) → DateTime → Option Instant
unfolding next_match
next_of_steps none now = none
next_of_steps (some (m, h)) (naive now) = none
next_of_steps (some (m, h)) (aware now) = next_match m h now

unfoldable pub next_cron : String → DateTime → Option Instant
unfolding next_of_steps
next_cron expression now = next_of_steps (cron_steps expression) now

-- 2026-07-30T09:59:30 and the next tenth minute of an even hour.
next_cron_test :
    next_cron "*/10 */2 * * *" (aware (739461 * day + 9 * hour + 59 * minute + 30000000))
    ≡ some (739461 * day + 10 * hour)
unfolding next_cron first_hit cron_steps
next_cron_test = refl

-- The instants that a pair of steps stands for.
pub record Matches (minute_step hour_step : ℕ) (t : Instant) : Type 0 where
  pub on_minute : t % minute ≡ 0
  pub of_minutes : t / minute % 60 % minute_step ≡ 0
  pub of_hours : t / hour % 24 % hour_step ≡ 0
