-- ===== src/Scheduler/Trigger/Future.antt =====
-- What a validated trigger promises of its next instant.
use mathlib.Core.Path.{subst}
use ai_lab_os.Prelude.{
  ℕ, ◌+◌, ◌-◌, ◌*◌, ◌%◌, ◌<◌, ◌≤◌, ◌≡◌, refl, sym, ap, true, Option, none, some, arith, is_some, ℤ,
  pos, negsuc, ◌⊎◌, inl, inr, Option-cases, Bool-cases, ltb, Result, ok, err,
}
use ai_lab_os.Scheduler.Models.{
  Instant, Trigger, TriggerType, cron, interval, one_shot, manual, event, second, day,
}
use ai_lab_os.Scheduler.Faults.{SchedulerError, overflow}
use ai_lab_os.Scheduler.Cron.Parse.{cron_steps}
use ai_lab_os.Scheduler.Cron.Next.{end_of_datetime}
use ai_lab_os.Scheduler.Cron.Next.Earliest.{next_cron_earliest, next_cron_total}
use ai_lab_os.Scheduler.Trigger.{later, next_of_type, compute_next, validate_type, validate}

-- An instant after a span, unless it lies behind the year 9999.
abbrev pub Later : Instant → ℕ → Result SchedulerError (Option Instant) → Type 0
Later now span next =
    ((now + span < end_of_datetime) × (next ≡ ok (some (now + span))))
    ⊎ ((end_of_datetime ≤ now + span) × (next ≡ err overflow))

pub later-Later : (now : Instant) (span : ℕ) → Later now span (later now span)
unfolding later
later-Later now span = elim (Bool-cases (ltb (now + span) end_of_datetime)) [
  | inl fits ↦ inl (ground arith, rw fits refl)
  | inr over ↦ inr (ground arith, rw over refl)
]

-- A positive interval is added to now.
abbrev pub Spaced : Trigger → Instant → Result SchedulerError (Option Instant) → Type 0
Spaced trigger now next =
    (n : ℕ) × (trigger.interval_seconds ≡ pos n) × (0 < n) × Later now (n * second) next

next_interval :
    (trigger : Trigger) (z : ℤ) (now : Instant)
    → trigger.interval_seconds ≡ z
    → validate_type interval trigger ≡ true
    → Spaced trigger now (next_of_type interval trigger now)
unfolding validate_type next_of_type
next_interval trigger (pos n) now e v = (
  n,
  e,
  ground arith,
  subst (Later now (n * second)) (rw e (ground arith)) (later-Later now (n * second)),
)
next_interval trigger (negsuc n) now e v = absurd (ground arith)

next_cron_lem :
    (trigger : Trigger) (now : Instant)
    → now - now % day + day < end_of_datetime
    → validate_type cron trigger ≡ true
    → (t : Instant) × (next_of_type cron trigger now ≡ ok (some t)) × (now < t)
unfolding validate_type next_of_type
next_cron_lem trigger now room v = elim (Option-cases (cron_steps trigger.cron_expression)) [
  | inl e ↦ absurd (ground arith)
  | inr ((m, h), e) ↦
      let (t, found) = next_cron_total trigger.cron_expression now m h e room in
      (t, ap ok found, (next_cron_earliest trigger.cron_expression now t m h e found).0)
]

-- What a trigger of a type gets from `compute_next`.
abbrev pub Scheduled : TriggerType → Trigger → Instant → Type 0
Scheduled cron trigger now = (t : Instant) × (compute_next trigger now ≡ ok (some t)) × (now < t)
Scheduled interval trigger now = Spaced trigger now (compute_next trigger now)
Scheduled one_shot trigger now =
    (t : Instant) × (compute_next trigger now ≡ ok (some t)) × (trigger.run_at ≡ some t)
Scheduled manual trigger now = compute_next trigger now ≡ ok none
Scheduled event trigger now = compute_next trigger now ≡ ok none

run_at_set : (run_at : Option Instant) → is_some run_at ≡ true → (t : Instant) × (run_at ≡ some t)
run_at_set (some t) v = (t, refl)
run_at_set none v = cc

Scheduled-type :
    (type : TriggerType) (trigger : Trigger) (now : Instant)
    → trigger.trigger_type ≡ type
    → now - now % day + day < end_of_datetime
    → validate_type type trigger ≡ true
    → Scheduled type trigger now
unfolding compute_next validate_type
Scheduled-type cron trigger now e room v = rw e (next_cron_lem trigger now room v)
Scheduled-type interval trigger now e room v =
    subst (λ type. Spaced trigger now (next_of_type type trigger now)) (sym e)
      (next_interval trigger trigger.interval_seconds now refl v)
Scheduled-type one_shot trigger now e room v =
    let (t, at) = run_at_set trigger.run_at v in (t, rw e (ap ok at), at)
Scheduled-type manual trigger now e room v = rw e
Scheduled-type event trigger now e room v = rw e

-- A validated trigger gets an instant after now if it is a cron trigger, its own `run_at` if it is
-- one-shot, now and its interval if it is an interval trigger and the sum has a date, else an
-- OverflowError, and no instant if it is manual or waits for an event. The day after now has to lie in
-- the range of `datetime`.
pub compute_next-validate :
    (trigger : Trigger) (now : Instant)
    → now - now % day + day < end_of_datetime
    → validate trigger ≡ true
    → Scheduled trigger.trigger_type trigger now
unfolding validate
compute_next-validate trigger now room v =
    Scheduled-type trigger.trigger_type trigger now refl room v
