-- ===== src/Scheduler/Runtime/Run/Settled.antt =====
-- What a run leaves of its job.
use ai_lab_os.Prelude.{
  ◌+◌, ◌-◌, ◌*◌, ◌%◌, ◌<◌, ◌≤◌, ◌≡◌, refl, ap, ◌∙◌, true, false, Bool-cases, ◌⊎◌, inl, inr, Option,
  none, some, at_least, Result, ok, err, String, pos, ℕ,
}
use ai_lab_os.Errors.{FailureInfo}
use ai_lab_os.Scheduler.Models.{
  Instant, JobStatus, JobRunStatus, Trigger, TriggerType, cron, interval, one_shot, manual, event,
  Job, JobRun, day, second,
}
use ai_lab_os.Scheduler.Trigger.{validate}
use ai_lab_os.Scheduler.Trigger.Future.{Scheduled, later-Later, compute_next-validate}
use ai_lab_os.Scheduler.Cron.Next.{end_of_datetime}
use ai_lab_os.Scheduler.Faults.{SchedulerError}
use ai_lab_os.Scheduler.Runtime.{Config}
use ai_lab_os.Scheduler.Runtime.Run.{
  settled_status, settled_next, judged_job, after_next, settle, is_success, is_one_shot, is_manual,
  failed_job,
}

-- The job is in a status, with that next instant.
abbrev pub IsAt : JobStatus → Option Instant → Job → Type 0
IsAt status next job = (job.status ≡ status) × (job.trigger.next_run_at ≡ next)

-- The job has failed for good with that failure.
abbrev pub IsBroken : FailureInfo → Job → Type 0
IsBroken failure job = (job.status ≡ JobStatus.failed) × (job.last_error ≡ some failure)

-- At that instant, unless `datetime` has no room for it.
abbrev pub IsDue : JobStatus → Instant → FailureInfo → Job → Type 0
IsDue status t unexpected job =
    ((t < end_of_datetime) × IsAt status (some t) job)
    ⊎ ((end_of_datetime ≤ t) × IsBroken unexpected job)

-- The status and the next instant of a job after a success, by the type of its trigger.
abbrev pub Fired : TriggerType → Trigger → Instant → FailureInfo → Job → Type 0
Fired one_shot trigger now unexpected job = IsAt JobStatus.completed none job
Fired cron trigger now unexpected job =
    (t : Instant) × (now < t) × IsAt JobStatus.active (some t) job
Fired interval trigger now unexpected job =
    (n : ℕ) × (trigger.interval_seconds ≡ pos n)
    × (0 < n)
    × IsDue JobStatus.active (now + n * second) unexpected job
Fired manual trigger now unexpected job = IsAt JobStatus.active none job
Fired event trigger now unexpected job = IsAt JobStatus.active none job

module _ (config : Config) (now : Instant) (token : String) (unexpected : FailureInfo) where
  Fired-type :
      (type : TriggerType) (job : Job) (run : JobRun)
      → job.trigger.trigger_type ≡ type
      → run.status ≡ JobRunStatus.success
      → Scheduled type job.trigger now
      → Fired type job.trigger now unexpected (settle config now token unexpected (job, run)).0
  unfolding settle judged_job settled_status settled_next after_next failed_job
  Fired-type one_shot job run e s scheduled = rw (s, ap is_one_shot e) (refl, refl)
  Fired-type cron job run e s (t, next, later) =
      rw (s, ap is_one_shot e, ap is_manual e, next) (t, later, (refl, refl))
  Fired-type interval job run e s (n, amount, positive, inl (fits, next)) =
      rw (s, ap is_one_shot e, ap is_manual e, next) (n, amount, positive, inl (fits, (refl, refl)))
  Fired-type interval job run e s (n, amount, positive, inr (over, next)) =
      rw (s, ap is_one_shot e, ap is_manual e, next) (n, amount, positive, inr (over, (refl, refl)))
  Fired-type manual job run e s scheduled = rw (s, ap is_one_shot e, ap is_manual e) (refl, refl)
  Fired-type event job run e s next = rw (s, ap is_one_shot e, ap is_manual e, next) (refl, refl)

  -- After a failure: the retries are used up, or a retry is due after the delay.
  abbrev pub Retried : Job → Job → Type 0
  Retried before job =
      (job.retry_count ≡ before.retry_count + 1)
      × (((at_least (before.retry_count + 1) before.max_retries ≡ true)
            × IsAt JobStatus.failed none job)
          ⊎ ((at_least (before.retry_count + 1) before.max_retries ≡ false)
              × IsDue JobStatus.retrying (now + config.retry_delay) unexpected job))

  settle-Retried :
      (job : Job) (run : JobRun)
      → is_success run.status ≡ false
      → Retried job (settle config now token unexpected (job, run)).0
  unfolding settle judged_job settled_status settled_next after_next failed_job
  settle-Retried job run s = elim (Bool-cases (at_least (job.retry_count + 1) job.max_retries)) [
    | inl spent ↦ rw (s, spent) (refl, inl (refl, (refl, refl)))
    | inr left ↦ elim (later-Later now config.retry_delay) [
      | inl (fits, next) ↦ rw (s, left, next) (refl, inr (refl, inl (fits, (refl, refl))))
      | inr (over, next) ↦ rw (s, left, next) (refl, inr (refl, inr (over, (refl, refl))))
    ]
  ]

  abbrev pub Settled : JobRunStatus → Job → Job → Type 0
  Settled JobRunStatus.success before job =
      (job.retry_count ≡ 0) × Fired before.trigger.trigger_type before.trigger now unexpected job
  Settled _ before job = Retried before job

  after_next-keeps :
      (job : Job) (run : JobRun) (next : Result SchedulerError (Option Instant))
      → (after_next now token unexpected job run next).0.retry_count ≡ job.retry_count
  unfolding after_next failed_job
  after_next-keeps job run (err e) = refl
  after_next-keeps job run (ok next) = refl

  settle-reset :
      (job : Job) (run : JobRun)
      → run.status ≡ JobRunStatus.success
      → (settle config now token unexpected (job, run)).0.retry_count ≡ 0
  unfolding settle judged_job
  settle-reset job run s =
      let judged = judged_job run job in
      after_next-keeps judged run (settled_next config now judged.status judged.trigger) ∙ rw s refl

  -- What `_run_job` makes of a job whose run has ended, at `now`. After a success the retries are reset;
  -- a one-shot job is completed, a cron job is active with a next instant after now, an interval job is
  -- active with its interval after now, and a manual or an event job is active without an instant. After
  -- any other end the retries are one more; if they are used up, the job has failed for good, and else it
  -- is retrying, due after the retry delay. An instant behind the year 9999 is an OverflowError: the job
  -- has failed with the failure that is made of it. The trigger has to be valid, and the day after now
  -- in the range of `datetime`.
  pub settle-Settled :
      (job : Job) (run : JobRun)
      → validate job.trigger ≡ true
      → now - now % day + day < end_of_datetime
      → Settled run.status job (settle config now token unexpected (job, run)).0
  settle-Settled job run valid room = by_status run.status refl
    where
      by_status :
          (status : JobRunStatus)
          → run.status ≡ status
          → Settled status job (settle config now token unexpected (job, run)).0
      by_status JobRunStatus.success e = (
        settle-reset job run e,
        Fired-type job.trigger.trigger_type job run refl e
            (compute_next-validate job.trigger now room valid),
      )
      by_status JobRunStatus.running e = settle-Retried job run (ap is_success e)
      by_status JobRunStatus.failed e = settle-Retried job run (ap is_success e)
      by_status JobRunStatus.timeout e = settle-Retried job run (ap is_success e)
      by_status JobRunStatus.cancelled e = settle-Retried job run (ap is_success e)
