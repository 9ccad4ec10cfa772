-- ===== src/Scheduler/Runtime/Capacity.antt =====
-- The running jobs stay within max_concurrent_jobs.
use mathlib.Core.Path.{subst}
use ai_lab_os.Prelude.{
  ℕ, suc, ◌+◌, ◌≤◌, ◌≡◌, refl, ◌∙◌, Bool, true, false, Bool-cases, ◌⊎◌, inl, inr, Option, none,
  some, List, [], ◌∷◌, String, str_eq, eq_iff, at_least, pos, negsuc, ℤ, pos_part, arith, Result,
  ok, err,
}
use ai_lab_os.Sql.{update_where, find_key, IsKeyed}
use ai_lab_os.Sql.Put.{put, put_absent}
use ai_lab_os.Scheduler.Models.{Instant, Job}
use ai_lab_os.Scheduler.Faults.{SchedulerError}
use ai_lab_os.Scheduler.Trigger.{should_fire}
use ai_lab_os.Scheduler.Store.Database.{Database, PersistenceError}
use ai_lab_os.Scheduler.Store.Claims.{claim_job, release_expired_claims}
use ai_lab_os.Scheduler.Store.Loading.{load_jobs, load_jobs-IsKeyed}
use ai_lab_os.Scheduler.Store.Steps.{release, apply, IsValid}
use ai_lab_os.Scheduler.Store.Invariant.{apply-IsValid}
use ai_lab_os.Scheduler.Registry.{Registry, id_of, replace}
use ai_lab_os.Scheduler.Registry.Taken.{replace-put, replace-TakenIn}
use ai_lab_os.Scheduler.Registry.Mirror.{sync-IsKeyed}
use ai_lab_os.Scheduler.Runtime.{Config, Runtime, Fresh}
use ai_lab_os.Scheduler.Runtime.Tick.{
  count_running, launch_known, launch_claimed, marked, dispatch_due_job, after_dispatch,
  dispatch_all, active_jobs, all_valid, dispatch_active, refresh, with_registry, tick,
}

count_running-put :
    (job : Job) (jobs : Registry)
    → IsKeyed id_of jobs
    → count_running (put id_of job jobs) ≤ suc (count_running jobs)
unfolding count_running update_where
count_running-put job [] keyed = omega arith
count_running-put job (known ∷ jobs) keyed = elim (Bool-cases (str_eq known.info.id job.info.id)) [
  | inl hit ↦
      let same : find_key id_of job.info.id jobs ≡ none =
        ground (arith, eq_iff known.info.id job.info.id, keyed.0) in
      rw hit (rw (put_absent id_of job jobs same) (ground arith))
  | inr miss ↦ rw miss (ground (arith, count_running-put job jobs keyed.1))
]

module _ (config : Config) where
  -- What a step does to the registry and the tasks: nothing, or the running jobs that the registry
  -- knows are within the limit.
  abbrev pub Within : Runtime → Runtime → Type 0
  Within before after =
      IsKeyed id_of after.registry
      × (((after.registry ≡ before.registry) × (after.background_tasks ≡ before.background_tasks))
          ⊎ (count_running after.registry ≤ pos_part config.max_concurrent_jobs))

  Within-trans : (a b c : Runtime) → Within a b → Within b c → Within a c
  Within-trans a b c (keyed, first) (keyed', inr bounded) = (keyed', inr bounded)
  Within-trans a b c (keyed, inl (r, t)) (keyed', inl (r', t')) = (keyed', inl (r' ∙ r, t' ∙ t))
  Within-trans a b c (keyed, inr bounded) (keyed', inl (r', t')) = (keyed', inr (rw r' bounded))

  launch_known-Within :
      (fresh : Fresh) (now : Instant) (job : Job) (runtime : Runtime)
      (o : Result SchedulerError Registry)
      → IsKeyed id_of runtime.registry
      → suc (count_running runtime.registry) ≤ pos_part config.max_concurrent_jobs
      → replace job runtime.registry ≡ o
      → Within runtime (launch_known fresh now job o runtime).1
  unfolding launch_known
  launch_known-Within fresh now job runtime (err e) keyed room step = (keyed, inl (refl, refl))
  launch_known-Within fresh now job runtime (ok known) keyed room step =
      let grown : count_running known ≤ suc (count_running runtime.registry) =
        subst (λ t. count_running t ≤ suc (count_running runtime.registry))
          (replace-put job runtime.registry known step).1
          (count_running-put job runtime.registry keyed) in
      ((replace-TakenIn job runtime.registry known keyed step).0, inr (ground arith))

  launch_claimed-Within :
      (fresh : Fresh) (now : Instant) (answer : Result PersistenceError (Option Job) × Database)
      (runtime : Runtime)
      → IsKeyed id_of runtime.registry
      → suc (count_running runtime.registry) ≤ pos_part config.max_concurrent_jobs
      → Within runtime (launch_claimed fresh now answer runtime).1
  unfolding launch_claimed
  launch_claimed-Within fresh now (err e, db) runtime keyed room = (keyed, inl (refl, refl))
  launch_claimed-Within fresh now (ok none, db) runtime keyed room = (keyed, inl (refl, refl))
  launch_claimed-Within fresh now (ok (some job), db) runtime keyed room =
      launch_known-Within fresh now job (record runtime { database = db })
        (replace job runtime.registry) keyed room refl

  room_left : (n : ℕ) (z : ℤ) → at_least n z ≡ false → suc n ≤ pos_part z
  room_left n (pos m) e = ground arith
  room_left n (negsuc m) e = absurd (ground arith)

  dispatch_due_job-Within :
      (fresh : Fresh) (now : Instant) (job : Job) (runtime : Runtime)
      → IsKeyed id_of runtime.registry
      → Within runtime (dispatch_due_job config fresh now job runtime).1
  unfolding dispatch_due_job
  dispatch_due_job-Within fresh now job runtime keyed =
      elim (Bool-cases (at_least (count_running runtime.registry) config.max_concurrent_jobs)) [
        | inl full ↦ rw full (keyed, inl (refl, refl))
        | inr free ↦
            let room = room_left (count_running runtime.registry) config.max_concurrent_jobs free in
            elim (Bool-cases config.persisted) [
              | inl stored ↦
                  rw (free, stored)
                    (launch_claimed-Within fresh now
                      (claim_job job.info.id now fresh.claim_token (now + config.claim_ttl)
                        fresh.run_id runtime.database)
                      runtime keyed room)
              | inr memory ↦
                  rw (free, memory)
                    (launch_known-Within fresh now (marked config fresh now job) runtime
                      (replace (marked config fresh now job) runtime.registry) keyed room refl)
            ]
      ]

  after_dispatch-Within :
      (rest : Runtime → Result SchedulerError Unit × Runtime) (before : Runtime)
      (outcome : Result SchedulerError Unit × Runtime)
      → Within before outcome.1
      → ((next : Runtime) → IsKeyed id_of next.registry → Within next (rest next).1)
      → Within before (after_dispatch rest outcome).1
  unfolding after_dispatch
  after_dispatch-Within rest before (err e, next) step later = step
  after_dispatch-Within rest before (ok done, next) step later =
      Within-trans before next (rest next).1 step (later next step.0)

  dispatch_all-Within :
      (accepting : Bool) (tokens : String → Fresh) (now : Instant) (jobs : List Job)
      (runtime : Runtime)
      → IsKeyed id_of runtime.registry
      → Within runtime (dispatch_all config accepting tokens now jobs runtime).1
  unfolding dispatch_all
  dispatch_all-Within accepting tokens now [] runtime keyed = (keyed, inl (refl, refl))
  dispatch_all-Within false tokens now (job ∷ jobs) runtime keyed =
      elim (Bool-cases (should_fire job.trigger now)) [
        | inr idle ↦
            rw (idle, dispatch_all) (dispatch_all-Within false tokens now jobs runtime keyed)
        | inl due ↦ rw (due, dispatch_all) (keyed, inl (refl, refl))
      ]
  dispatch_all-Within true tokens now (job ∷ jobs) runtime keyed =
      elim (Bool-cases (should_fire job.trigger now)) [
        | inr idle ↦
            rw (idle, dispatch_all) (dispatch_all-Within true tokens now jobs runtime keyed)
        | inl due ↦
            rw (due, dispatch_all)
              (after_dispatch-Within (λ next. dispatch_all config true tokens now jobs next) runtime
                (dispatch_due_job config (tokens job.info.id) now job runtime)
                (dispatch_due_job-Within (tokens job.info.id) now job runtime keyed)
                (λ next next_keyed. dispatch_all-Within true tokens now jobs next next_keyed))
      ]

  dispatch_active-Within :
      (accepting : Bool) (tokens : String → Fresh) (now : Instant) (runtime : Runtime)
      → IsKeyed id_of runtime.registry
      → Within runtime (dispatch_active config accepting tokens now runtime).1
  unfolding dispatch_active
  dispatch_active-Within accepting tokens now runtime keyed =
      elim (Bool-cases (all_valid (active_jobs runtime.registry))) [
        | inl valid ↦
            rw valid (
              dispatch_all-Within accepting tokens now (active_jobs runtime.registry) runtime keyed)
        | inr invalid ↦ rw invalid (keyed, inl (refl, refl))
      ]

  -- A refresh starts no task, and keeps the ids apart where it succeeds.
  abbrev Refreshed : Runtime → Result SchedulerError Unit × Runtime → Type 0
  Refreshed runtime outcome =
      (outcome.1.background_tasks ≡ runtime.background_tasks)
      × (outcome.0 ≡ ok tt → IsKeyed id_of outcome.1.registry)

  refresh-Refreshed :
      (now : Instant) (runtime : Runtime)
      → IsValid runtime.database
      → IsKeyed id_of runtime.registry
      → Refreshed runtime (refresh config now runtime)
  unfolding refresh with_registry apply
  refresh-Refreshed now runtime v keyed = elim (Bool-cases config.persisted) [
    | inr memory ↦ rw memory (refl, λ e. keyed)
    | inl stored ↦
        let released = (release_expired_claims now config.retry_delay runtime.database).1 in
        let released-IsValid : IsValid released =
          apply-IsValid (release now config.retry_delay) runtime.database tt v in
        rw stored (
          refl,
          λ e.
              sync-IsKeyed (load_jobs released) runtime.registry
                (load_jobs-IsKeyed released released-IsValid) keyed e,
        )
  ]

  tick_end :
      (rest : Runtime → Result SchedulerError Unit × Runtime) (runtime : Runtime)
      (outcome : Result SchedulerError Unit × Runtime)
      → Refreshed runtime outcome
      → ((next : Runtime) → IsKeyed id_of next.registry → Within next (rest next).1)
      → ((after_dispatch rest outcome).1.background_tasks ≡ runtime.background_tasks)
        ⊎ (count_running (after_dispatch rest outcome).1.registry
            ≤ pos_part config.max_concurrent_jobs)
  unfolding after_dispatch
  tick_end rest runtime (err e, next) fresh later = inl fresh.0
  tick_end rest runtime (ok done, next) fresh later = elim (later next (fresh.1 refl)).1 [
    | inl (r, t) ↦ inl (t ∙ fresh.0)
    | inr bounded ↦ inr bounded
  ]

  -- A tick that starts a task leaves at most `max_concurrent_jobs` running jobs in the registry, those
  -- of other processes included. The database has to be valid and the registry to have distinct ids.
  pub tick_capacity :
      (accepting : Bool) (tokens : String → Fresh) (now : Instant) (runtime : Runtime)
      → IsValid runtime.database
      → IsKeyed id_of runtime.registry
      → ((tick config accepting tokens now runtime).1.background_tasks ≡ runtime.background_tasks)
        ⊎ (count_running (tick config accepting tokens now runtime).1.registry
            ≤ pos_part config.max_concurrent_jobs)
  unfolding tick
  tick_capacity accepting tokens now runtime v keyed =
      tick_end (λ next. dispatch_active config accepting tokens now next) runtime
        (refresh config now runtime) (refresh-Refreshed now runtime v keyed)
        (λ next next_keyed. dispatch_active-Within accepting tokens now next next_keyed)
