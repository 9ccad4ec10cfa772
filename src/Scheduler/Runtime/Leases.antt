-- ===== src/Scheduler/Runtime/Leases.antt =====
-- The tasks that a tick starts hold the claims of their jobs.
use ai_lab_os.Prelude.{
  ◌+◌, ◌≡◌, refl, sym, ap, ◌∙◌, Bool, true, false, Bool-cases, inl, inr, List, [], ◌∷◌, ◌++◌,
  String, arith, Result, ok, err, All,
}
use ai_lab_os.Scheduler.Models.{Instant, Job}
use ai_lab_os.Scheduler.Faults.{SchedulerError}
use ai_lab_os.Scheduler.Trigger.{should_fire}
use ai_lab_os.Scheduler.Store.Claims.{release_expired_claims}
use ai_lab_os.Scheduler.Store.Steps.{release, apply, IsValid}
use ai_lab_os.Scheduler.Store.Invariant.{apply-IsValid}
use ai_lab_os.Scheduler.Runtime.{Config, Launch, Runtime, Fresh}
use ai_lab_os.Scheduler.Runtime.Tick.{
  dispatch_due_job, after_dispatch, dispatch_all, active_jobs, all_valid, dispatch_active, refresh,
  with_registry, tick,
}
use ai_lab_os.Scheduler.Runtime.Secured.{
  IsHeld, append_nil, Secured, idle-Secured, dispatch_due_job-Secured, after_dispatch-Secured,
}

module _ (config : Config) (tokens : String → Fresh) (now : Instant)
    (stored : config.persisted ≡ true) where
  dispatch_all-Secured :
      (accepting : Bool) (jobs : List Job) (runtime : Runtime)
      → IsValid runtime.database
      → Secured
          (now + config.claim_ttl)
          runtime
          (dispatch_all config accepting tokens now jobs runtime).1
  unfolding dispatch_all
  dispatch_all-Secured accepting [] runtime v =
      idle-Secured (now + config.claim_ttl) runtime runtime v (λ launch h. h) refl
  dispatch_all-Secured false (job ∷ jobs) runtime v =
      elim (Bool-cases (should_fire job.trigger now)) [
        | inr idle ↦ rw (idle, dispatch_all) (dispatch_all-Secured false jobs runtime v)
        | inl due ↦
            rw (due, dispatch_all)
              (idle-Secured (now + config.claim_ttl) runtime runtime v (λ launch h. h) refl)
      ]
  dispatch_all-Secured true (job ∷ jobs) runtime v =
      elim (Bool-cases (should_fire job.trigger now)) [
        | inr idle ↦ rw (idle, dispatch_all) (dispatch_all-Secured true jobs runtime v)
        | inl due ↦
            rw (due, dispatch_all)
              (after_dispatch-Secured (now + config.claim_ttl)
                (λ next. dispatch_all config true tokens now jobs next) runtime
                (dispatch_due_job config (tokens job.info.id) now job runtime)
                (dispatch_due_job-Secured (now + config.claim_ttl) config (tokens job.info.id) now
                  job runtime stored (omega arith) v)
                (λ next next_valid. dispatch_all-Secured true jobs next next_valid))
      ]

  dispatch_active-Secured :
      (accepting : Bool) (runtime : Runtime)
      → IsValid runtime.database
      → Secured
          (now + config.claim_ttl)
          runtime
          (dispatch_active config accepting tokens now runtime).1
  unfolding dispatch_active
  dispatch_active-Secured accepting runtime v =
      elim (Bool-cases (all_valid (active_jobs runtime.registry))) [
        | inl valid ↦
            rw valid (dispatch_all-Secured accepting (active_jobs runtime.registry) runtime v)
        | inr invalid ↦
            rw invalid
              (idle-Secured (now + config.claim_ttl) runtime runtime v (λ launch h. h) refl)
      ]

  -- What a tick leaves: a valid database, and new tasks that hold their claims.
  abbrev pub Started : Runtime → Runtime → Type 0
  Started before after =
      IsValid after.database
      × ((new : List Launch) × (after.background_tasks ≡ before.background_tasks ++ new)
          × All (IsHeld (now + config.claim_ttl) after.database) new)

  tick-Started :
      (rest : Runtime → Result SchedulerError Unit × Runtime) (before : Runtime)
      (outcome : Result SchedulerError Unit × Runtime)
      → IsValid outcome.1.database
      → outcome.1.background_tasks ≡ before.background_tasks
      → ((next : Runtime)
          → IsValid next.database
          → Secured (now + config.claim_ttl) next (rest next).1)
      → Started before (after_dispatch rest outcome).1
  unfolding after_dispatch
  tick-Started rest before (err e, next) v same later =
      (v, ([], same ∙ sym (append_nil before.background_tasks), tt))
  tick-Started rest before (ok done, next) v same later =
      let (v', keep, (new, more, held)) = later next v in
      (v', (new, more ∙ ap (λ t. t ++ new) same, held))

  -- A tick with persistence, of a valid database, leaves it valid; and each task that it starts holds
  -- the claim of its job until the end of the lease: the job is running under the task's token, and the
  -- task's run is stored.
  pub tick_leases :
      (accepting : Bool) (runtime : Runtime)
      → IsValid runtime.database
      → Started runtime (tick config accepting tokens now runtime).1
  unfolding tick refresh with_registry apply
  tick_leases accepting runtime v =
      let released-IsValid : IsValid
          (release_expired_claims now config.retry_delay runtime.database).1 =
        apply-IsValid (release now config.retry_delay) runtime.database tt v in
      tick-Started (λ next. dispatch_active config accepting tokens now next) runtime
        (refresh config now runtime) (rw stored released-IsValid) (rw stored refl)
        (λ next next_valid. dispatch_active-Secured accepting next next_valid)
