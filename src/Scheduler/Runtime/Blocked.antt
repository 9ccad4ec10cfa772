-- ===== src/Scheduler/Runtime/Blocked.antt =====
-- A job of another process with a name that the registry has.
use ai_lab_os.Prelude.{◌≡◌, ap, ◌∙◌, Bool, true, false, List, ◌∷◌, String, is_some, err}
use ai_lab_os.Scheduler.Models.{Instant, Job}
use ai_lab_os.Scheduler.Faults.{job_already_exists}
use ai_lab_os.Scheduler.Store.Claims.{release_expired_claims}
use ai_lab_os.Scheduler.Store.Loading.{load_jobs}
use ai_lab_os.Scheduler.Registry.{Registry, exists, get_by_name, register}
use ai_lab_os.Scheduler.Registry.Sync.{take_in, take_in_all, drop_stale, sync}
use ai_lab_os.Scheduler.Registry.Taken.{after_one}
use ai_lab_os.Scheduler.Runtime.{Config, Runtime, Fresh}
use ai_lab_os.Scheduler.Runtime.Tick.{after_dispatch, dispatch_active, with_registry, refresh, tick}

sync_blocked :
    (job : Job) (rest : List Job) (registry : Registry)
    → exists job.info.id registry ≡ false
    → is_some (get_by_name job.info.name registry) ≡ true
    → sync (job ∷ rest) registry ≡ (err job_already_exists, registry)
unfolding sync take_in_all take_in register drop_stale
sync_blocked job rest registry new clash =
    let refused : take_in job registry ≡ err job_already_exists = rw (new, clash) in
    ap (λ outcome. drop_stale (job ∷ rest) outcome) (ap (after_one job rest registry) refused)

-- If the first job of the database is new to the registry, and the registry has a job with its name, even
-- one that the database has no longer, then a tick raises JobAlreadyExistsError, starts nothing, and leaves
-- the registry as it is, so that the next tick meets the same clash.
pub tick_blocked :
    (config : Config) (accepting : Bool) (tokens : String → Fresh) (now : Instant)
    (runtime : Runtime) (job : Job) (rest : List Job)
    → config.persisted ≡ true
    → load_jobs (release_expired_claims now config.retry_delay runtime.database).1 ≡ job ∷ rest
    → exists job.info.id runtime.registry ≡ false
    → is_some (get_by_name job.info.name runtime.registry) ≡ true
    → tick config accepting tokens now runtime ≡ (
      err job_already_exists,
      record runtime {
        database = (release_expired_claims now config.retry_delay runtime.database).1;
      },
    )
unfolding tick refresh with_registry after_dispatch
tick_blocked config accepting tokens now runtime job rest stored loaded new clash =
    let released = (release_expired_claims now config.retry_delay runtime.database).1 in
    let synced : sync (load_jobs released) runtime.registry
        ≡ (err job_already_exists, runtime.registry) =
      ap (λ jobs. sync jobs runtime.registry) loaded
      ∙ sync_blocked job rest runtime.registry new clash in
    let refreshed : refresh config now runtime
        ≡ with_registry (record runtime { database = released })
            (sync (load_jobs released) runtime.registry) =
      rw stored in
    ap (after_dispatch (λ next. dispatch_active config accepting tokens now next))
      (refreshed ∙ ap (with_registry (record runtime { database = released })) synced)
