-- ===== src/Scheduler/Runtime/Delivery.antt =====
-- From a tick to the reports of the tasks that it starts.
use ai_lab_os.Prelude.{◌+◌, ◌≡◌, Bool, true, some, List, ◌++◌, String, All, All-map}
use ai_lab_os.Errors.{FailureInfo}
use ai_lab_os.Sql.{find_key}
use ai_lab_os.Scheduler.Models.{Instant, Job}
use ai_lab_os.Scheduler.Store.Database.{Database}
use ai_lab_os.Scheduler.Store.Steps.{Operation, apply_all, IsProper, IsValid}
use ai_lab_os.Scheduler.Store.Ownership.{Spares}
use ai_lab_os.Scheduler.Store.Completion.{apply_all-Kept}
use ai_lab_os.Scheduler.Registry.{Registry, id_of}
use ai_lab_os.Scheduler.Runtime.{Config, Launch, Runtime, Fresh}
use ai_lab_os.Scheduler.Runtime.Tick.{tick}
use ai_lab_os.Scheduler.Runtime.Secured.{IsHeld}
use ai_lab_os.Scheduler.Runtime.Leases.{tick_leases}
use ai_lab_os.Scheduler.Runtime.Run.{Awaited, run_job}
use ai_lab_os.Scheduler.Runtime.Run.Reported.{Ended, run_job_reports}

module _ (config : Config) (tokens : String → Fresh) (now : Instant)
    (stored : config.persisted ≡ true) where
  -- Whatever others do with the store, as long as they spare the claim up to the end of the lease, the
  -- task is reported, or ends cancelled with its claim left, if the registry knows its job.
  abbrev pub IsDelivered : Database → Launch → Type 0
  IsDelivered db launch =
      (ops : List Operation) (awaited : Awaited) (unexpected : FailureInfo)
      (finished later : Instant) (registry : Registry) (tasks : List Launch) (known : Job)
      → All IsProper ops
      → All (Spares launch.claim_token (now + config.claim_ttl)) ops
      → find_key id_of launch.job.info.id registry ≡ some known
      → let before : Runtime = record {
        database = apply_all ops db;
        registry = registry;
        background_tasks = tasks;
      } in
        Ended config launch unexpected finished later (now + config.claim_ttl) awaited before
          (run_job config launch awaited unexpected finished later before)

  held-IsDelivered :
      (db : Database) (launch : Launch)
      → IsHeld (now + config.claim_ttl) db launch
      → IsDelivered db launch
  held-IsDelivered db launch held ops awaited unexpected finished later registry tasks known proper
        spare registered =
      run_job_reports config launch unexpected finished later awaited (now + config.claim_ttl)
        (record { database = apply_all ops db; registry = registry; background_tasks = tasks })
        known stored
        (apply_all-Kept launch.run.id launch.claim_token launch.job.info.id (now + config.claim_ttl)
          ops db proper spare held)
        registered

  -- Each task that a tick starts, on a valid database, comes to its end, whatever other processes do to the
  -- store meanwhile. If its handler returns, times out or raises an Exception, `_run_job` ends without an
  -- exception, gives the stored job the status that the run leads to, and clears its claim. If the await
  -- is cancelled, `_run_job` ends with the CancelledError, and leaves the store and the registry as they
  -- are, with the claim.
  -- The others have to spare the claim up to the end of the lease, and the registry has to know the job.
  pub tick_delivers :
      (accepting : Bool) (runtime : Runtime)
      → IsValid runtime.database
      → let end = (tick config accepting tokens now runtime).1 in
        (new : List Launch) × (end.background_tasks ≡ runtime.background_tasks ++ new)
        × All (IsDelivered end.database) new
  tick_delivers accepting runtime v =
      let end = (tick config accepting tokens now runtime).1 in
      let (valid, (new, more, held)) = tick_leases config tokens now stored accepting runtime v in
      (
        new,
        more,
        All-map (IsHeld (now + config.claim_ttl) end.database) (IsDelivered end.database) new
            (held-IsDelivered end.database) held,
      )
