-- ===== src/Scheduler/Registry/Sync.antt =====
-- `_sync_registry_from_persistence` and `_recover_jobs` of core/scheduler/runtime.py: the registry
-- follows the database. An exception comes with the registry as it is then.
use mathlib.Core.List.{map}
use ai_lab_os.Prelude.{
  Bool, false, List, [], ◌∷◌, String, str_eq, ◌||◌, if◌then◌else◌, Result, ok, err,
}
use ai_lab_os.Scheduler.Models.{Job}
use ai_lab_os.Scheduler.Faults.{SchedulerError}
use ai_lab_os.Scheduler.Registry.{Registry, id_of, exists, register, unregister, replace, list_ids}

abbrev pub contains : String → List String → Bool
contains x [] = false
contains x (y ∷ ys) = str_eq y x || contains x ys

unfoldable pub take_in : Job → Registry → Result SchedulerError Registry
unfolding register replace
take_in job registry =
    if exists job.info.id registry then replace job registry else register job registry

unfoldable pub take_in_all : List Job → Registry → Result SchedulerError Unit × Registry
unfolding take_in
take_in_all [] registry = (ok tt, registry)
take_in_all (job ∷ jobs) registry = elim (take_in job registry) [
  | err e ↦ (err e, registry)
  | ok next ↦ take_in_all jobs next
]

unfoldable pub drop_missing : List String → List String → Registry → Registry
unfolding unregister
drop_missing persisted [] registry = registry
drop_missing persisted (job_id ∷ ids) registry =
    drop_missing persisted ids
      (if contains job_id persisted then registry else (unregister job_id registry).1)

-- for job_id in tuple(self._registry.list_ids()), unless an exception came before
unfoldable pub drop_stale :
    List Job → Result SchedulerError Unit × Registry → Result SchedulerError Unit × Registry
unfolding drop_missing list_ids
drop_stale jobs (err e, taken) = (err e, taken)
drop_stale jobs (ok done, taken) = (ok done, drop_missing (map id_of jobs) (list_ids taken) taken)

-- The jobs as `load_jobs` returns them.
unfoldable pub sync : List Job → Registry → Result SchedulerError Unit × Registry
unfolding take_in_all drop_stale
sync jobs registry = drop_stale jobs (take_in_all jobs registry)

-- JobAlreadyExistsError is passed over.
unfoldable pub recover : List Job → Registry → Registry
unfolding register
recover [] registry = registry
recover (job ∷ jobs) registry = elim (register job registry) [
  | err e ↦ recover jobs registry
  | ok next ↦ recover jobs next
]
