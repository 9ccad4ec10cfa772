-- ===== src/Scheduler/Registry.antt =====
-- `SchedulerRegistry` of core/scheduler/registry.py: a dict from ids to jobs, as the list of the jobs
-- in the order of insertion. The key of a job in the dict is its own id.
pub mod Sync
pub mod Taken
pub mod Mirror
use mathlib.Core.Option
use mathlib.Core.List.{map}
use ai_lab_os.Prelude.{
  Bool, Option, none, some, List, [], ◌∷◌, ◌++◌, String, str_eq, is_some, if◌then◌else◌, Result, ok,
  err,
}
use ai_lab_os.Sql.{find_key, update_where, delete_where}
use ai_lab_os.Scheduler.Models.{Job}
use ai_lab_os.Scheduler.Faults.{SchedulerError, job_not_found, job_already_exists}

abbrev pub Registry : Type 0
Registry = List Job

abbrev pub id_of : Job → String
id_of job = job.info.id

abbrev pub name_of : Job → String
name_of job = job.info.name

abbrev pub exists : String → Registry → Bool
exists job_id registry = is_some (find_key id_of job_id registry)

-- The first job with the name.
abbrev pub get_by_name : String → Registry → Option Job
get_by_name name registry = find_key name_of name registry

unfoldable pub register : Job → Registry → Result SchedulerError Registry
register job registry =
    if exists job.info.id registry
    then err job_already_exists
    else if is_some (get_by_name job.info.name registry)
    then err job_already_exists
    else ok (registry ++ job ∷ [])

unfoldable pub unregister : String → Registry → Bool × Registry
unregister job_id registry =
    (exists job_id registry, delete_where (λ job. str_eq job.info.id job_id) registry)

-- self._jobs[job.info.id] = job, where the key is there
unfoldable pub replace : Job → Registry → Result SchedulerError Registry
replace job registry =
    if exists job.info.id registry
    then ok (update_where (λ known. str_eq known.info.id job.info.id) (λ known. job) registry)
    else err job_not_found

unfoldable pub get : String → Registry → Result SchedulerError Job
get job_id registry = elim (find_key id_of job_id registry) [
  | none ↦ err job_not_found
  | some job ↦ ok job
]

unfoldable pub list_ids : Registry → List String
list_ids registry = map id_of registry
