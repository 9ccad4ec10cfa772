-- ===== src/Scheduler/Runtime/Methods/Atomic.antt =====
-- A schedule that raises changes nothing, and one that returns is in the store and in the registry.

use ai_lab_os.Prelude.{
  ◌≡◌, refl, ap, ◌∙◌, false, Bool-cases, Option-cases, inl, inr, ◌⊎◌, none, some, [], ◌∷◌, ◌++◌,
  String, str_eq, str_eq_refl, arith, Result, ok, err, sym, Result-cases,
}
use ai_lab_os.Sql.{find_key, delete_where}
use ai_lab_os.Sql.Laws.{find_key-insert}
use ai_lab_os.Scheduler.Models.{Instant, Trigger, Job, ScheduleRequest}
use ai_lab_os.Scheduler.Faults.{SchedulerError}
use ai_lab_os.Scheduler.Trigger.{validate}
use ai_lab_os.Scheduler.Rows.{job_values}
use ai_lab_os.Scheduler.Store.Database.{row_of, job_key}
use ai_lab_os.Scheduler.Store.Jobs.{save_job}
use ai_lab_os.Scheduler.Registry.{Registry, id_of, get_by_name, register, unregister}
use ai_lab_os.Scheduler.Runtime.{Config, Runtime}
use ai_lab_os.Scheduler.Runtime.Methods.{
  job_of, job_with, first_trigger, new_job, register_new, after_register, schedule,
}

-- Removing what has just been appended.
delete_where-append :
    (job : Job) (jobs : Registry)
    → find_key id_of job.info.id jobs ≡ none
    → delete_where (λ known. str_eq known.info.id job.info.id) (jobs ++ job ∷ []) ≡ jobs
unfolding find_key delete_where
delete_where-append job [] free = rw (str_eq_refl job.info.id)
delete_where-append job (known ∷ jobs) free = ground (arith, delete_where-append job jobs)

module _ (config : Config) (job_id : String) (now : Instant) (request : ScheduleRequest)
    (runtime : Runtime) where
  -- An exception with nothing changed, or the new job in the registry, and in the store with persistence.
  abbrev pub Atomic : Result SchedulerError Job × Runtime → Type 0
  Atomic (err e, after) = after ≡ runtime
  Atomic (ok job, after) =
      (new_job config job_id now request ≡ ok job)
      × (find_key id_of job_id after.registry ≡ some job)
      × ((config.persisted ≡ false) ⊎ (row_of after.database job_id ≡ some (job_values job)))

  job_with_id :
      (trigger : Result SchedulerError Trigger) (job : Job)
      → job_with config job_id now request trigger ≡ ok job
      → (job.info.id ≡ job_id) × (job.info.name ≡ request.job_name)
  unfolding job_with job_of
  job_with_id (err e) job made = cc
  job_with_id (ok trigger) job made = (cc, cc)

  new_job_id :
      (job : Job)
      → new_job config job_id now request ≡ ok job
      → (job.info.id ≡ job_id) × (job.info.name ≡ request.job_name)
  unfolding new_job
  new_job_id job made = job_with_id (first_trigger now request.trigger) job made

  after_register-Atomic :
      (job : Job)
      → new_job config job_id now request ≡ ok job
      → find_key id_of job_id runtime.registry ≡ none
      → Atomic (after_register config job (ok (runtime.registry ++ job ∷ [])) runtime)
  unfolding after_register save_job job_values unregister new_job
  after_register-Atomic job made free =
      let same : job.info.id ≡ job_id = (new_job_id job made).0 in
      let free_id : find_key id_of job.info.id runtime.registry ≡ none =
        ap (λ k. find_key id_of k runtime.registry) same ∙ free in
      let registered : find_key id_of job_id (runtime.registry ++ job ∷ []) ≡ some job =
        find_key-insert id_of job_id runtime.registry job free_id
        ∙ rw (same, str_eq_refl job_id) refl in
      elim (Bool-cases config.persisted) [
        | inr memory ↦ rw memory (made, registered, inl refl)
        | inl stored ↦ elim (Option-cases (row_of runtime.database job.info.id)) [
          | inr (row, taken) ↦
              rw (stored, taken)
                (ap (λ r. record runtime { registry = r })
                  (delete_where-append job runtime.registry free_id))
          | inl unused ↦
              rw (stored, unused)
                (
                  made,
                  registered,
                  inr (
                      find_key-insert job_key job_id runtime.database.jobs (job_values job) unused
                      ∙ rw (same, str_eq_refl job_id) refl),
                )
        ]
      ]

  -- `schedule` either raises an exception with the registry, the store and the tasks as they were, also
  -- when the job could not be saved; or it returns the job of the request, which the registry then has
  -- under the new id, and with persistence the store as well.
  pub schedule-Atomic : Atomic (schedule config job_id now request runtime)
  unfolding schedule register_new register
  schedule-Atomic = elim (Option-cases (get_by_name request.job_name runtime.registry)) [
    | inr (known, named) ↦ rw named refl
    | inl unnamed ↦ elim (Bool-cases (validate request.trigger)) [
      | inr invalid ↦ rw (unnamed, invalid) refl
      | inl valid ↦ elim (Result-cases (new_job config job_id now request)) [
        | inr (e, raised) ↦ rw (unnamed, valid, raised) refl
        | inl (job, made) ↦
            let (same, named) = new_job_id job made in
            let unnamed_job : get_by_name job.info.name runtime.registry ≡ none =
              ap (λ name. get_by_name name runtime.registry) named ∙ unnamed in
            elim (Option-cases (find_key id_of job.info.id runtime.registry)) [
              | inr (known, used) ↦ rw (unnamed, valid, made, used) refl
              | inl free ↦
                  rw (unnamed, valid, made, free, unnamed_job)
                    (after_register-Atomic job made
                      (ap (λ k. find_key id_of k runtime.registry) (sym same) ∙ free))
            ]
      ]
    ]
  ]
