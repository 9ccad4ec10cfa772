-- ===== src/Scheduler/Registry/Taken.antt =====
-- What the registry holds once the jobs of the database have been taken in.
use mathlib.Core.Path.{subst}
use ai_lab_os.Prelude.{
  Bool-cases, Option-cases, inl, inr, Option, none, some, List, [], ◌∷◌, ◌++◌, ◌≡◌, refl, sym, ap,
  ◌∙◌, String, str_eq, eq_iff, arith, if◌then◌else◌, Result, ok, err,
}
use ai_lab_os.Sql.{find_key, IsKeyed}
use ai_lab_os.Sql.Put.{put, find_key-put, IsKeyed-put}
use ai_lab_os.Sql.Laws.{IsKeyed-append, find_key-insert}
use ai_lab_os.Scheduler.Models.{Job}
use ai_lab_os.Scheduler.Faults.{SchedulerError}
use ai_lab_os.Scheduler.Registry.{Registry, id_of, get_by_name, exists, register, replace}
use ai_lab_os.Scheduler.Registry.Sync.{take_in, take_in_all}

-- What a job is looked up as after it has been put into the registry.
abbrev pub with_job : Job → String → Option Job → Option Job
with_job job k known = if str_eq job.info.id k then some job else known

abbrev pub TakenIn : Job → Registry → Registry → Type 0
TakenIn job registry next =
    IsKeyed id_of next
    × ((k : String) → find_key id_of k next ≡ with_job job k (find_key id_of k registry))

-- A replacement that does not raise.
pub replace-put :
    (job : Job) (registry next : Registry)
    → replace job registry ≡ ok next
    → ((known : Job) × (find_key id_of job.info.id registry ≡ some known))
      × (put id_of job registry ≡ next)
unfolding replace
replace-put job registry next e = elim (Option-cases (find_key id_of job.info.id registry)) [
  | inl absent ↦ absurd (ground arith)
  | inr found ↦ (found, ground (arith, found.1))
]

pub replace-TakenIn :
    (job : Job) (registry next : Registry)
    → IsKeyed id_of registry
    → replace job registry ≡ ok next
    → TakenIn job registry next
replace-TakenIn job registry next keyed e =
    let ((known, there), same) = replace-put job registry next e in
    subst (TakenIn job registry) same
      (IsKeyed-put id_of job registry keyed, λ k. find_key-put id_of job k registry known there)

register-TakenIn :
    (job : Job) (registry next : Registry)
    → IsKeyed id_of registry
    → register job registry ≡ ok next
    → TakenIn job registry next
unfolding register
register-TakenIn job registry next keyed e =
    elim (Option-cases (find_key id_of job.info.id registry)) [
      | inr (known, there) ↦ absurd (ground arith)
      | inl free ↦ elim (Option-cases (get_by_name job.info.name registry)) [
        | inr (known, there) ↦ absurd (ground arith)
        | inl unnamed ↦
            let same : registry ++ job ∷ [] ≡ next = ground arith in
            subst (TakenIn job registry) same (
              IsKeyed-append id_of registry job free keyed,
              λ k. find_key-insert id_of k registry job free,
            )
      ]
    ]

pub take_in-TakenIn :
    (job : Job) (registry next : Registry)
    → IsKeyed id_of registry
    → take_in job registry ≡ ok next
    → TakenIn job registry next
unfolding take_in
take_in-TakenIn job registry next keyed e = elim (Bool-cases (exists job.info.id registry)) [
  | inl known ↦
      let step : take_in job registry ≡ replace job registry = rw known refl in
      replace-TakenIn job registry next keyed (sym step ∙ e)
  | inr unknown ↦
      let step : take_in job registry ≡ register job registry = rw unknown refl in
      register-TakenIn job registry next keyed (sym step ∙ e)
]

-- The lookup after all the jobs have been taken in.
abbrev pub or_known : Option Job → Option Job → Option Job
or_known none known = known
or_known (some job) known = some job

-- Everything that the database has is in the registry, and the rest is as it was.
abbrev pub AllTakenIn : List Job → Registry → Result SchedulerError Unit × Registry → Type 0
AllTakenIn jobs registry outcome =
    outcome.0 ≡ ok tt
    → IsKeyed id_of outcome.1
      × ((k : String)
          → find_key id_of k outcome.1
            ≡ or_known (find_key id_of k jobs) (find_key id_of k registry))

abbrev pub after_one :
    Job
    → List Job
    → Registry
    → Result SchedulerError Registry
    → Result SchedulerError Unit × Registry
after_one job jobs registry (err e) = (err e, registry)
after_one job jobs registry (ok next) = take_in_all jobs next

take_in_all_step :
    (job : Job) (jobs : List Job) (registry : Registry) (o : Result SchedulerError Registry)
    → IsKeyed id_of (job ∷ jobs)
    → IsKeyed id_of registry
    → ((next : Registry) → IsKeyed id_of next → AllTakenIn jobs next (take_in_all jobs next))
    → take_in job registry ≡ o
    → AllTakenIn (job ∷ jobs) registry (take_in_all (job ∷ jobs) registry)
unfolding take_in_all find_key
take_in_all_step job jobs registry (err x) apart keyed later step =
    let stepped : take_in_all (job ∷ jobs) registry ≡ (err x, registry) =
      ap (after_one job jobs registry) step in
    subst (AllTakenIn (job ∷ jobs) registry) (sym stepped) (λ e. absurd (ground arith))
take_in_all_step job jobs registry (ok next) apart keyed later step =
    let (next_keyed, found) = take_in-TakenIn job registry next keyed step in
    let stepped : take_in_all (job ∷ jobs) registry ≡ take_in_all jobs next =
      ap (after_one job jobs registry) step in
    subst (AllTakenIn (job ∷ jobs) registry) (sym stepped) (λ e.
      let (end_keyed, rest) = later next next_keyed e in
      (end_keyed, λ k. rest k ∙ rw (found k) (taken k)))
  where
    taken :
        (k : String)
        → or_known (find_key id_of k jobs) (with_job job k (find_key id_of k registry))
          ≡ or_known (find_key id_of k (job ∷ jobs)) (find_key id_of k registry)
    taken k = ground (arith, eq_iff job.info.id k, apart.0)

pub take_in_all-AllTakenIn :
    (jobs : List Job) (registry : Registry)
    → IsKeyed id_of jobs
    → IsKeyed id_of registry
    → AllTakenIn jobs registry (take_in_all jobs registry)
unfolding take_in_all find_key
take_in_all-AllTakenIn [] registry apart keyed = λ e. (keyed, λ k. refl)
take_in_all-AllTakenIn (job ∷ jobs) registry apart keyed =
    take_in_all_step job jobs registry (take_in job registry) apart keyed
      (λ next next_keyed. take_in_all-AllTakenIn jobs next apart.1 next_keyed) refl
