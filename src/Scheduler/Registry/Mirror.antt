-- ===== src/Scheduler/Registry/Mirror.antt =====
-- After a synchronization the registry holds the jobs of the database.

use mathlib.Core.List.{map}
use ai_lab_os.Prelude.{
  false, Bool-cases, inl, inr, Option, none, some, List, [], ◌∷◌, ◌≡◌, ◌&&◌, not, refl, ap, ◌∙◌,
  String, str_eq, eq_iff, is_some, arith, if◌then◌else◌, Result, ok, err,
}
use ai_lab_os.Sql.{find_key, delete_where, IsKeyed}
use ai_lab_os.Sql.Laws.{IsKeyed-delete_where, find_key-delete_where, remaining, key-find_key}
use ai_lab_os.Scheduler.Models.{Job}
use ai_lab_os.Scheduler.Faults.{SchedulerError}
use ai_lab_os.Scheduler.Registry.{Registry, id_of, unregister, list_ids}
use ai_lab_os.Scheduler.Registry.Sync.{contains, take_in_all, drop_missing, drop_stale, sync}
use ai_lab_os.Scheduler.Registry.Taken.{or_known, AllTakenIn, take_in_all-AllTakenIn}

-- What a job is looked up as after the ids that are not persisted have been unregistered.
abbrev kept : List String → List String → String → Option Job → Option Job
kept persisted ids k known = if contains k ids && not (contains k persisted) then none else known

find_key-drop_missing :
    (persisted ids : List String) (registry : Registry) (k : String)
    → IsKeyed id_of registry
    → find_key id_of k (drop_missing persisted ids registry)
      ≡ kept persisted ids k (find_key id_of k registry)
unfolding drop_missing unregister
find_key-drop_missing persisted [] registry k keyed = refl
find_key-drop_missing persisted (job_id ∷ ids) registry k keyed =
    elim (Bool-cases (contains job_id persisted)) [
      | inl held ↦
          rw held
            (find_key-drop_missing persisted ids registry k keyed ∙ ground (arith, eq_iff job_id k))
      | inr gone ↦ rw gone (
          find_key-drop_missing persisted ids
            (delete_where (λ job. str_eq job.info.id job_id) registry) k
            (IsKeyed-delete_where id_of (λ job. str_eq job.info.id job_id) registry keyed)
          ∙ ap (kept persisted ids k)
              (find_key-delete_where id_of (λ job. str_eq job.info.id job_id) k registry keyed)
          ∙ dropped (find_key id_of k registry) gone refl)
    ]
  where
    dropped :
        (known : Option Job)
        → contains job_id persisted ≡ false
        → find_key id_of k registry ≡ known
        → kept persisted ids k (remaining id_of (λ job. str_eq job.info.id job_id) known)
          ≡ kept persisted (job_id ∷ ids) k known
    dropped none gone there = ground arith
    dropped (some job) gone there =
        ground (
          arith,
          eq_iff job_id k,
          eq_iff job.info.id job_id,
          key-find_key id_of k registry job there,
        )

contains-map :
    (k : String) (jobs : List Job) → contains k (map id_of jobs) ≡ is_some (find_key id_of k jobs)
unfolding find_key
contains-map k [] = refl
contains-map k (job ∷ jobs) = ground (arith, contains-map k jobs)

drop_stale_mirrors :
    (jobs : List Job) (registry : Registry) (k : String)
    (outcome : Result SchedulerError Unit × Registry)
    → AllTakenIn jobs registry outcome
    → (drop_stale jobs outcome).0 ≡ ok tt
    → find_key id_of k (drop_stale jobs outcome).1 ≡ find_key id_of k jobs
unfolding drop_stale list_ids
drop_stale_mirrors jobs registry k (err x, taken) all_in e = absurd (ground arith)
drop_stale_mirrors jobs registry k (ok done, taken) all_in e =
    let (keyed, found) = all_in e in
    find_key-drop_missing (map id_of jobs) (map id_of taken) taken k keyed
    ∙ mirrored (find_key id_of k taken) (found k) refl
  where
    mirrored :
        (known : Option Job)
        → find_key id_of k taken ≡ or_known (find_key id_of k jobs) (find_key id_of k registry)
        → find_key id_of k taken ≡ known
        → kept (map id_of jobs) (map id_of taken) k known ≡ find_key id_of k jobs
    mirrored known found there = rw (contains-map k jobs, contains-map k taken) (ground arith)

-- A synchronization that does not raise leaves in the registry, under each id, exactly what the
-- database has there.
pub sync_mirrors :
    (jobs : List Job) (registry : Registry) (k : String)
    → IsKeyed id_of jobs
    → IsKeyed id_of registry
    → (sync jobs registry).0 ≡ ok tt
    → find_key id_of k (sync jobs registry).1 ≡ find_key id_of k jobs
unfolding sync
sync_mirrors jobs registry k apart keyed e =
    drop_stale_mirrors jobs registry k (take_in_all jobs registry)
      (take_in_all-AllTakenIn jobs registry apart keyed) e

drop_missing-IsKeyed :
    (persisted ids : List String) (registry : Registry)
    → IsKeyed id_of registry
    → IsKeyed id_of (drop_missing persisted ids registry)
unfolding drop_missing unregister
drop_missing-IsKeyed persisted [] registry keyed = keyed
drop_missing-IsKeyed persisted (job_id ∷ ids) registry keyed =
    elim (Bool-cases (contains job_id persisted)) [
      | inl held ↦ rw held (drop_missing-IsKeyed persisted ids registry keyed)
      | inr gone ↦ rw gone (
          drop_missing-IsKeyed persisted ids
            (delete_where (λ job. str_eq job.info.id job_id) registry)
            (IsKeyed-delete_where id_of (λ job. str_eq job.info.id job_id) registry keyed))
    ]

drop_stale-IsKeyed :
    (jobs : List Job) (registry : Registry) (outcome : Result SchedulerError Unit × Registry)
    → AllTakenIn jobs registry outcome
    → (drop_stale jobs outcome).0 ≡ ok tt
    → IsKeyed id_of (drop_stale jobs outcome).1
unfolding drop_stale
drop_stale-IsKeyed jobs registry (err x, taken) all_in e = absurd (ground arith)
drop_stale-IsKeyed jobs registry (ok done, taken) all_in e =
    drop_missing-IsKeyed (map id_of jobs) (list_ids taken) taken (all_in e).0

pub sync-IsKeyed :
    (jobs : List Job) (registry : Registry)
    → IsKeyed id_of jobs
    → IsKeyed id_of registry
    → (sync jobs registry).0 ≡ ok tt
    → IsKeyed id_of (sync jobs registry).1
unfolding sync
sync-IsKeyed jobs registry apart keyed e =
    drop_stale-IsKeyed jobs registry (take_in_all jobs registry)
      (take_in_all-AllTakenIn jobs registry apart keyed) e
