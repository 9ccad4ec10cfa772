-- ===== src/Scheduler/Examples/Stores.antt =====
-- The theorems on the store at concrete inputs: a job is saved and claimed, and its claim expires.

use ai_lab_os.Prelude.{
  ◌+◌, ◌*◌, ◌≡◌, ◌⊎◌, refl, true, false, some, none, List, [], ◌∷◌, arith, err, ok, All, String,
}
use ai_lab_os.Scheduler.Models.{second, Instant, Job, JobRun}
use ai_lab_os.Scheduler.Rows.{JobRow, job_values, row_to_job}
use ai_lab_os.Scheduler.Samples.{midnight, report, report_run}
use ai_lab_os.Sql.{update_where, count_where, find_key}
use ai_lab_os.Scheduler.Store.Database.{Database, empty, row_of, claim_lost}
use ai_lab_os.Scheduler.Store.Jobs.{save_job}
use ai_lab_os.Scheduler.Store.Claims.{
  claimed_row, claim_job, is_expired, finalize_claim, renew_claim,
}
use ai_lab_os.Scheduler.Store.Steps.{
  Operation, save, pause, cancel, claim, release, apply, apply_all, IsProper, IsValid,
}
use ai_lab_os.Scheduler.Store.Invariant.{store-IsValid}
use ai_lab_os.Scheduler.Store.Revisions.{Evolved, apply-Evolved}
use ai_lab_os.Scheduler.Store.LostUpdate.{Refused, no_lost_update}
use ai_lab_os.Scheduler.Store.Completion.{owner_finalizes}
use ai_lab_os.Scheduler.Store.Written.{Written, claim_job_writes}
use ai_lab_os.Scheduler.Store.Fencing.{stale_owner_fenced}

abbrev history : List Operation
history = save report ∷ claim "j1" midnight "a" (midnight + 30 * second) "r1" ∷ []

abbrev pub stored : Database
unfolding apply_all apply
stored = apply_all history empty

history-IsProper : All IsProper history
history-IsProper = ((refl, refl, refl, omega arith), (tt, tt))

store-IsValid_example : IsValid (apply_all history empty)
store-IsValid_example = store-IsValid history history-IsProper

stored-IsValid : IsValid stored
unfolding stored
stored-IsValid = store-IsValid history history-IsProper

unfoldable pub claimed : JobRow
unfolding job_values claimed_row
claimed = claimed_row "a" (midnight + 30 * second) midnight (job_values report)

claimed_stored : row_of stored "j1" ≡ some claimed
unfolding claimed stored apply_all apply claim_job save_job update_where count_where find_key
    claimed_row job_values row_to_job
claimed_stored = refl

apply-Evolved_example : Evolved claimed (row_of (apply (pause "j1" 2 midnight) stored) "j1")
apply-Evolved_example =
    apply-Evolved "j1" claimed stored stored-IsValid.jobs_keyed claimed_stored
      (pause "j1" 2 midnight)

no_lost_update_example :
    (row_of (apply_all (release (midnight + 60 * second) 0 ∷ []) stored) "j1" ≡ some claimed)
    ⊎ Refused "j1" claimed.revision (apply_all (release (midnight + 60 * second) 0 ∷ []) stored)
no_lost_update_example =
    no_lost_update (release (midnight + 60 * second) 0 ∷ []) stored "j1" claimed stored-IsValid
      (tt, tt) (tt, tt) claimed_stored

claimed_expired : is_expired (midnight + 60 * second) claimed ≡ true
unfolding is_expired claimed
claimed_expired = refl

stale_owner_fenced_example :
    let end =
      apply_all (cancel "j1" midnight ∷ []) (apply (release (midnight + 60 * second) 0) stored) in
    (finalize_claim report report_run "a" end ≡ (err claim_lost, end))
    × (renew_claim "j1" "a" (midnight + 90 * second) (midnight + 61 * second) end ≡ (false, end))
stale_owner_fenced_example =
    stale_owner_fenced stored report report_run "a" claimed (midnight + 60 * second) 0
      (cancel "j1" midnight ∷ []) (midnight + 90 * second) (midnight + 61 * second) stored-IsValid
      claimed_stored claimed_expired (tt, tt) (tt, tt)

unfoldable pub saved : Database
unfolding apply_all apply
saved = apply_all (save report ∷ []) empty

pub saved-IsValid : IsValid saved
unfolding saved
saved-IsValid = store-IsValid (save report ∷ []) (history-IsProper.0, tt)

claim_job_writes_example :
    Written "j1" midnight "a"
      (midnight + 30 * second)
      "r1"
      saved
      (claim_job "j1" midnight "a" (midnight + 30 * second) "r1" saved).1
claim_job_writes_example =
    claim_job_writes "j1" midnight "a" (midnight + 30 * second) "r1" saved saved-IsValid

pub claim_succeeds :
    claim_job "j1" midnight "a" (midnight + 30 * second) "r1" saved
    ≡ (ok (some (row_to_job claimed)), stored)
unfolding saved claimed stored apply_all apply claim_job save_job update_where count_where find_key
    claimed_row job_values row_to_job
claim_succeeds = refl

-- Before the end of the lease another runtime cancels the job, ticks, and tries to claim it.
abbrev interference : List Operation
interference =
    cancel "j1" midnight
    ∷ release (midnight + 29 * second) 0
    ∷ claim "j1" (midnight + 29 * second) "b" (midnight + 60 * second) "r2"
    ∷ []

owner_finalizes_example :
    let end = apply_all interference stored in
    ((done : Job) (run : JobRun)
      → done.info.id ≡ "j1"
      → run.id ≡ "r1"
      → (finalize_claim done run "a" end).0 ≡ ok tt)
    × ((later : Instant) (tok : String) (until : Instant) (other : String)
        → claim_job "j1" later tok until other end ≡ (ok none, end))
owner_finalizes_example =
    owner_finalizes "j1" midnight "a" (midnight + 30 * second) "r1" saved (row_to_job claimed)
      stored (midnight + 30 * second) interference saved-IsValid claim_succeeds (omega arith)
      (tt, (tt, (tt, tt))) (tt, (omega arith, (tt, tt)))
