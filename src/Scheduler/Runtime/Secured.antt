-- ===== src/Scheduler/Runtime/Secured.antt =====
-- The steps of a tick keep the claims that are held, and hold those of the tasks that they start.
use mathlib.Core.Path.{subst}
use ai_lab_os.Prelude.{
  ℕ, ◌+◌, ◌≤◌, ◌≡◌, refl, sym, ap, ◌∙◌, true, Bool-cases, inl, inr, Option, none, some, List, [],
  ◌∷◌, ◌++◌, String, at_least, Result, ok, err, All, All-append, All-map,
}
use ai_lab_os.Scheduler.Models.{Instant, Job}
use ai_lab_os.Scheduler.Faults.{SchedulerError}
use ai_lab_os.Scheduler.Store.Database.{Database, PersistenceError}
use ai_lab_os.Scheduler.Store.Claims.{claim_job}
use ai_lab_os.Scheduler.Store.Steps.{claim, apply, apply_all, IsValid}
use ai_lab_os.Scheduler.Store.Invariant.{apply-IsValid}
use ai_lab_os.Scheduler.Store.Completion.{Kept, apply_all-Kept, claimed-Kept, claimed_id}
use ai_lab_os.Scheduler.Registry.{Registry, replace}
use ai_lab_os.Scheduler.Runtime.{Config, Launch, Runtime, Fresh}
use ai_lab_os.Scheduler.Runtime.Tick.{
  count_running, launch_known, launch_claimed, dispatch_due_job, after_dispatch,
}

-- The store is valid, the launched job is running under the launch's token, which does not expire
-- before the deadline, and the run of the launch is in the store.
abbrev pub IsHeld : Instant → Database → Launch → Type 0
IsHeld deadline db launch = Kept launch.run.id launch.claim_token launch.job.info.id deadline db

pub append_nil : (xs : List Launch) → xs ++ [] ≡ xs
append_nil [] = refl
append_nil (x ∷ xs) = ap (λ t. x ∷ t) (append_nil xs)

append_assoc : (xs ys zs : List Launch) → (xs ++ ys) ++ zs ≡ xs ++ (ys ++ zs)
append_assoc [] ys zs = refl
append_assoc (x ∷ xs) ys zs = ap (λ t. x ∷ t) (append_assoc xs ys zs)

module _ (deadline : Instant) where
  -- A step keeps the claims that are held up to the deadline, and holds those of the tasks it starts.
  abbrev pub Secured : Runtime → Runtime → Type 0
  Secured before after =
      IsValid after.database
      × ((launch : Launch)
          → IsHeld deadline before.database launch
          → IsHeld deadline after.database launch)
      × ((new : List Launch) × (after.background_tasks ≡ before.background_tasks ++ new)
          × All (IsHeld deadline after.database) new)

  Secured-trans : (a b c : Runtime) → Secured a b → Secured b c → Secured a c
  Secured-trans a b c (v, keep, (new, more, held)) (v', keep', (new', more', held')) = (
    v',
    λ launch h. keep' launch (keep launch h),
    (
      new ++ new',
      more' ∙ ap (λ t. t ++ new') more ∙ append_assoc a.background_tasks new new',
      All-append (IsHeld deadline c.database) new new'
          (All-map (IsHeld deadline b.database) (IsHeld deadline c.database) new keep' held) held',
    ),
  )

  -- Only the database has changed, and nothing is started.
  pub idle-Secured :
      (before after : Runtime)
      → IsValid after.database
      → ((launch : Launch)
          → IsHeld deadline before.database launch
          → IsHeld deadline after.database launch)
      → after.background_tasks ≡ before.background_tasks
      → Secured before after
  idle-Secured before after v keep same =
      (v, keep, ([], same ∙ sym (append_nil before.background_tasks), tt))

  module _ (fresh : Fresh) (now : Instant) (ttl : ℕ) (covered : deadline ≤ now + ttl)
      (job_id : String) (before : Runtime) (v : IsValid before.database) where
    kept_by_claim :
        (answer : Result PersistenceError (Option Job)) (db : Database)
        → claim_job job_id now fresh.claim_token (now + ttl) fresh.run_id before.database
          ≡ (answer, db)
        → (launch : Launch) → IsHeld deadline before.database launch
        → IsHeld deadline db launch
    unfolding apply_all apply
    kept_by_claim answer db e launch held =
        subst (λ d. IsHeld deadline d launch) (ap (λ p. p.1) e)
          (apply_all-Kept launch.run.id launch.claim_token launch.job.info.id deadline
            (claim job_id now fresh.claim_token (now + ttl) fresh.run_id ∷ []) before.database
            (tt, tt) (tt, tt) held)

    claim-IsValid :
        (answer : Result PersistenceError (Option Job)) (db : Database)
        → claim_job job_id now fresh.claim_token (now + ttl) fresh.run_id before.database
          ≡ (answer, db)
        → IsValid db
    unfolding apply
    claim-IsValid answer db e = subst IsValid (ap (λ p. p.1) e) (
        apply-IsValid (claim job_id now fresh.claim_token (now + ttl) fresh.run_id) before.database
          tt v)

    launch_known-Secured :
        (job : Job) (db : Database) (o : Result SchedulerError Registry)
        → claim_job job_id now fresh.claim_token (now + ttl) fresh.run_id before.database
          ≡ (ok (some job), db)
        → Secured before (launch_known fresh now job o (record before { database = db })).1
    unfolding launch_known
    launch_known-Secured job db (err x) e =
        idle-Secured before (record before { database = db }) (claim-IsValid (ok (some job)) db e)
          (kept_by_claim (ok (some job)) db e) refl
    launch_known-Secured job db (ok known) e = (
      claim-IsValid (ok (some job)) db e,
      kept_by_claim (ok (some job)) db e,
      (
        _,
        refl,
        (
          subst (λ k. Kept fresh.run_id fresh.claim_token k deadline db)
              (sym (
                claimed_id job_id now fresh.claim_token (now + ttl) fresh.run_id before.database job
                  db v e))
              (claimed-Kept job_id now fresh.claim_token (now + ttl) fresh.run_id before.database
                job db deadline v e covered),
          tt,
        ),
      ),
    )

    launch_claimed-Secured :
        (answer : Result PersistenceError (Option Job)) (db : Database)
        → claim_job job_id now fresh.claim_token (now + ttl) fresh.run_id before.database
          ≡ (answer, db)
        → Secured before (launch_claimed fresh now (answer, db) before).1
    unfolding launch_claimed
    launch_claimed-Secured (err x) db e =
        idle-Secured before (record before { database = db }) (claim-IsValid (err x) db e)
          (kept_by_claim (err x) db e) refl
    launch_claimed-Secured (ok none) db e =
        idle-Secured before (record before { database = db }) (claim-IsValid (ok none) db e)
          (kept_by_claim (ok none) db e) refl
    launch_claimed-Secured (ok (some job)) db e =
        launch_known-Secured job db (replace job before.registry) e

  pub dispatch_due_job-Secured :
      (config : Config) (fresh : Fresh) (now : Instant) (job : Job) (runtime : Runtime)
      → config.persisted ≡ true
      → deadline ≤ now + config.claim_ttl
      → IsValid runtime.database
      → Secured runtime (dispatch_due_job config fresh now job runtime).1
  unfolding dispatch_due_job
  dispatch_due_job-Secured config fresh now job runtime stored covered v =
      elim (Bool-cases (at_least (count_running runtime.registry) config.max_concurrent_jobs)) [
        | inl full ↦ rw full (idle-Secured runtime runtime v (λ launch h. h) refl)
        | inr free ↦
            let (answer, db) =
              claim_job job.info.id now fresh.claim_token (now + config.claim_ttl) fresh.run_id
                runtime.database in
            rw (free, stored)
              (launch_claimed-Secured fresh now config.claim_ttl covered job.info.id runtime v
                answer db refl)
      ]

  pub after_dispatch-Secured :
      (rest : Runtime → Result SchedulerError Unit × Runtime) (before : Runtime)
      (outcome : Result SchedulerError Unit × Runtime)
      → Secured before outcome.1
      → ((next : Runtime) → IsValid next.database → Secured next (rest next).1)
      → Secured before (after_dispatch rest outcome).1
  unfolding after_dispatch
  after_dispatch-Secured rest before (err e, next) step later = step
  after_dispatch-Secured rest before (ok done, next) step later =
      Secured-trans before next (rest next).1 step (later next step.0)
