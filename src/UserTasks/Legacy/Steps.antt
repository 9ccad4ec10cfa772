-- ===== src/UserTasks/Legacy/Steps.antt =====
-- One step of an import settles its entry, and does nothing with an entry that is settled.
use mathlib.Core.Path.{subst}
use ai_lab_os.Prelude.{
  Bool, true, false, ◌≡◌, refl, sym, ap, ◌∙◌, inl, inr, String, Bool-cases, strip, str_eq_refl,
}
use ai_lab_os.Sql.{IsKeyed}
use ai_lab_os.Scheduler.Models.{Instant}
use ai_lab_os.UserTasks.Models.{UserTask, UserTaskError, accepts, model_validate}
use ai_lab_os.UserTasks.Spaces.{WorkspaceKey, normalize_workspace_key}
use ai_lab_os.UserTasks.Table as Repository
use ai_lab_os.UserTasks.Table.{TaskRow, row_key, task_values}
use ai_lab_os.UserTasks.Spec.{Created}
use ai_lab_os.UserTasks.Refines.{book, create-Created, create_taken, create_legacy}
use ai_lab_os.UserTasks.Refines.Runs.{create-IsKeyed}
use ai_lab_os.UserTasks.Service.{Service}
use ai_lab_os.UserTasks.Service.Create.{
  NewTask, id_or, new_task, create, create_failed, after_insert, after_validation,
}
use ai_lab_os.UserTasks.Legacy.{Judgement, entry, timed}
use ai_lab_os.UserTasks.Legacy.Import.{LegacyImportResult, Progress, count_created}
use ai_lab_os.UserTasks.Legacy.Settled.{
  entry_task, IsSettled, IsKept, Created-IsKept, count_created-table, IsIdle, create_failed-IsIdle,
  after_insert-table, after_insert-IsIdle,
}

-- What a step of the import does with an item.
abbrev pub Step : (String → Bool) → Judgement → LegacyImportResult → Service → Progress → Type 0
Step is_zone judgement result service progress =
    IsKeyed row_key progress.1.table
    × IsKept service.table progress.1.table
    × IsSettled is_zone judgement progress.1.table
    × (IsSettled is_zone judgement service.table → IsIdle service result progress)

module _ (is_zone : String → Bool) (bus_is_running : Bool) (key : WorkspaceKey) (args : NewTask)
    (now : Instant) (service : Service) (keyed : IsKeyed row_key service.table) where
  abbrev made : UserTask
  unfolding new_task timed
  made = new_task (normalize_workspace_key key) (timed now args) now ""

  create_refused :
      accepts is_zone (entry_task is_zone key args) ≡ false
      → create is_zone bus_is_running key (timed now args) now "" service
        ≡ create_failed is_zone bus_is_running UserTaskError.validation (timed now args) service
  unfolding create after_validation model_validate accepts new_task timed
  create_refused bad = rw bad refl

  abbrev stripped : UserTask
  unfolding new_task timed
  stripped = record made { title = strip args.title; timezone = strip args.timezone }

  create_tried :
      accepts is_zone (entry_task is_zone key args) ≡ true
      → create is_zone bus_is_running key (timed now args) now "" service
        ≡ after_insert is_zone bus_is_running
            (Repository.create stripped service.table)
            (timed now args)
            service
  unfolding create after_validation model_validate accepts new_task timed
  create_tried good = rw good refl

  -- An insertion leaves the id, or the legacy id, taken.
  tried-IsSettled :
      Created stripped
        (book service.table)
        (Repository.create stripped service.table).0
        (book (Repository.create stripped service.table).1)
      → IsKept service.table (Repository.create stripped service.table).1
      → IsSettled is_zone (entry key args) (Repository.create stripped service.table).1
  unfolding task_values new_task timed
  tried-IsSettled (inl (row, e, _, _)) kept = inr (inl (row, kept (id_or "" args.task_id) row e))
  tried-IsSettled (inr (inl (_, (k, row, e, other, same), _, _))) kept =
      inr (inr (k, row, kept k row e, other, same))
  tried-IsSettled (inr (inr (_, _, _, put))) kept = inr (
      inl (
        task_values stripped,
        put (id_or "" args.task_id) ∙ rw (str_eq_refl (id_or "" args.task_id)) refl,
      ))

  settled-IsIdle :
      (result : LegacyImportResult)
      → accepts is_zone (entry_task is_zone key args) ≡ true
      → IsSettled is_zone (entry key args) service.table
      → IsIdle service result (
          count_created
            (after_insert is_zone bus_is_running
              (Repository.create stripped service.table)
              (timed now args)
              service)
            result)
  unfolding new_task timed
  settled-IsIdle result good (inl bad) = cc
  settled-IsIdle result good (inr (inl (row, e))) =
      after_insert-IsIdle is_zone bus_is_running (timed now args) service
        (Repository.create stripped service.table) UserTaskError.conflict result
        (create_taken service.table keyed stripped row e)
  settled-IsIdle result good (inr (inr clash)) =
      after_insert-IsIdle is_zone bus_is_running (timed now args) service
        (Repository.create stripped service.table) UserTaskError.conflict result
        (create_legacy service.table keyed stripped clash)

  -- The table that a tried insertion leaves.
  tried-table :
      (result : LegacyImportResult)
      → (count_created
          (after_insert is_zone bus_is_running
            (Repository.create stripped service.table)
            (timed now args)
            service)
          result).1.table
        ≡ (Repository.create stripped service.table).1
  tried-table result =
      let outcome = Repository.create stripped service.table in
      count_created-table (after_insert is_zone bus_is_running outcome (timed now args) service)
        result
      ∙ after_insert-table is_zone bus_is_running (timed now args) service outcome

  pub entry-Step :
      (result : LegacyImportResult)
      → Step is_zone
          (entry key args)
          result
          service
          (count_created (create is_zone bus_is_running key (timed now args) now "" service) result)
  entry-Step result = elim (Bool-cases (accepts is_zone (entry_task is_zone key args))) [
    | inr bad ↦
        let idle =
          create_failed-IsIdle is_zone bus_is_running (timed now args) service
            UserTaskError.validation result in
        rw (create_refused bad) (
          subst (IsKeyed row_key) (sym idle.0) keyed,
          λ k row e. ap (λ t. book t k) idle.0 ∙ e,
          inl bad,
          λ settled. idle,
        )
    | inl good ↦
        let created = create-Created service.table keyed stripped in
        let kept =
          Created-IsKept stripped service.table (Repository.create stripped service.table).1
            (Repository.create stripped service.table).0 created in
        let after = sym (tried-table result) in
        rw (create_tried good) (
          subst (IsKeyed row_key) after (create-IsKeyed stripped service.table keyed),
          λ k row e. ap (λ t. book t k) (sym after) ∙ kept k row e,
          subst (IsSettled is_zone (entry key args)) after (tried-IsSettled created kept),
          settled-IsIdle result good,
        )
  ]
