-- ===== src/UserTasks/Legacy/Import.antt =====
-- The loops of import_legacy, over the items of a page and over the pages.
use ai_lab_os.Prelude.{
  ℕ, suc, Bool, true, false, not, ◌&&◌, ◌||◌, Option, List, [], ◌∷◌, String, str_eq, ltb, ◌==◌,
  if◌then◌else◌, or_default, Result, ok, err, length,
}
use ai_lab_os.Errors.{ErrorCategory}
use ai_lab_os.Json.{Json}
use ai_lab_os.Scheduler.Models.{Instant}
use ai_lab_os.UserTasks.Models.{UserTaskError}
use ai_lab_os.UserTasks.Service.{
  Service, ServiceError, failure, coordinator_failed, Outcome, service_error, publish,
}
use ai_lab_os.UserTasks.Service.Create.{create}
use ai_lab_os.UserTasks.Legacy.{Memory, Judgement, broken, entry, judge, timed}

pub record LegacyImportResult : Type 0 where
  pub imported : ℕ
  pub skipped : ℕ
  pub failed : ℕ

abbrev pub Progress : Type 0
Progress = LegacyImportResult × Service

abbrev pub count_imported : LegacyImportResult → LegacyImportResult
count_imported result = record result { imported = suc result.imported }

abbrev pub count_skipped : LegacyImportResult → LegacyImportResult
count_skipped result = record result { skipped = suc result.skipped }

-- An item that fails degrades the service.
unfoldable pub count_failed : LegacyImportResult → Service → Progress
count_failed result service =
    (record result { failed = suc result.failed }, record service { degraded = true })

abbrev pub is_conflict : ErrorCategory → Bool
is_conflict ErrorCategory.conflict = true
is_conflict _ = false

-- What the outcome of `create` counts as: a conflict is a task that is there already.
unfoldable pub count_created : Outcome → LegacyImportResult → Progress
unfolding count_failed
count_created (ok task, service) result = (count_imported result, service)
count_created (err (failure f), service) result =
    if is_conflict f.category then (count_skipped result, service) else count_failed result service
count_created (err coordinator_failed, service) result = count_failed result service

-- An answer of the memory: a page of items, each with the instant at which its turn comes, or an
-- exception, by the class that `_raise` sees in it.
pub data Page : Type 0 where
  page : List (Memory × Instant) → Page
  unavailable : UserTaskError → Page

abbrev pub page_size : ℕ
page_size = 500

abbrev pub Signature : Type 0
Signature = List String

-- tuple(str(getattr(item, "id", "")) for item in items)
unfoldable pub page_signature : List (Memory × Instant) → Signature
page_signature [] = []
page_signature ((item, now) ∷ items) = or_default "" item.id ∷ page_signature items

unfoldable pub signature_eq : Signature → Signature → Bool
signature_eq [] [] = true
signature_eq (a ∷ s) (b ∷ t) = str_eq a b && signature_eq s t
signature_eq _ _ = false

-- page_signature in seen_pages
unfoldable pub is_seen : Signature → List Signature → Bool
unfolding signature_eq
is_seen signature [] = false
is_seen signature (earlier ∷ seen) = signature_eq signature earlier || is_seen signature seen

module _ (is_zone : String → Bool) (bus_is_running : Bool) (render : Json → String)
    (parse_datetime : Json → String → Bool → Option Instant) (digest : String → String)
    (trace_id : String) where
  unfoldable pub import_judged : Judgement → Instant → LegacyImportResult → Service → Progress
  unfolding count_created count_failed create timed
  import_judged Judgement.skipped now result service = (count_skipped result, service)
  import_judged broken now result service = count_failed result service
  import_judged (entry key args) now result service =
      count_created (create is_zone bus_is_running key (timed now args) now "" service) result

  unfoldable pub import_items : List (Memory × Instant) → LegacyImportResult → Service → Progress
  unfolding import_judged judge
  import_items [] result service = (result, service)
  import_items ((item, now) ∷ items) result service =
      let (next, after) =
        import_judged (judge render parse_datetime digest item trace_id) now result service in
      import_items items next after

  -- The events at the end.
  unfoldable pub finish :
      LegacyImportResult → Service → Result ServiceError LegacyImportResult × Service
  unfolding publish
  finish result service =
      let has_failed = not (result.failed == 0) in
      let told =
        if has_failed
        then publish bus_is_running "user_task.failed" "legacy_import" trace_id "degraded" service
        else service in
      (
        ok result,
        publish bus_is_running "user_task.legacy_imported" "migration" trace_id
            (if has_failed then "degraded" else "ok") told,
      )

  -- The memory raises, or gives a page again.
  unfoldable pub give_up :
      UserTaskError → Service → Result ServiceError LegacyImportResult × Service
  unfolding publish service_error
  give_up exc service = (
    err (service_error exc "legacy_import" trace_id),
    publish bus_is_running "user_task.failed" "legacy_import" trace_id "failed"
        (record service { degraded = true }),
  )

  -- The loop over the pages, which are empty behind those of the list.
  unfoldable pub import_pages :
      List Page
      → List Signature
      → LegacyImportResult
      → Service
      → Result ServiceError LegacyImportResult × Service
  unfolding import_items finish give_up page_signature is_seen
  import_pages [] seen result service = finish result service
  import_pages (unavailable exc ∷ pages) seen result service = give_up exc service
  import_pages (page [] ∷ pages) seen result service = finish result service
  import_pages (page (item ∷ items) ∷ pages) seen result service =
      let (next, after) = import_items (item ∷ items) result service in
      let rest = import_pages pages (page_signature (item ∷ items) ∷ seen) next after in
      if is_seen (page_signature (item ∷ items)) seen
      then give_up UserTaskError.persistence service
      else if ltb (length (item ∷ items)) page_size
      then finish next after
      else rest

  unfoldable pub import_legacy :
      List Page → Service → Result ServiceError LegacyImportResult × Service
  unfolding import_pages
  import_legacy pages service =
      import_pages pages [] (record { imported = 0; skipped = 0; failed = 0 }) service
