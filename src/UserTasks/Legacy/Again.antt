-- ===== src/UserTasks/Legacy/Again.antt =====
-- An import that is repeated imports nothing.
use mathlib.Core.Path.{subst}
use ai_lab_os.Prelude.{Bool, refl, sym, ◌∙◌, Option, List, [], ◌∷◌, String}
use ai_lab_os.Json.{Json}
use ai_lab_os.Sql.{IsKeyed}
use ai_lab_os.Scheduler.Models.{Instant}
use ai_lab_os.UserTasks.Table.{TaskRow, row_key}
use ai_lab_os.UserTasks.Service.{Service}
use ai_lab_os.UserTasks.Legacy.{Memory, Judgement, broken, entry, judge}
use ai_lab_os.UserTasks.Legacy.Import.{
  LegacyImportResult, count_failed, import_judged, import_items,
}
use ai_lab_os.UserTasks.Legacy.Settled.{IsSettled, IsKept, IsSettled-IsKept, IsIdle}
use ai_lab_os.UserTasks.Legacy.Steps.{Step, entry-Step}

-- The same memories at other instants.
abbrev pub at_instants : (Instant → Instant) → List (Memory × Instant) → List (Memory × Instant)
at_instants clock [] = []
at_instants clock ((item, now) ∷ items) = (item, clock now) ∷ at_instants clock items

module _ (is_zone : String → Bool) (bus_is_running : Bool) (render : Json → String)
    (parse_datetime : Json → String → Bool → Option Instant) (digest : String → String)
    (trace_id : String) where
  judged-Step :
      (judgement : Judgement) (now : Instant) (result : LegacyImportResult) (service : Service)
      → IsKeyed row_key service.table
      → Step is_zone judgement result service (
          import_judged is_zone bus_is_running render parse_datetime digest trace_id judgement now
            result service)
  unfolding import_judged count_failed
  judged-Step Judgement.skipped now result service keyed =
      (keyed, λ k row e. e, tt, λ settled. (refl, refl))
  judged-Step broken now result service keyed = (keyed, λ k row e. e, tt, λ settled. (refl, refl))
  judged-Step (entry key args) now result service keyed =
      entry-Step is_zone bus_is_running key args now service keyed result

  abbrev AllSettled : List (Memory × Instant) → List TaskRow → Type 0
  AllSettled [] table = Unit
  AllSettled ((item, now) ∷ items) table =
      IsSettled is_zone (judge render parse_datetime digest item trace_id) table
      × AllSettled items table

  import_items-IsSettled :
      (items : List (Memory × Instant)) (result : LegacyImportResult) (service : Service)
      → IsKeyed row_key service.table
      → let after =
          (import_items is_zone bus_is_running render parse_datetime digest trace_id items result
            service).1 in
        IsKeyed row_key after.table
        × IsKept service.table after.table
        × AllSettled items after.table
  unfolding import_items
  import_items-IsSettled [] result service keyed = (keyed, λ k row e. e, tt)
  import_items-IsSettled ((item, now) ∷ items) result service keyed =
      let judgement = judge render parse_datetime digest item trace_id in
      let progress =
        import_judged is_zone bus_is_running render parse_datetime digest trace_id judgement now
          result service in
      let (keyed', kept, settled, _) = judged-Step judgement now result service keyed in
      let (last, kept', rest) = import_items-IsSettled items progress.0 progress.1 keyed' in
      (
        last,
        λ k row e. kept' k row (kept k row e),
        (IsSettled-IsKept is_zone judgement progress.1.table _ kept' settled, rest),
      )

  items-IsIdle :
      (clock : Instant → Instant) (items : List (Memory × Instant)) (result : LegacyImportResult)
      (service : Service)
      → IsKeyed row_key service.table
      → AllSettled items service.table
      → IsIdle service result (
          import_items is_zone bus_is_running render parse_datetime digest trace_id
            (at_instants clock items)
            result
            service)
  unfolding import_items
  items-IsIdle clock [] result service keyed settled = (refl, refl)
  items-IsIdle clock ((item, now) ∷ items) result service keyed settled =
      let judgement = judge render parse_datetime digest item trace_id in
      let progress =
        import_judged is_zone bus_is_running render parse_datetime digest trace_id judgement
          (clock now) result service in
      let (keyed', _, _, idle) = judged-Step judgement (clock now) result service keyed in
      let (table, imported) = idle settled.0 in
      let (table', imported') =
        items-IsIdle clock items progress.0 progress.1 keyed'
          (subst (AllSettled items) (sym table) settled.1) in
      (table' ∙ table, imported' ∙ imported)

  -- Once the items of a page have been imported, importing the same memories again, at any instants,
  -- leaves the table as it is and counts nothing as imported.
  pub import_items-again :
      (clock : Instant → Instant) (items : List (Memory × Instant))
      (result again : LegacyImportResult) (service : Service)
      → IsKeyed row_key service.table
      → let after =
          (import_items is_zone bus_is_running render parse_datetime digest trace_id items result
            service).1 in
        IsIdle after again (
          import_items is_zone bus_is_running render parse_datetime digest trace_id
            (at_instants clock items)
            again
            after)
  import_items-again clock items result again service keyed =
      let (last, _, settled) = import_items-IsSettled items result service keyed in
      items-IsIdle clock items again _ last settled
