-- ===== src/WaitingFor/Service/Told.antt =====
-- The methods of the service keep the history of every item.
use mathlib.Core.Path.{subst}
use ai_lab_os.Prelude.{Bool, ◌≡◌, inl, inr, refl, sym, ◌∙◌, List, [], ◌∷◌, String, All}
use ai_lab_os.Scheduler.Models.{Instant}
use ai_lab_os.WaitingFor.Store.{Tables}
use ai_lab_os.WaitingFor.Calls as Calls
use ai_lab_os.WaitingFor.Calls.{Call, run_call, run_calls}
use ai_lab_os.WaitingFor.History.{HasHistory, IsProper, run_calls-HasHistory, run_call-HasHistory}
use ai_lab_os.WaitingFor.Service.{Outcome, BusState, Service}
use ai_lab_os.WaitingFor.Service.Operations.{Step, perform, perform_all}
use ai_lab_os.WaitingFor.Service.Written.{answer_to, IsWritten, after_write-tables}
use ai_lab_os.WaitingFor.Service.Written.Operations.{perform-IsWritten}

module _ (is_zone : String → Bool) where
  answer_to-run_call :
      (call : Call) (tables : Tables)
      → (answer_to is_zone call tables).1 ≡ run_call is_zone call tables
  unfolding answer_to run_call
  answer_to-run_call (Calls.create item event) tables = refl
  answer_to-run_call (Calls.mutate key updated event revision) tables = refl

  written-HasHistory :
      (bus : BusState) (interim : List Call) (service : Service) (outcome : Outcome)
      → All IsProper interim
      → HasHistory service.tables
      → IsWritten is_zone bus interim service outcome
      → HasHistory outcome.1.tables
  written-HasHistory bus interim service outcome proper h (inl (f, e)) =
      subst (λ (o : Outcome). HasHistory o.1.tables) (sym e) h
  written-HasHistory bus interim service outcome proper h
        (inr (operation, trace_id, call, tables, on, agreed, e)) =
      let before : HasHistory tables = elim on [
        | inl found ↦ subst HasHistory (sym found) h
        | inr left ↦
            subst HasHistory (sym left)
              (run_calls-HasHistory is_zone interim service.tables h proper)
      ] in
      subst (λ (o : Outcome). HasHistory o.1.tables) (sym e)
        (subst HasHistory
          (sym (
            after_write-tables bus operation trace_id (answer_to is_zone call tables) service
            ∙ answer_to-run_call call tables))
          (run_call-HasHistory is_zone call tables before agreed))

module _ (is_zone : String → Bool) (iso_text : Instant → String) where
  -- Where the items have different ids and every item has its whole history, it is so after any
  -- methods of the service, create, follow-up, snooze, resolve, cancel and reopen, whether they answer or
  -- fail, and any calls of the repository that others make in between, if these create open items only
  -- and give an item the status that their event tells: an item has as many events as its revision says,
  -- numbered from 1 in their order, of which the last one tells its status; and no event is without its
  -- item.
  pub perform_all-HasHistory :
      (steps : List Step) (service : Service)
      → HasHistory service.tables
      → All (λ step. All IsProper step.interim) steps
      → HasHistory (perform_all is_zone iso_text steps service).tables
  unfolding perform_all
  perform_all-HasHistory [] service h proper = h
  perform_all-HasHistory (step ∷ steps) service h proper =
      perform_all-HasHistory steps
        (perform is_zone iso_text step.bus step.key step.interim step.request step.operation
          service).1
        (written-HasHistory is_zone step.bus step.interim service
          (perform is_zone iso_text step.bus step.key step.interim step.request step.operation
            service)
          proper.0 h
          (perform-IsWritten is_zone iso_text step.bus step.key step.interim step.request
            step.operation service))
        proper.1
