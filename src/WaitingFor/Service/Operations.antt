-- ===== src/WaitingFor/Service/Operations.antt =====
-- The methods of the service that change an item, and any number of them, with the calls of others that
-- come between the read and the write of each.
use ai_lab_os.Prelude.{Bool, Option, List, [], ◌∷◌, String}
use ai_lab_os.Scheduler.Models.{Instant}
use ai_lab_os.UserTasks.Spaces.{WorkspaceKey}
use ai_lab_os.WaitingFor.Calls.{Call}
use ai_lab_os.WaitingFor.Service.{BusState, Service, Outcome, NewItem, create}
use ai_lab_os.WaitingFor.Service.Changes.{
  Request, record_follow_up, snooze, resolve, cancel, reopen,
}

pub data Operation : Type 0 where
  do_create : NewItem → String → Operation
  do_follow_up : String → Option Instant → Operation
  do_snooze : String → Instant → Operation
  do_resolve : String → Operation
  do_cancel : String → Operation
  do_reopen : String → Option Instant → Operation

pub record Step : Type 0 where
  pub bus : BusState
  pub key : WorkspaceKey
  pub interim : List Call
  pub request : Request
  pub operation : Operation

module _ (is_zone : String → Bool) (iso_text : Instant → String) where
  unfoldable pub perform :
      BusState → WorkspaceKey → List Call → Request → Operation → Service → Outcome
  unfolding create record_follow_up snooze resolve cancel reopen
  perform bus key interim request (do_create args fresh_id) service =
      create is_zone bus key args request.trace_id request.now fresh_id request.event_id service
  perform bus key interim request (do_follow_up note next_review_at) service =
      record_follow_up is_zone iso_text bus key interim request note next_review_at service
  perform bus key interim request (do_snooze note next_review_at) service =
      snooze is_zone iso_text bus key interim request note next_review_at service
  perform bus key interim request (do_resolve note) service =
      resolve is_zone iso_text bus key interim request note service
  perform bus key interim request (do_cancel note) service =
      cancel is_zone iso_text bus key interim request note service
  perform bus key interim request (do_reopen note next_review_at) service =
      reopen is_zone iso_text bus key interim request note next_review_at service

  unfoldable pub perform_all : List Step → Service → Service
  unfolding perform
  perform_all [] service = service
  perform_all (step ∷ steps) service =
      perform_all steps
        (perform step.bus step.key step.interim step.request step.operation service).1
