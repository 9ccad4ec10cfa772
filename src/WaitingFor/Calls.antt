-- ===== src/WaitingFor/Calls.antt =====
-- Any number of calls of the repository that change its tables, of any callers, in the order of their
-- transactions.
use ai_lab_os.Prelude.{List, [], ◌∷◌, String, Bool}
use ai_lab_os.UserTasks.Spaces.{WorkspaceKey}
use ai_lab_os.Prelude.{ℕ}
use ai_lab_os.WaitingFor.Models.{WaitingFor, WaitingForEvent}
use ai_lab_os.WaitingFor.Store as Repository
use ai_lab_os.WaitingFor.Store.{Tables}

pub data Call : Type 0 where
  create : WaitingFor → WaitingForEvent → Call
  mutate : WorkspaceKey → WaitingFor → WaitingForEvent → ℕ → Call

module _ (is_zone : String → Bool) where
  unfoldable pub run_call : Call → Tables → Tables
  unfolding Repository.create Repository.mutate
  run_call (create item event) tables = (Repository.create item event tables).1
  run_call (mutate key updated event expected_revision) tables =
      (Repository.mutate is_zone key updated event expected_revision tables).1

  unfoldable pub run_calls : List Call → Tables → Tables
  unfolding run_call
  run_calls [] tables = tables
  run_calls (call ∷ calls) tables = run_calls calls (run_call call tables)
