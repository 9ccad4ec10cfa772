-- ===== src/UserTasks/Calls.antt =====
-- Any number of calls of the repository, of any callers, in the order of their transactions.
use ai_lab_os.Prelude.{Bool, List, [], ◌∷◌, String}
use ai_lab_os.UserTasks.Table as Repository
use ai_lab_os.UserTasks.Table.{TaskRow, get_task}
use ai_lab_os.UserTasks.Spec.{Call, create, get, update, Answer}

module _ (is_zone : String → Bool) where
  unfoldable pub run_call : Call → List TaskRow → Answer × List TaskRow
  unfolding Repository.create Repository.update get_task
  run_call (create task) table = Repository.create task table
  run_call (get key task_id) table = (get_task is_zone key task_id table, table)
  run_call (update key task revision) table = Repository.update key task revision table

  unfoldable pub run_calls : List Call → List TaskRow → List Answer × List TaskRow
  unfolding run_call
  run_calls [] table = ([], table)
  run_calls (call ∷ calls) table =
      let (answer, next) = run_call call table in
      let (answers, last) = run_calls calls next in (answer ∷ answers, last)
