-- ===== src/Task.antt =====
-- core/task: the state machine of a task, the dependencies between tasks, and the run of a task's
-- workflows.
pub mod State
pub mod Dependencies
pub mod Planner
pub mod Run
mod Examples
