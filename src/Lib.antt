-- ===== src/Lib.antt =====
-- AI-Lab OS is a business operating system in Python: durable facts and states, with runtimes that
-- schedule, claim and run work on them. This library models the parts below and proves what makes
-- them correct. Paths are from the repository's root.
--
-- Files and code.
--   Prelude and its children: tests, lists, signed integers, texts and outcomes that all files share.
--   Sql and its children: the SQL statements that the repositories use, over a table as a list of
--   rows, and their laws. The registry, a dict of jobs by their ids, uses them too.
--   Errors: core/errors (codes.py and the FailureInfo of models.py; Redact and Details are the
--   sanitizers of models.py, with `pattern.sub` and its two patterns written out; Mapping is mapping.py).
--   Scheduler/Models: core/scheduler/models.py. Scheduler/Cron and Scheduler/Trigger:
--   core/scheduler/triggers.py (`_cron_steps` is Cron/Parse, `_next_cron` is Cron/Next).
--   Scheduler/Rows: the tables and conversions of core/scheduler/persistence.py. Scheduler/Store:
--   the methods of its SchedulerPersistence (Store/Jobs for jobs, Store/Claims for leases).
--   Store/Steps has the operations of any number of runtimes as one data type, in the order of
--   their transactions, and `apply` and `apply_all` run them; Store/Loading is load_jobs.
--   Scheduler/Faults: core/scheduler/exceptions.py. Scheduler/Registry: core/scheduler/registry.py,
--   with the synchronization of core/scheduler/runtime.py in Registry/Sync.
--   Scheduler/Runtime: SchedulerRuntime of core/scheduler/runtime.py (Runtime/Tick is _tick and
--   _dispatch_due_job, Runtime/Run is _run_job with JobExecutor.execute of core/scheduler/jobs.py,
--   Runtime/Methods the methods on jobs, Runtime/Health the failure counter and the flags of lost events). A tick claims jobs in
--   the store, the tasks that it starts are run and finalized there; Runtime/Delivery puts the two
--   together.
--   Task: core/task (State is state.py, Dependencies is dependencies.py, Planner is planner.py, Run is
--   runtime.py). Workflow: core/workflow/state.py. System: core/system/lifecycle.py and the check of
--   core/system/admission.py, whose scopes of asyncio tasks are System/Admission.
--   Machine: any number of transitions of a machine.
--
--   Json: the JSON values of the metadata that services keep. UserTasks: core/user_tasks (Models is
--   models.py, Spaces is workspace.py, Table and Listing are repository.py, Service and Legacy are
--   service.py). UserTasks/Spec says what the repository promises over a map from ids to tasks, and
--   UserTasks/Refines that it does; UserTasks/Calls has the calls of any number of callers.
--   TimeText: datetimes as the texts that both repositories compare.
--   WaitingFor: core/waiting_for (Models is models.py, Store and Listing are repository.py, Service is
--   service.py). WaitingFor/Writes says what a write of the repository does, WaitingFor/History what
--   the table of events tells of each item; Service/Operations puts the methods together;
--   Service/Written has how a method ends, which Told and Failed use, and Versions what it changes.
--
-- Choices. A datetime is the number of microseconds since 0001-01-01 in UTC, since the models refuse
-- naive datetimes and convert the others; the SQL of the scheduler compares ISO texts in UTC, which
-- are in the order of the instants; the lists of user tasks and of waiting-for items compare texts of
-- two kinds, which are not, and there the texts are modelled. JSON columns hold values, with
-- json.dumps and json.loads inverse on them. Python integers that may be negative are ℤ, the others ℕ.
-- The loops over range take fuel: 60 for minutes and 24 for hours, the ends of the ranges, enough for
-- steps of at least 1. The end of datetime is written out in the search for the next match, and where a
-- job gets its next instant, whose OverflowError is an outcome. A handler may also be cancelled: then
-- `execute` and `_run_job` pass the CancelledError on.
--
-- One step of a runtime, such as a tick, runs without another step of the same runtime in between; the
-- steps of other runtimes are the operations on the store. The clock, fresh ids and tokens, what a
-- handler does, and the failure that the scheduler gets of failure_from_exception are arguments; so
-- are the letters beyond ASCII that `\w` takes in a pattern. In a run of a task the calls that other
-- coroutines make while a workflow is awaited are an argument, and so is the end of each attempt; the
-- loop over attempts recurses on the retries that are left.
--
-- Not modelled: the start and shutdown of the runtimes, the loop that renews claims (the renewal
-- itself is in Store/Claims), the result values of runs and workflows; rows of the scheduler's tables that
-- a validator or a JSON parser refuses when they are loaded; opening, closing and migrating
-- the SQLite connection, logging and the event bus, which are I/O; what the lifecycle coordinator of
-- the user task service does; the services on reminders, the inbox, the agenda, interactions and
-- reviews, and the coordination of agents; memory, knowledge, providers and tools, which call
-- third-party services; the HTTP API, the command line and the applications.
pub mod Prelude
pub mod Sql
pub mod Errors
pub mod Scheduler
pub mod Task
pub mod Machine
pub mod System
pub mod Workflow
pub mod Json
pub mod UserTasks
pub mod TimeText
pub mod WaitingFor
