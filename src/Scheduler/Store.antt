-- ===== src/Scheduler/Store.antt =====
-- `SchedulerPersistence` of core/scheduler/persistence.py. Each method is one transaction on the
-- connection: it returns its result and the database after it, and an exception comes with the
-- database as the rollback leaves it. The connection is taken to be initialized. A datetime in
-- UTC is compared as its ISO text is: in the order of the instants.
pub mod Database
pub mod Jobs
pub mod Claims
pub mod Steps
pub mod Loading
pub mod Changes
pub mod Invariant
pub mod Revisions
pub mod Absent
pub mod LostUpdate
pub mod Unheld
pub mod Fencing
pub mod Claiming
pub mod Written
pub mod Ownership
pub mod Opened
pub mod Completion
