-- ===== src/Scheduler.antt =====
-- core/scheduler: durable jobs, their triggers, and the runtime that claims and runs them.
pub mod Models
pub mod Cron
pub mod Trigger
pub mod Rows
pub mod Store
pub mod Faults
pub mod Registry
pub mod Runtime
pub mod Samples
mod Examples
