-- ===== src/Scheduler/Cron.antt =====
-- `TriggerEngine._cron_steps` and `TriggerEngine._next_cron` of core/scheduler/triggers.py.
pub mod Parse
pub mod Scan
pub mod Next
