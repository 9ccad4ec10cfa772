-- ===== src/Scheduler/Examples.antt =====
-- The theorems on the scheduler at concrete inputs.
mod Triggers
mod Stores
mod Runtimes
