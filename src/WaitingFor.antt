-- ===== src/WaitingFor.antt =====
-- core/waiting_for: what users wait for from others, with its append-only history.
pub mod Models
pub mod Store
pub mod Calls
pub mod Writes
pub mod History
pub mod Service
pub mod Revisions
pub mod Listing
mod Examples
