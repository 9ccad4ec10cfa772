-- ===== src/UserTasks.antt =====
-- core/user_tasks: the tasks that users see, their repository and their service.
pub mod Models
pub mod Spaces
pub mod Table
pub mod Spec
pub mod Listing
pub mod Calls
pub mod Refines
pub mod Service
pub mod Legacy
mod Examples
