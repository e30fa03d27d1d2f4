-- ===== src/Signup.antt =====
-- internal/signup: the signup sheet, its deadline, the queue of late requests, and the schedule.
pub mod Types
pub mod Policy
pub mod Store
pub mod Notify
pub mod Write
pub mod Late
pub mod Schedule
pub mod Reminder
pub mod Runner
pub mod Outbox
mod Examples
