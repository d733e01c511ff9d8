-- ===== src/Scheduler.antt =====
-- automation_file/scheduler: the records of what the scheduler has fired.
pub mod RunHistory
