-- ===== src/Scheduler.antt =====
-- scheduler/scheduler.go: the cron expressions, and the jobs with their guard.
pub mod Cron
pub mod Jobs
mod Tests
