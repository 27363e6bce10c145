-- ===== src/Schedule.antt =====
-- internal/scheduletooling: the limit on the concurrent runs of a job, and the scheduler that follows
-- the configurations of its jobs.
mod Tests
pub mod Job
pub mod Scheduler
