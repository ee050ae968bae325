-- ===== src/Jobs.antt =====
-- src/job.h and src/job.cpp: processes, jobs and the tables that track them.
pub mod Process
pub mod ProcTable
pub mod Job
pub mod JobTable
pub mod Reap
pub mod Wait
mod Tests
