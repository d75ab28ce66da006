-- ===== src/Worker.antt =====
-- internal/jobs/worker.go: the loop that leases a job, processes it and settles it.
pub mod Effects
pub mod Reading
pub mod Process
pub mod Backtesting
