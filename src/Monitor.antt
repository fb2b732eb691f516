-- ===== src/Monitor.antt =====
-- src/MissionParallelCatchup/job_monitor.py, with the worker's side of the queues from
-- src/MissionParallelCatchup/parallel_catchup_helm/files/worker.sh.
pub mod Redis
pub mod Worker
pub mod World
pub mod Network
pub mod Surplus
pub mod Requeue
pub mod Jobs
pub mod Pass
pub mod Settings
pub mod Http
