-- ===== src/Monitor/Requeue.antt =====
-- `requeue_job` and `retry_jobs_in_progress` of src/MissionParallelCatchup/job_monitor.py.
pub mod Kept
pub mod Order
pub mod Loss
mod Tests
use supercluster.Prelude.{ℕ, zero, suc, Bool, true, false, ltb, ◌==◌, if◌then◌else◌}
use supercluster.Prelude.Text.{Str}
use supercluster.Monitor.Redis.{Redis}
use supercluster.Monitor.Redis.Keys.{job_queue, progress_queue}
use supercluster.Monitor.World.{
  World, Action, unfinished, pure, ◌>>=◌, ◌>>◌, call, ask, tell, count_retry,
}

module _ (r : Redis) where
  open r use {Db, lrem, lpush, hdel, llen, lmove}

  unfoldable pub requeue_job : Str → Action Db (Unit {0})
  requeue_job job_key = do
    removed ← call r (lrem progress_queue job_key)
    if removed == 1 then tell r (lpush job_queue job_key) else pure tt
    tell r (hdel job_key)

  -- The loop, with a bound on its rounds.
  unfoldable pub retry_jobs_in_progress : ℕ → Action Db (Unit {0})
  retry_jobs_in_progress zero = λ w. (unfinished, w)
  retry_jobs_in_progress (suc fuel) = do
    waiting ← ask r (llen progress_queue)
    elim (ltb 0 waiting) [
      | true ↦ call r (lmove progress_queue job_queue) >>= λ job.
          count_retry >> retry_jobs_in_progress fuel
      | false ↦ pure tt
    ]
