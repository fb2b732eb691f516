-- ===== src/Monitor/Pass/Keeps/Retry.antt =====
-- The retry loop keeps what its commands keep.
use supercluster.Prelude.{ℕ, zero, suc, ◌+◌, Bool, true, false, ltb}
use supercluster.Monitor.Redis.{Redis}
use supercluster.Monitor.Redis.Keys.{job_queue, progress_queue}
use supercluster.Monitor.World.{World, Action, pure, ◌>>=◌, ◌>>◌, call, ask, count_retry}
use supercluster.Monitor.Requeue.{retry_jobs_in_progress}
use supercluster.Monitor.Pass.Keeps.{Keeps, Keeps-bind}

module _ (r : Redis) (Good Failed Stuck : World r.Db → Type 0)
    (stops : (w : World r.Db) → Good w → Stuck w)
    (asks : Keeps r Good Failed Stuck (ask r (r.llen progress_queue)))
    (moves : Keeps r Good Failed Stuck (call r (r.lmove progress_queue job_queue)))
    (counts : (w : World r.Db) → Good w → Good (record w { retried = w.retried + 1 })) where
  open r use {Db}

  count_retry-Keeps : Keeps r Good Failed Stuck count_retry
  unfolding count_retry
  count_retry-Keeps w h = counts w h

  -- One round, once it is known whether a job is in progress.
  round-Keeps :
      (fuel : ℕ) (waits : Bool)
      → Keeps r Good Failed Stuck (retry_jobs_in_progress r fuel)
      → Keeps r Good Failed Stuck (elim waits as (λ _. Action Db (Unit {0})) [
        | true ↦ call r (r.lmove progress_queue job_queue) >>= λ job.
            count_retry >> retry_jobs_in_progress r fuel
        | false ↦ pure tt
      ])
  round-Keeps fuel true again =
      Keeps-bind r Good Failed Stuck (call r (r.lmove progress_queue job_queue)) _ moves
        (λ _. Keeps-bind r Good Failed Stuck count_retry _ count_retry-Keeps (λ _. again))
  round-Keeps fuel false again = λ w h. h

  pub retry-Keeps : (fuel : ℕ) → Keeps r Good Failed Stuck (retry_jobs_in_progress r fuel)
  unfolding retry_jobs_in_progress
  retry-Keeps zero = stops
  retry-Keeps (suc fuel) =
      Keeps-bind r Good Failed Stuck (ask r (r.llen progress_queue)) _ asks
        (λ n. round-Keeps fuel (ltb 0 n) (retry-Keeps fuel))
