-- ===== src/Monitor/Pass.antt =====
-- One pass of the loop of `update_status_and_metrics` of
-- src/MissionParallelCatchup/job_monitor.py, up to the status that it publishes.
pub mod Board
pub mod Metrics
pub mod Consistent
pub mod Bounded
pub mod Loop
pub mod Keeps
pub mod Kept
pub mod Answered
pub mod Finished
pub mod Sealed
pub mod Complete
pub mod EarlyEnd
pub mod Quiet
pub mod Alone
pub mod Unstuck
pub mod Undisturbed
mod Tests
use supercluster.Prelude.{
  ℕ, zero, suc, ◌+◌, Bool, true, false, not, ◌&&◌, List, [], ◌∷◌, map, ltb, ◌==◌, if◌then◌else◌,
}
use supercluster.Prelude.Text.{Str}
use supercluster.Prelude.Lists.{length}
use supercluster.Prelude.Sets.{keep_if, distinct}
use supercluster.Prelude.Dict.{Dict, has_key}
use supercluster.Monitor.Redis.{Redis}
use supercluster.Monitor.Redis.Keys.{job_queue, progress_queue, success_queue, failed_queue}
use supercluster.Monitor.World.{World, Action, ok, pure, ◌>>=◌, ◌>>◌, ask, tell, count_retry}
use supercluster.Monitor.Network.{Config, Network, ping_worker, ping_retries}
use supercluster.Monitor.Requeue.{requeue_job, retry_jobs_in_progress}
use supercluster.Monitor.Surplus.{mark_surplus}

-- What phase 1 reads. The order of the failed jobs is the server's.
pub record Queues : Type 0 where
  pub remain : ℕ
  pub succeeded : ℕ
  pub failed : List Str
  pub in_progress : List Str
  pub owners : Dict Str

-- A worker and whether it answered.
abbrev pub WorkerStatus : Type 0
WorkerStatus = Str × Bool

-- `status`
pub record Status : Type 0 where
  pub num_remain : ℕ
  pub queue_remain_count : ℕ
  pub queue_succeeded_count : ℕ
  pub queue_failed_count : ℕ
  pub queue_in_progress_count : ℕ
  pub jobs_failed : List Str
  pub jobs_in_progress : List Str
  pub workers : List WorkerStatus
  pub retirable : List Str
  pub workers_up : ℕ
  pub workers_down : ℕ

-- The workers of `workers` that answered, or that did not.
unfoldable pub with_status : Bool → List WorkerStatus → List Str
with_status b [] = []
with_status b ((w, up) ∷ l) =
    let rest = with_status b l in if (if b then up else not up) then w ∷ rest else rest

-- The jobs that nobody owns.
unfoldable pub orphans : Queues → List Str
orphans q = keep_if (λ job. not (has_key job q.owners)) q.in_progress

-- `set(job_owners.values())`, in the order in which Python runs through it
unfoldable pub active_workers : Network → Dict Str → List Str
active_workers net owners = net.set_order (distinct (map (λ p. p.1) owners))

module _ (r : Redis) (c : Config) (net : Network) where
  open r use {Db, llen, lrange, scard, smembers, hgetall, hdel}

  -- Phase 1
  unfoldable pub read_queues : Action Db Queues
  read_queues = do
    remain ← ask r (llen job_queue)
    succeeded ← ask r (scard success_queue)
    failed ← ask r (smembers failed_queue)
    in_progress ← ask r (lrange progress_queue)
    owners ← ask r hgetall
    pure (record {
      remain = remain;
      succeeded = succeeded;
      failed = failed;
      in_progress = in_progress;
      owners = owners;
    })

  unfoldable pub requeue_all : List Str → Action Db (Unit {0})
  requeue_all [] = pure tt
  requeue_all (job ∷ jobs) = requeue_job r job >> (count_retry >> requeue_all jobs)

  -- After a requeue the two lists are read again.
  unfoldable pub requeue_rest : Queues → List Str → Action Db Queues
  unfolding requeue_all
  requeue_rest q [] = pure q
  requeue_rest q (job ∷ jobs) =
      requeue_all (job ∷ jobs)
      >> (ask r (lrange progress_queue) >>= λ in_progress.
          (ask r (llen job_queue) >>= λ remain.
          pure (record q { in_progress = in_progress; remain = remain })))

  -- Phase 1b
  unfoldable pub requeue_orphans : Queues → Action Db Queues
  unfolding orphans requeue_rest
  requeue_orphans q = requeue_rest q (orphans q)

  -- Phase 2
  unfoldable pub check_workers : List Str → Action Db (List WorkerStatus)
  check_workers [] = pure []
  check_workers (pod ∷ pods) =
      ping_worker c net pod 1 >>= λ up. (check_workers pods >>= λ rest. pure ((pod, up) ∷ rest))

  -- The loop that pings the workers again and stops at the first that answers.
  unfoldable pub any_recovered : List Str → Action Db Bool
  any_recovered [] = pure false
  any_recovered (pod ∷ pods) =
      ping_worker c net pod ping_retries >>= λ up. (if up then pure true else any_recovered pods)

  unfoldable pub drop_owners : Dict Str → Action Db (Unit {0})
  drop_owners [] = pure tt
  drop_owners ((job, _) ∷ rest) = tell r (hdel job) >> drop_owners rest

  -- `workers_down > 0 and workers_up == 0 and queue_in_progress_count > 0`
  unfoldable pub looks_stuck : List WorkerStatus → List Str → Bool
  unfolding with_status
  looks_stuck statuses in_progress =
      ltb 0 (length (with_status false statuses))
      && (length (with_status true statuses) == 0 && ltb 0 (length in_progress))

  -- Phase 3, with a bound on the rounds of the retry loop.
  unfoldable pub retry_stuck : ℕ → Bool → List Str → Dict Str → Action Db (Unit {0})
  unfolding any_recovered drop_owners
  retry_stuck fuel false active owners = pure tt
  retry_stuck fuel true active owners = any_recovered active >>= λ recovered.
      (if recovered then pure tt else retry_jobs_in_progress r fuel >> drop_owners owners)

  abbrev pub status_of : Queues → List WorkerStatus → List Str → Status
  status_of q statuses retirable = record {
    num_remain = q.remain;
    queue_remain_count = q.remain;
    queue_succeeded_count = q.succeeded;
    queue_failed_count = length q.failed;
    queue_in_progress_count = length q.in_progress;
    jobs_failed = q.failed;
    jobs_in_progress = q.in_progress;
    workers = statuses;
    retirable = retirable;
    workers_up = length (with_status true statuses);
    workers_down = length (with_status false statuses);
  }

  -- Phases 2, 2b and 3, and the status.
  unfoldable pub check_and_retry : ℕ → Queues → Action Db Status
  unfolding active_workers check_workers with_status looks_stuck retry_stuck
  check_and_retry fuel q =
      let active = active_workers net q.owners in
      do
        statuses ← check_workers active
        retirable ←
            mark_surplus r c net active (with_status false statuses)
              (q.remain + length q.in_progress)
        retry_stuck fuel (looks_stuck statuses q.in_progress) active q.owners
        pure (status_of q statuses retirable)

  unfoldable pub read_status : ℕ → Action Db Status
  unfolding read_queues requeue_orphans check_and_retry
  read_status fuel = do q ← read_queues; q' ← requeue_orphans q; check_and_retry fuel q'
