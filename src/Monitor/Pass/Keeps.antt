-- ===== src/Monitor/Pass/Keeps.antt =====
-- Rules for an invariant of the actions of a pass, and what it has to satisfy at the commands on the
-- store.
pub mod Retry
pub mod Phases
use supercluster.Prelude.{
  ℕ, zero, suc, ◌+◌, ◌≡◌, Bool, true, false, List, [], ◌∷◌, ltb, if◌then◌else◌,
}
use supercluster.Prelude.Text.{Str}
use supercluster.Prelude.Lists.{length}
use supercluster.Prelude.Dict.{Dict}
use supercluster.Monitor.Redis.{Redis}
use supercluster.Monitor.Redis.Keys.{
  job_queue, progress_queue, success_queue, failed_queue, retiring_key,
}
use supercluster.Monitor.World.{
  World, Reply, ok, raised, unfinished, Action, next, pure, ◌>>=◌, ◌>>◌, ask, tell, count_retry,
  sleep,
}
use supercluster.Monitor.Network.{
  Config, Network, request, ping_attempts, ping_worker, pod_exists, ping_delay,
}
use supercluster.Monitor.Requeue.{requeue_job, retry_jobs_in_progress}
use supercluster.Monitor.Surplus.{existing, choose_to_mark, sadd_all, send_marks, mark_surplus}
use supercluster.Monitor.Pass.{
  Queues, Status, orphans, active_workers, read_queues, requeue_all, requeue_rest, requeue_orphans,
  check_workers, any_recovered, drop_owners, retry_stuck, check_and_retry, read_status, looks_stuck,
  status_of,
}

module _ (r : Redis) (Good Failed Stuck : World r.Db → Type 0) where
  open r use {Db}

  -- What the world is like after a value, after an exception, and when the fuel has run out.
  abbrev pub Holds : {A : Type 0} → Reply A × World Db → Type 0
  Holds (ok a, w) = Good w
  Holds (raised, w) = Failed w
  Holds (unfinished, w) = Stuck w

  abbrev pub Keeps : {A : Type 0} → Action Db A → Type 0
  Keeps m = (w : World Db) → Good w → Holds (m w)

  pub Holds-next :
      {A B : Type 0} (f : A → Action Db B) (x : Reply A × World Db)
      → Holds x
      → ((a : A) → Keeps (f a))
      → Holds (next f x)
  Holds-next f (ok a, w) h k = k a w h
  Holds-next f (raised, w) h k = h
  Holds-next f (unfinished, w) h k = h

  pub Keeps-bind :
      {A B : Type 0} (m : Action Db A) (f : A → Action Db B)
      → Keeps m
      → ((a : A) → Keeps (f a))
      → Keeps (m >>= f)
  Keeps-bind m f hm hf w h = Holds-next f (m w) (hm w h) hf

  pub Keeps-if :
      {A : Type 0} (b : Bool) (m k : Action Db A) → Keeps m → Keeps k → Keeps (if b then m else k)
  Keeps-if true m k hm hk = hm
  Keeps-if false m k hm hk = hk

-- What a pass needs of the commands on the store, for a bound on the rounds of the retry loop, and
-- of the counters.
pub record Primitives (r : Redis) (Good Failed Stuck : World r.Db → Type 0) (fuel : ℕ)
    : Type 1 where
  pub aside :
      (w : World r.Db) (asked slept : ℕ) → Good w → Good (record w { asked = asked; slept = slept })
  pub counted : (w : World r.Db) → Good w → Good (record w { retried = w.retried + 1 })
  pub ask_keeps : {A : Type 0} (f : r.Db → A) → Keeps r Good Failed Stuck (ask r f)
  pub requeue_keeps : (x : Str) → Keeps r Good Failed Stuck (requeue_job r x)
  pub sadd_keeps : (ws : List Str) → Keeps r Good Failed Stuck (tell r (sadd_all r ws))
  pub hdel_keeps : (x : Str) → Keeps r Good Failed Stuck (tell r (r.hdel x))
  pub retry_keeps : Keeps r Good Failed Stuck (retry_jobs_in_progress r fuel)
