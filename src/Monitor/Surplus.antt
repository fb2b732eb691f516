-- ===== src/Monitor/Surplus.antt =====
-- Phase 2b of `update_status_and_metrics` of src/MissionParallelCatchup/job_monitor.py: which idle
-- workers are marked as retiring, and which may be removed.
pub mod Spared
pub mod Marks
mod Tests
use supercluster.Prelude.{
  ℕ, zero, suc, ◌+◌, ◌-◌, max, Bool, true, false, not, ◌&&◌, List, [], ◌∷◌, ◌++◌, ltb,
  if◌then◌else◌,
}
use supercluster.Prelude.Text.{Str}
use supercluster.Prelude.Lists.{length, take}
use supercluster.Prelude.Sets.{elem, keep_if, minus, sorted}
use supercluster.Monitor.Redis.{Redis}
use supercluster.Monitor.Redis.Keys.{retiring_key}
use supercluster.Monitor.World.{World, Action, ok, pure, ◌>>=◌, ◌>>◌, ask, tell}
use supercluster.Monitor.Network.{Config, Network, worker_name, pod_exists}

-- The names of the fleet whose numbers are below `n`.
unfoldable pub fleet : Config → ℕ → List Str
fleet c zero = []
fleet c (suc n) = fleet c n ++ worker_name c n ∷ []

-- The workers that own no job and are not marked.
unfoldable pub candidates : Config → List Str → List Str → List Str
unfolding fleet
candidates c active retiring =
    sorted (keep_if (λ w. not (elem w active) && not (elem w retiring)) (fleet c c.worker_count))

-- How many workers stay unmarked, for the number of outstanding jobs.
unfoldable pub keep : Config → ℕ → ℕ
keep c outstanding = max outstanding c.min_unmarked_workers

module _ {Db : Type 0} (c : Config) (net : Network) where
  -- `[w for w in candidates if pod_exists(w)]`
  unfoldable pub existing : List Str → Action Db (List Str)
  existing [] = pure []
  existing (w ∷ ws) = pod_exists c net w >>= λ found.
      existing ws >>= λ rest. pure (if found then w ∷ rest else rest)

  -- `to_mark`, from the number of busy workers that are up and unmarked, the number of workers to
  -- keep, and the candidates. The subtraction on ℕ stops at 0 as the source's `max(0, ...)` does.
  unfoldable pub choose_to_mark : ℕ → ℕ → List Str → Action Db (List Str)
  unfolding existing
  choose_to_mark live_busy kept ws =
      if ltb kept (live_busy + length ws)
      then (existing ws >>= λ idle. pure (take (live_busy + length idle - kept) idle))
      else pure []

module _ (r : Redis) where
  open r use {Db, sadd}

  -- SADD with several values adds each of them.
  unfoldable pub sadd_all : List Str → Db → Db
  sadd_all [] db = db
  sadd_all (w ∷ ws) db = sadd_all ws (sadd retiring_key w db)

  -- `if to_mark: redis_client.sadd(RETIRING, *to_mark)`
  unfoldable pub send_marks : List Str → Action Db (Unit {0})
  unfolding sadd_all
  send_marks [] = pure tt
  send_marks (w ∷ ws) = tell r (sadd_all (w ∷ ws))

module _ (r : Redis) (c : Config) (net : Network) where
  open r use {Db, smembers}

  -- Phase 2b, from the workers that own jobs, those of them that are down, and the number of
  -- outstanding jobs. It gives `retirable`.
  unfoldable pub mark_surplus : List Str → List Str → ℕ → Action Db (List Str)
  unfolding send_marks
  mark_surplus active down outstanding = do
    retiring ← ask r (smembers retiring_key)
    to_mark ←
        choose_to_mark c net (length (minus (minus active retiring) down)) (keep c outstanding)
          (candidates c active retiring)
    send_marks r to_mark
    pure (sorted (minus retiring active))
