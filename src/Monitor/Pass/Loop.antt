-- ===== src/Monitor/Pass/Loop.antt =====
-- The endless loop of `update_status_and_metrics` of src/MissionParallelCatchup/job_monitor.py, for
-- as many passes as there are readings of the clock.
pub mod Laws
mod Tests
use supercluster.Prelude.{ℕ, List, [], ◌∷◌, Option}
use supercluster.Prelude.Text.{Str}
use supercluster.Python.Number.{Number}
use supercluster.Monitor.Redis.{Redis}
use supercluster.Monitor.World.{World, Reply, ok, raised, unfinished, sleep}
use supercluster.Monitor.Network.{Config, Network}
use supercluster.Monitor.Pass.Board.{Board, Clock}
use supercluster.Monitor.Pass.Metrics.{pass}

module _ {F : Type 0} {Db : Type 0} where
  -- The thread sleeps after a pass, also after one that an exception ended.
  abbrev pub then_sleep :
      ℕ
      → (Board F → World Db → Reply (Unit {0}) × (Board F × World Db))
      → Reply (Unit {0}) × (Board F × World Db)
      → Reply (Unit {0}) × (Board F × World Db)
  then_sleep seconds k (ok _, (b, w)) = k b (sleep seconds w).1
  then_sleep seconds k (raised, (b, w)) = (raised, (b, w))
  then_sleep seconds k (unfinished, (b, w)) = (unfinished, (b, w))

module _ (n : Number) (float : Str → Option n.F) (r : Redis) (c : Config) (net : Network) where
  open r use {Db}

  -- `start` is `mission_start_time`, `seconds` is LOGGING_INTERVAL_SECONDS.
  unfoldable pub update_loop :
      n.F
      → ℕ
      → ℕ
      → List (Clock n.F)
      → Board n.F
      → World Db
      → Reply (Unit {0}) × (Board n.F × World Db)
  unfolding pass
  update_loop start seconds fuel [] b w = (ok tt, (b, w))
  update_loop start seconds fuel (clock ∷ clocks) b w =
      then_sleep seconds (update_loop start seconds fuel clocks)
        (pass n float r c net start clock fuel b w)
