-- ===== src/Monitor/Pass/Loop/Laws.antt =====
-- What holds after any number of passes.
use supercluster.Prelude.{ℕ, ◌≡◌, true, List, [], ◌∷◌, Option}
use supercluster.Prelude.Text.{Str}
use supercluster.Python.Number.{Number}
use supercluster.Monitor.Redis.{Redis}
use supercluster.Monitor.Worker.Kept.{tracked}
use supercluster.Monitor.World.{World, Reply, ok, raised, unfinished, sleep}
use supercluster.Monitor.World.Calls.{IsUp}
use supercluster.Monitor.Network.{Config, Network}
use supercluster.Monitor.Pass.Board.{Board, Clock}
use supercluster.Monitor.Pass.Metrics.{pass}
use supercluster.Monitor.Pass.Kept.{Fine, pass-Fine}
use supercluster.Monitor.Pass.Consistent.Shown.{IsConsistent, pass-IsConsistent}
use supercluster.Monitor.Pass.Loop.{then_sleep, update_loop}

-- A fact about the board and the world that sleeping keeps.
then_sleep-keeps :
    {F Db : Type 0} (P : Board F → World Db → Type 0) (seconds : ℕ)
    (k : Board F → World Db → Reply (Unit {0}) × (Board F × World Db))
    (x : Reply (Unit {0}) × (Board F × World Db))
    → ((b : Board F) (w : World Db) → P b w → P b (sleep seconds w).1)
    → ((b : Board F) (w : World Db) → P b w → P (k b w).1.0 (k b w).1.1)
    → P x.1.0 x.1.1
    → P (then_sleep seconds k x).1.0 (then_sleep seconds k x).1.1
then_sleep-keeps P seconds k (ok _, (b, w)) asleep step h =
    step b (sleep seconds w).1 (asleep b w h)
then_sleep-keeps P seconds k (raised, (b, w)) asleep step h = h
then_sleep-keeps P seconds k (unfinished, (b, w)) asleep step h = h

module _ (n : Number) (float : Str → Option n.F) (r : Redis) (c : Config) (net : Network) where
  open r use {Db, view}

  -- An invariant of a pass and of sleeping is one of the loop.
  pub update_loop-keeps :
      (P : Board n.F → World Db → Type 0) (start : n.F) (seconds fuel : ℕ)
      (clocks : List (Clock n.F)) (b : Board n.F) (w : World Db)
      → ((b : Board n.F) (w : World Db) → P b w → P b (sleep seconds w).1)
      → ((clock : Clock n.F) (b : Board n.F) (w : World Db)
          → P b w
          → P
              (pass n float r c net start clock fuel b w).1.0
              (pass n float r c net start clock fuel b w).1.1)
      → P b w
      → P
          (update_loop n float r c net start seconds fuel clocks b w).1.0
          (update_loop n float r c net start seconds fuel clocks b w).1.1
  unfolding update_loop
  update_loop-keeps P start seconds fuel [] b w asleep step h = h
  update_loop-keeps P start seconds fuel (clock ∷ clocks) b w asleep step h =
      then_sleep-keeps P seconds (update_loop n float r c net start seconds fuel clocks)
        (pass n float r c net start clock fuel b w) asleep
        (λ b' w' h'. update_loop-keeps P start seconds fuel clocks b' w' asleep step h')
        (step clock b w h)

  sleep-Fine : (j : Str) (seconds : ℕ) (w : World Db) → Fine r j w → Fine r j (sleep seconds w).1
  unfolding sleep
  sleep-Fine j seconds w h = h

  -- While Redis answers every command the first time, a job that waited in the job queue, was in
  -- progress or had ended before the loop started still does after any number of passes, or as far
  -- as the bound on the rounds of the retry loop lets them go, whatever the workers and the network
  -- do in between.
  pub update_loop-tracked :
      (j : Str) (start : n.F) (seconds fuel : ℕ) (clocks : List (Clock n.F)) (b : Board n.F)
      (w : World Db)
      → IsUp w
      → tracked j (view w.db) ≡ true
      → tracked j (view (update_loop n float r c net start seconds fuel clocks b w).1.1.db) ≡ true
  update_loop-tracked j start seconds fuel clocks b w up h =
      (update_loop-keeps (λ b w. Fine r j w) start seconds fuel clocks b w
        (λ b w h. sleep-Fine j seconds w h)
        (λ clock b w h. pass-Fine n float r c net j start clock fuel b w h) (up, h)).1

  -- After any number of passes, whatever fails and whatever the workers do: the status is the first
  -- one, or its counts are those of its lists, and a name is not both retirable and that of a
  -- worker with a job; the gauges show the status; and the histograms have observed no more full
  -- durations than entries were taken over, and no more of the others than full ones. All this
  -- provided it held at the start.
  pub update_loop-IsConsistent :
      (x : Str) (start : n.F) (seconds fuel : ℕ) (clocks : List (Clock n.F)) (b : Board n.F)
      (w : World Db)
      → IsConsistent x b
      → IsConsistent x (update_loop n float r c net start seconds fuel clocks b w).1.0
  update_loop-IsConsistent x start seconds fuel clocks b w h =
      update_loop-keeps (λ b w. IsConsistent x b) start seconds fuel clocks b w (λ b w h. h)
        (λ clock b w h. pass-IsConsistent n float x r c net start clock fuel b w h) h
