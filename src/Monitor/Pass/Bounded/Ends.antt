-- ===== src/Monitor/Pass/Bounded/Ends.antt =====
-- With enough fuel a pass ends, and so does the loop for any number of passes, whatever the workers
-- do and whatever fails.
use supercluster.Prelude.{
  ℕ, ◌+◌, ◌<◌, ◌≤◌, ◌≡◌, refl, ap, ◌∙◌, arith, List, [], ◌∷◌, ◌==◌, Option, if◌then◌else◌,
}
use supercluster.Prelude.Text.{Str}
use supercluster.Prelude.Lists.{length}
use supercluster.Monitor.Redis.{Redis}
use supercluster.Monitor.Redis.Keys.{View, job_queue, progress_queue, retiring_key}
use supercluster.Monitor.World.{World, Reply, ok, raised, unfinished, Action, pure, call, tell}
use supercluster.Monitor.Requeue.{requeue_job}
use supercluster.Monitor.Surplus.{sadd_all}
use supercluster.Monitor.Pass.Keeps.{Keeps, Keeps-bind, Keeps-if, Primitives}
use supercluster.Python.Number.{Number}
use supercluster.Monitor.Redis.Keys.{metrics_key}
use supercluster.Monitor.World.{sleep}
use supercluster.Monitor.Network.{Config, Network}
use supercluster.Monitor.Pass.{Status, read_status}
use supercluster.Monitor.Pass.Board.{Board, Clock, publish}
use supercluster.Monitor.Pass.Metrics.{after_spop, after_status, pass}
use supercluster.Monitor.Pass.Keeps.Phases.{read_status-Keeps}
use supercluster.Monitor.Pass.Loop.{then_sleep, update_loop}
use supercluster.Monitor.Pass.Bounded.{running, work, remove_last-length}
use supercluster.Monitor.Pass.Bounded.Returns.{Never, Returns, call-Returns, retry-Returns}

module _ (r : Redis) (k : ℕ) where
  open r use {Db, view, llen, lmove, lrem, lpush, hdel}

  abbrev pub AtMost : World Db → Type 0
  AtMost w = work r w ≤ k

  abbrev Bounded : {A : Type 0} → Action Db A → Type 0
  Bounded m = Keeps r AtMost AtMost (Never r) m

  sadd_all-running : (ws : List Str) (db : Db) → running r (sadd_all r ws db) ≡ running r db
  unfolding sadd_all
  sadd_all-running [] db = refl
  sadd_all-running (x ∷ ws) db =
      sadd_all-running ws (r.sadd retiring_key x db)
      ∙ ap (λ (v : View). length v.progress) (r.sadd_view retiring_key x db)

  requeue-Bounded : (x : Str) → Bounded (requeue_job r x)
  unfolding requeue_job
  requeue-Bounded x =
      Keeps-bind r AtMost AtMost (Never r) (call r (lrem progress_queue x)) _
        (call-Returns r (lrem progress_queue x) k (λ db. omega (
          arith,
          ap (λ (v : View). length v.progress) (r.lrem_view progress_queue x db),
          remove_last-length x (view db).progress,
        )))
        (λ n.
          Keeps-bind r AtMost AtMost (Never r)
            (if n == 1 then tell r (lpush job_queue x) else pure tt) _
            (Keeps-if r AtMost AtMost (Never r) (n == 1) (tell r (lpush job_queue x)) (pure tt)
              (call-Returns r (λ db. (tt, lpush job_queue x db)) k
                (λ db.
                  omega
                    (arith, ap (λ (v : View). length v.progress) (r.lpush_view job_queue x db))))
              (λ w h. h))
            (λ _. hdel-Bounded))
    where
      hdel-Bounded : Bounded (tell r (hdel x))
      hdel-Bounded =
          call-Returns r (λ db. (tt, hdel x db)) k
            (λ db. omega (arith, ap (λ (v : View). length v.progress) (r.hdel_view x db)))

  pub bounded-Primitives : (fuel : ℕ) → k < fuel → Primitives r AtMost AtMost (Never r) fuel
  bounded-Primitives fuel l = record {
    aside = λ w asked slept h. h;
    counted = λ w h. h;
    ask_keeps = λ f. call-Returns r (λ db. (f db, db)) k (λ db. omega arith);
    requeue_keeps = requeue-Bounded;
    sadd_keeps = λ ws.
        call-Returns r (λ db. (tt, sadd_all r ws db)) k
          (λ db. omega (arith, sadd_all-running ws db));
    hdel_keeps = λ x.
        call-Returns r (λ db. (tt, hdel x db)) k
          (λ db. omega (arith, ap (λ (v : View). length v.progress) (r.hdel_view x db)));
    retry_keeps = λ w h. retry-Returns r fuel k w h l;
  }

module _ (n : Number) (float : Str → Option n.F) (r : Redis) (c : Config) (net : Network) where
  open r use {Db, view}

  -- The pass or the loop has ended, and at most `k` is left.
  abbrev Over : ℕ → Reply (Unit {0}) × (Board n.F × World Db) → Type 0
  Over k x = (x.0 ≡ ok tt) × (work r x.1.1 ≤ k)

  spop-Over :
      (k : ℕ) (b : Board n.F) (x : Reply (List Str) × World Db)
      → Returns r k x
      → Over k (after_spop n float r c net b x)
  spop-Over k b (ok new, w) h = (refl, h)
  spop-Over k b (raised, w) h = (refl, h)
  spop-Over k b (unfinished, w) h = absurd h

  status-Over :
      (k : ℕ) (start : n.F) (clock : Clock n.F) (b : Board n.F) (x : Reply Status × World Db)
      → Returns r k x
      → Over k (after_status n float r c net start clock b x)
  status-Over k start clock b (ok s, w) h =
      spop-Over k (publish n start clock s b) (call r (r.spop metrics_key 1000) w) (
        call-Returns r (r.spop metrics_key 1000) k
          (λ db.
            omega (arith, ap (λ (v : View). length v.progress) (r.spop_view metrics_key 1000 db)))
          w h)
  status-Over k start clock b (raised, w) h = (refl, h)
  status-Over k start clock b (unfinished, w) h = absurd h

  pass-Over :
      (start : n.F) (clock : Clock n.F) (fuel k : ℕ) (b : Board n.F) (w : World Db)
      → work r w ≤ k
      → k < fuel
      → Over k (pass n float r c net start clock fuel b w)
  unfolding pass
  pass-Over start clock fuel k b w h l = status-Over k start clock b (read_status r c net fuel w) (
      read_status-Keeps r (AtMost r k) (AtMost r k) (Never r) fuel (bounded-Primitives r k fuel l) c
        net w h)

  then_sleep-Over :
      (seconds k : ℕ) (again : Board n.F → World Db → Reply (Unit {0}) × (Board n.F × World Db))
      (x : Reply (Unit {0}) × (Board n.F × World Db))
      → Over k x
      → ((b : Board n.F) (w : World Db) → work r w ≤ k → Over k (again b w))
      → Over k (then_sleep seconds again x)
  unfolding sleep
  then_sleep-Over seconds k again (ok _, (b, w)) (e, h) g =
      g b (record w { slept = w.slept + seconds }) h
  then_sleep-Over seconds k again (raised, (b, w)) (e, h) g = absurd cc
  then_sleep-Over seconds k again (unfinished, (b, w)) (e, h) g = absurd cc

  loop-Over :
      (start : n.F) (seconds fuel k : ℕ) (clocks : List (Clock n.F)) (b : Board n.F) (w : World Db)
      → work r w ≤ k
      → k < fuel
      → Over k (update_loop n float r c net start seconds fuel clocks b w)
  unfolding update_loop
  loop-Over start seconds fuel k [] b w h l = (refl, h)
  loop-Over start seconds fuel k (clock ∷ clocks) b w h l =
      then_sleep-Over seconds k (update_loop n float r c net start seconds fuel clocks)
        (pass n float r c net start clock fuel b w) (pass-Over start clock fuel k b w h l)
        (λ b' w' h'. loop-Over start seconds fuel k clocks b' w' h' l)

  -- If the fuel of the retry loop is more than the jobs in progress at the start and all the steps
  -- that the workers take together, the loop gets through every pass, whatever the workers do in
  -- their steps, whatever the network answers and whichever commands fail.
  pub update_loop-returns :
      (start : n.F) (seconds fuel : ℕ) (clocks : List (Clock n.F)) (b : Board n.F) (w : World Db)
      → work r w < fuel
      → (update_loop n float r c net start seconds fuel clocks b w).0 ≡ ok tt
  update_loop-returns start seconds fuel clocks b w l =
      (loop-Over start seconds fuel (work r w) clocks b w (omega arith) l).0
