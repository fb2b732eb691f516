-- ===== src/Monitor/Jobs/Loop.antt =====
-- The loop of passes and the machine.
use mathlib.Core.Path.{subst}
use supercluster.Prelude.{ℕ, ◌+◌, ◌≤◌, ◌≡◌, refl, arith, true, List, Option, ◌⊎◌, inl, inr}
use supercluster.Prelude.Text.{Str}
use supercluster.Python.Number.{Number}
use supercluster.Monitor.Redis.{Redis}
use supercluster.Monitor.Redis.Keys.{metrics_key}
use supercluster.Monitor.Worker.Started.{ended}
use supercluster.Monitor.World.{World, Reply, ok, raised, unfinished, call, sleep}
use supercluster.Monitor.Network.{Config, Network}
use supercluster.Monitor.Pass.{Status, read_status}
use supercluster.Monitor.Pass.Board.{Board, Clock, publish}
use supercluster.Monitor.Pass.Metrics.{after_spop, after_status, pass}
use supercluster.Monitor.Pass.Loop.{update_loop}
use supercluster.Monitor.Pass.Loop.Laws.{update_loop-keeps}
use supercluster.Monitor.Pass.Keeps.{Holds}
use supercluster.Monitor.Pass.Keeps.Phases.{read_status-Keeps}
use supercluster.Monitor.Jobs.{copies, JobState, Reach, here, Reach-Grows, state_of}
use supercluster.Monitor.Jobs.Calls.{losses, repeats}
use supercluster.Monitor.Jobs.Refines.{Standing, call-IsFollowed, same_queues, followed-Primitives}

module _ (n : Number) (float : Str → Option n.F) (r : Redis) (c : Config) (net : Network)
    (j : Str) where
  open r use {Db, view}

  module _ (s : JobState) (k : ℕ × ℕ) where
    abbrev Held : {A : Type 0} → Reply A × World Db → Type 0
    Held x = Holds r (Standing r j s k) (Standing r j s k) (Standing r j s k) x

    spop-Standing :
        (b : Board n.F) (x : Reply (List Str) × World Db)
        → Held x
        → Standing r j s k (after_spop n float r c net b x).1.1
    spop-Standing b (ok new, w) h = h
    spop-Standing b (raised, w) h = h
    spop-Standing b (unfinished, w) h = h

    status-Standing :
        (start : n.F) (clock : Clock n.F) (b : Board n.F) (x : Reply Status × World Db)
        → Held x
        → Standing r j s k (after_status n float r c net start clock b x).1.1
    status-Standing start clock b (ok t, w) h =
        spop-Standing (publish n start clock t b) (call r (r.spop metrics_key 1000) w) (
          call-IsFollowed r j s k (r.spop metrics_key 1000)
            (λ db m a.
              same_queues r j s k db (r.spop metrics_key 1000 db).1 _
                (r.spop_view metrics_key 1000 db) refl refl refl refl m a)
            w h)
    status-Standing start clock b (raised, w) h = h
    status-Standing start clock b (unfinished, w) h = h

    pass-Standing :
        (start : n.F) (clock : Clock n.F) (fuel : ℕ) (b : Board n.F) (w : World Db)
        → Standing r j s k w
        → Standing r j s k (pass n float r c net start clock fuel b w).1.1
    unfolding pass
    pass-Standing start clock fuel b w h =
        status-Standing start clock b (read_status r c net fuel w) (
          read_status-Keeps r (Standing r j s k) (Standing r j s k) (Standing r j s k) fuel
            (followed-Primitives r j s k fuel) c net w h)

    sleep-Standing :
        (seconds : ℕ) (w : World Db) → Standing r j s k w → Standing r j s k (sleep seconds w).1
    unfolding sleep
    sleep-Standing seconds w h = h

  -- Whatever the workers do, whichever commands fail and whichever are sent again, the loop takes each
  -- job from its state before to its state after by steps of the machine. The copies that are left in
  -- the monitor's hands at the end and those that were added are together at most as many as the
  -- commands that have failed and the attempts that were carried out and then repeated; those that
  -- were added are at most as many as these attempts.
  pub update_loop-Reach :
      (start : n.F) (seconds fuel : ℕ) (clocks : List (Clock n.F)) (b : Board n.F) (w : World Db)
      → let w' = (update_loop n float r c net start seconds fuel clocks b w).1.1 in
        (h : ℕ) × (a : ℕ) × Reach (state_of j (view w.db) 0 0) (state_of j (view w'.db) h a)
        × (h + a + losses w'.slots ≤ losses w.slots)
        × (a + repeats w'.slots ≤ repeats w.slots)
  update_loop-Reach start seconds fuel clocks b w =
      let s = state_of j (view w.db) 0 0 in
      let k : ℕ × ℕ = (losses w.slots, repeats w.slots) in
      let w' = (update_loop n float r c net start seconds fuel clocks b w).1.1 in
      let (h, a, p, l, m) =
        update_loop-keeps n float r c net (λ _ u. Standing r j s k u) start seconds fuel clocks b w
          (λ _ u q. sleep-Standing s k seconds u q)
          (λ clock b' u q. pass-Standing s k start clock fuel b' u q)
          (0, 0, here, omega arith, omega arith) in
      let e : h + 0 ≡ h = omega arith in
      (h, a, subst (λ m. Reach s (state_of j (view w'.db) m a)) e p, l, m)

  -- Whatever the workers do, whichever commands fail and whichever are sent again: any number of
  -- passes adds at most as many copies of a job to the two queues as attempts were carried out and
  -- then repeated, so none if none was repeated. At the end the job has ended, or at most as many
  -- copies are missing as commands have failed and attempts were repeated.
  pub update_loop-copies :
      (start : n.F) (seconds fuel : ℕ) (clocks : List (Clock n.F)) (b : Board n.F) (w : World Db)
      → let w' = (update_loop n float r c net start seconds fuel clocks b w).1.1 in
        (copies j (view w'.db).jobs + copies j (view w'.db).progress + repeats w'.slots
          ≤ copies j (view w.db).jobs + copies j (view w.db).progress + repeats w.slots)
        × ((ended j (view w'.db) ≡ true)
            ⊎ (copies j (view w.db).jobs + copies j (view w.db).progress + losses w'.slots
                ≤ copies j (view w'.db).jobs + copies j (view w'.db).progress + losses w.slots))
  update_loop-copies start seconds fuel clocks b w =
      let (h, a, p, l, m) = update_loop-Reach start seconds fuel clocks b w in
      let (fewer, kept) = Reach-Grows p in
      (omega arith, elim kept [ inl e ↦ inl e | inr (e, _) ↦ inr (omega arith) ])
