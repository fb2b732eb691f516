-- ===== src/Monitor/Pass/Metrics/Handed.antt =====
-- Whether an entry that a worker leaves in METRICS comes to the metrics of the monitor.
use supercluster.Prelude.{
  ℕ, ◌≡◌, ap, ◌∙◌, arith, Bool, true, ◌||◌, List, [], ◌∷◌, ◌++◌, Option, List-cases, Bool-cases,
  inl, inr,
}
use supercluster.Prelude.Text.{Str}
use supercluster.Prelude.Sets.{elem, elem-Perm}
use supercluster.Python.Number.{Number}
use supercluster.Monitor.Redis.{Redis}
use supercluster.Monitor.Redis.Keys.{metrics_key}
use supercluster.Monitor.Redis.Elem.{elem-append, elem-insert_member}
use supercluster.Monitor.Worker.{
  WorkerStep, claim, finish, valid_job_key, worker_step, worker_steps,
}
use supercluster.Monitor.Worker.Kept.{claim_view, finish_view}
use supercluster.Monitor.World.{World, Reply, ok, raised, unfinished, call, sleep}
use supercluster.Monitor.World.Calls.{IsUp, Ends, call-Ends}
use supercluster.Monitor.Network.{Config, Network}
use supercluster.Monitor.Pass.{Status, read_status}
use supercluster.Monitor.Pass.Board.{Board, Clock, publish}
use supercluster.Monitor.Pass.Metrics.{take_metrics, after_spop, after_status, pass}
use supercluster.Monitor.Pass.Keeps.{Holds}
use supercluster.Monitor.Pass.Keeps.Phases.{read_status-Keeps}
use supercluster.Monitor.Pass.Sealed.{SameEnds, Sealed, NoFailure, Sealed-Primitives}
use supercluster.Monitor.Pass.Consistent.Shown.{count_timings-Counted}
use supercluster.Monitor.Pass.Loop.{update_loop}
use supercluster.Monitor.Pass.Loop.Laws.{update_loop-keeps}

-- `have` says whether the entry has been taken over already.
module _ (r : Redis) (e : Str) (have : Bool) where
  open r use {Db, view}

  -- If not, the entry waits in METRICS.
  abbrev IsLeft : Db → Type 0
  IsLeft db = (have || elem e (view db).metrics) ≡ true

  step-IsLeft : (s : WorkerStep) (db : Db) → IsLeft db → IsLeft (worker_step r s db)
  unfolding worker_step
  step-IsLeft (claim pod) db h = elim (List-cases (view db).jobs) [
    | inl q ↦ ground (arith, claim_view r pod db)
    | inr (x, xs, q) ↦ ground (arith, claim_view r pod db)
  ]
  step-IsLeft (finish pod job entry success) db h = elim (Bool-cases (valid_job_key job)) [
    | inl q ↦
        rw (q, finish_view r pod job entry success db)
          (ground (arith, elem-insert_member e entry (view db).metrics))
    | inr q ↦ rw q h
  ]

  steps-IsLeft : (ss : List WorkerStep) (db : Db) → IsLeft db → IsLeft (worker_steps r ss db)
  unfolding worker_steps
  steps-IsLeft [] db h = h
  steps-IsLeft (s ∷ ss) db h = steps-IsLeft ss (worker_step r s db) (step-IsLeft s db h)

  same-IsLeft : (db db' : Db) → SameEnds r db db' → IsLeft db → IsLeft db'
  same-IsLeft db db' (_, _, m) h = rw m h

  -- It is among the entries that are taken, or waits on.
  abbrev IsTaken : List Str → Db → Type 0
  IsTaken new db = ((have || elem e new) || elem e (view db).metrics) ≡ true

  spop-IsTaken :
      (k : ℕ) (db : Db)
      → IsLeft db
      → IsTaken (r.spop metrics_key k db).0 (r.spop metrics_key k db).1
  spop-IsTaken k db h =
      let (new, db') = r.spop metrics_key k db in
      let p = elem-Perm e (r.spop_perm metrics_key k db) in
      let a = elem-append e new (view db').metrics in ground (arith, p, a)

  take-Ends :
      (k : ℕ) (w : World Db)
      → IsUp w
      → IsLeft w.db
      → Ends (λ new w'. IsUp w' × IsTaken new w'.db) (call r (r.spop metrics_key k) w)
  take-Ends k w up h =
      call-Ends r (r.spop metrics_key k) IsLeft IsTaken steps-IsLeft (spop-IsTaken k) w up h

  -- Every command is answered the first time, and the entry is not lost.
  abbrev Good : World Db → Type 0
  Good w = Sealed r IsLeft 0 w

  read_status-Good :
      (c : Config) (net : Network) (fuel : ℕ) (w : World Db)
      → Good w
      → Holds r Good (NoFailure r IsLeft 0) Good (read_status r c net fuel w)
  read_status-Good c net fuel w h =
      read_status-Keeps r Good (NoFailure r IsLeft 0) Good fuel
        (Sealed-Primitives r IsLeft 0 steps-IsLeft same-IsLeft fuel) c net w h

module _ (n : Number) (float : Str → Option n.F) (r : Redis) (c : Config) (net : Network)
    (e : Str) where
  open r use {Db, view}

  -- Every command is answered the first time, and the entry has been taken over or waits in
  -- METRICS.
  abbrev Kept : Board n.F → World Db → Type 0
  Kept b w = IsUp w × IsLeft r e (elem e b.metrics) w.db

  elem-take_metrics :
      (new : List Str) (b : Board n.F)
      → elem e (take_metrics n float new b).metrics ≡ (elem e b.metrics || elem e new)
  unfolding take_metrics
  elem-take_metrics new b =
      let (_, _, _, _, m, _, _) =
        count_timings-Counted n float new (record b { metrics = b.metrics ++ new }) in
      ap (elem e) m ∙ elem-append e b.metrics new

  after_spop-Kept :
      (b : Board n.F) (x : Reply (List Str) × World Db)
      → Ends (λ new w'. IsUp w' × IsTaken r e (elem e b.metrics) new w'.db) x
      → Kept (after_spop n float r c net b x).1.0 (after_spop n float r c net b x).1.1
  after_spop-Kept b (ok new, w) (up, h) = (up, rw (elem-take_metrics new b) h)
  after_spop-Kept b (raised, w) h = absurd h
  after_spop-Kept b (unfinished, w) h = absurd h

  after_status-Kept :
      (start : n.F) (clock : Clock n.F) (b : Board n.F) (x : Reply Status × World Db)
      → Holds r
          (Good r e (elem e b.metrics))
          (NoFailure r (IsLeft r e (elem e b.metrics)) 0)
          (Good r e (elem e b.metrics))
          x
      → Kept
          (after_status n float r c net start clock b x).1.0
          (after_status n float r c net start clock b x).1.1
  unfolding publish
  after_status-Kept start clock b (ok s, w) (up, (h, _)) =
      after_spop-Kept (publish n start clock s b) (call r (r.spop metrics_key 1000) w)
        (take-Ends r e (elem e b.metrics) 1000 w up h)
  after_status-Kept start clock b (raised, w) h = absurd h
  after_status-Kept start clock b (unfinished, w) (up, (h, _)) = (up, h)

  pass-Kept :
      (start : n.F) (clock : Clock n.F) (fuel : ℕ) (b : Board n.F) (w : World Db)
      → Kept b w
      → Kept
          (pass n float r c net start clock fuel b w).1.0
          (pass n float r c net start clock fuel b w).1.1
  unfolding pass
  pass-Kept start clock fuel b w (up, h) =
      after_status-Kept start clock b (read_status r c net fuel w)
        (read_status-Good r e (elem e b.metrics) c net fuel w (up, (h, omega arith)))

  sleep-Kept : (b : Board n.F) (seconds : ℕ) (w : World Db) → Kept b w → Kept b (sleep seconds w).1
  unfolding sleep
  sleep-Kept b seconds w h = h

  -- While Redis answers every command the first time, an entry that was in METRICS or among the
  -- metrics of the monitor before the loop is in one of the two after any number of passes,
  -- whatever the workers do, and whichever of the entries SPOP gives.
  pub update_loop-metrics :
      (start : n.F) (seconds fuel : ℕ) (clocks : List (Clock n.F)) (b : Board n.F) (w : World Db)
      → IsUp w
      → (elem e b.metrics || elem e (view w.db).metrics) ≡ true
      → let x = (update_loop n float r c net start seconds fuel clocks b w).1 in
        (elem e x.0.metrics || elem e (view x.1.db).metrics) ≡ true
  update_loop-metrics start seconds fuel clocks b w up h =
      (update_loop-keeps n float r c net Kept start seconds fuel clocks b w
        (λ b' u q. sleep-Kept b' seconds u q) (λ clock b' u q. pass-Kept start clock fuel b' u q)
        (up, h)).1
