-- ===== src/Monitor/Pass/Undisturbed.antt =====
-- Passes while every job in progress has an owner and one of the owners answers.
pub mod Checked
mod Tests
use supercluster.Prelude.{
  ℕ, ◌+◌, ◌<◌, ◌⊎◌, inl, inr, ◌++◌, ◌≡◌, refl, ap, ◌∙◌, sym, arith, true, false, List, [], ◌∷◌,
  Option,
}
use supercluster.Prelude.Text.{Str}
use supercluster.Prelude.Lists.{length, All}
use supercluster.Prelude.Dict.{Dict}
use supercluster.Prelude.Sets.{elem}
use supercluster.Python.Number.{Number}
use supercluster.Monitor.Redis.{Redis}
use supercluster.Monitor.Redis.Keys.{View, progress_queue, failed_queue, metrics_key}
use supercluster.Monitor.World.{World, Reply, ok, raised, unfinished, pure, call, sleep}
use supercluster.Monitor.World.Calls.{Ends, Ends-mono, Ends-bind, call_quiet}
use supercluster.Monitor.Network.{Config, Network, ping_worker}
use supercluster.Monitor.Surplus.{mark_surplus}
use supercluster.Monitor.Pass.{
  Queues, Status, WorkerStatus, status_of, with_status, active_workers, check_workers, looks_stuck,
  retry_stuck, check_and_retry, read_status,
}
use supercluster.Monitor.Pass.Answered.{Untouched, Answers, ping-Untouched, retry_stuck-Answers}
use supercluster.Monitor.Pass.Quiet.{SameQueues, SameQueues-trans, mark_surplus_quiet}
use supercluster.Monitor.Pass.Undisturbed.Checked.{check_workers-Answers}
use supercluster.Monitor.Pass.Alone.{AllOwned, read_now, read_alone, orphans_alone}
use supercluster.Monitor.Pass.Board.{Board, Clock, publish}
use supercluster.Monitor.Pass.Metrics.{take_metrics, after_spop, after_status, pass}
use supercluster.Monitor.Pass.Consistent.Shown.{count_timings-Counted}
use supercluster.Monitor.Pass.Loop.{update_loop}
use supercluster.Monitor.Pass.Loop.Laws.{update_loop-keeps}

module _ (r : Redis) (c : Config) (net : Network) where
  open r use {Db, view}

  Untouched-SameQueues :
      (w w' : World Db) → w.slots ≡ [] → Untouched r c net w w' → SameQueues r w w'
  Untouched-SameQueues w w' e (d, s, t) = (
    s ∙ e,
    ap (λ db. (view db).jobs) d,
    ap (λ db. (view db).progress) d,
    ap (λ db. (view db).owners) d,
    t,
    ap (λ db. (view db).failed) d,
  )

  -- The status tells the failed jobs and those in progress, and that a worker is up.
  abbrev pub Shows : List Str → List Str → Status → Type 0
  Shows failed in_progress s =
      (s.jobs_failed ≡ failed) × (s.jobs_in_progress ≡ in_progress) × (0 < s.workers_up)

  check_and_retry-Answers :
      (fuel : ℕ) (q : Queues) (pod : Str) (w : World Db)
      → elem pod (active_workers net q.owners) ≡ true
      → Answers r c net pod
      → w.slots ≡ []
      → Ends
          (λ s w'. SameQueues r w w' × Shows q.failed q.in_progress s)
          (check_and_retry r c net fuel q w)
  unfolding check_and_retry
  check_and_retry-Answers fuel q pod w a h e =
      let active = active_workers net q.owners in
      Ends-bind (λ st w1. (0 < length (with_status true st)) × Untouched r c net w w1) _
        (check_workers r c net active) _ w (check_workers-Answers r c net pod active w a h)
        (λ st w1 (up, u1).
          let q1 = Untouched-SameQueues w w1 e u1 in
          Ends-bind (λ _ w2. SameQueues r w1 w2) _
            (mark_surplus r c net active (with_status false st) (q.remain + length q.in_progress)) _
            w1
            (mark_surplus_quiet r c net active (with_status false st)
              (q.remain + length q.in_progress) w1 q1.0)
            (λ marked w2 q2.
              Ends-bind (λ _ w3. Untouched r c net w2 w3) _
                (retry_stuck r c net fuel (looks_stuck r c net st q.in_progress) active q.owners)
                (λ _. pure (status_of r c net q st marked)) w2
                (retry_stuck-Answers r c net fuel (looks_stuck r c net st q.in_progress) active
                  q.owners pod w2 a h)
                (λ _ w3 u3. (
                  SameQueues-trans r w w2 w3 (SameQueues-trans r w w1 w2 q1 q2)
                      (Untouched-SameQueues w2 w3 q2.0 u3),
                  (refl, refl, up),
                ))))

  -- The jobs in progress have owners, and one of the owners is `pod`.
  abbrev pub Healthy : Str → World Db → Type 0
  Healthy pod w =
      AllOwned (view w.db).owners (view w.db).progress
      × (elem pod (active_workers net (view w.db).owners) ≡ true)

  read_status-SameQueues :
      (fuel : ℕ) (pod : Str) (w : World Db)
      → Answers r c net pod
      → Healthy pod w
      → w.slots ≡ []
      → Ends
          (λ s w'. SameQueues r w w' × Shows (view w.db).failed (view w.db).progress s)
          (read_status r c net fuel w)
  unfolding read_status
  read_status-SameQueues fuel pod w h (o, a) e =
      let ro = r.hgetall_reply w.db in
      let rp = r.lrange_reply progress_queue w.db in
      rw (read_alone r c net w e) (
        rw (orphans_alone r c net (read_now r c net w) w (rw (ro, rp) o)) (
          Ends-mono _ _
            (λ s w' (k, (f, p, u)). (k, (f ∙ r.smembers_reply failed_queue w.db, p ∙ rp, u)))
            (check_and_retry r c net fuel (read_now r c net w) w)
            (check_and_retry-Answers fuel (read_now r c net w) pod w (rw ro a) h e)))

module _ (n : Number) (float : Str → Option n.F) (r : Redis) (c : Config) (net : Network) where
  open r use {Db, view}

  -- The queues are as before, and the status is the one before or shows what is in them.
  abbrev Calm : Board n.F → World Db → Board n.F → World Db → Type 0
  Calm b w b' w' =
      SameQueues r w w'
      × ((b'.status ≡ b.status) ⊎ Shows r c net (view w.db).failed (view w.db).progress b'.status)

  spop-Calm :
      (b : Board n.F) (w : World Db) (x : Reply (List Str) × World Db)
      → SameQueues r w x.1
      → ((after_spop n float r c net b x).1.0.status ≡ b.status)
        × SameQueues r w (after_spop n float r c net b x).1.1
  unfolding take_metrics
  spop-Calm b w (ok new, w') h =
      ((count_timings-Counted n float new (record b { metrics = b.metrics ++ new })).0, h)
  spop-Calm b w (raised, w') h = (refl, h)
  spop-Calm b w (unfinished, w') h = (refl, h)

  spop-SameQueues :
      (w : World Db) → w.slots ≡ [] → SameQueues r w (call r (r.spop metrics_key 1000) w).1
  spop-SameQueues w e =
      let v = r.spop_view metrics_key 1000 w.db in
      rw (call_quiet r (r.spop metrics_key 1000) w e) (
        e,
        ap (λ (u : View). u.jobs) v,
        ap (λ (u : View). u.progress) v,
        ap (λ (u : View). u.owners) v,
        refl,
        ap (λ (u : View). u.failed) v,
      )

  status-Calm :
      (start : n.F) (clock : Clock n.F) (b : Board n.F) (w : World Db) (x : Reply Status × World Db)
      → Ends (λ s w'. SameQueues r w w' × Shows r c net (view w.db).failed (view w.db).progress s) x
      → Calm b w
          (after_status n float r c net start clock b x).1.0
          (after_status n float r c net start clock b x).1.1
  unfolding publish
  status-Calm start clock b w (ok s, w') (h, v) =
      let y = call r (r.spop metrics_key 1000) w' in
      let (q, k) =
        spop-Calm (publish n start clock s b) w y
          (SameQueues-trans r w w' y.1 h (spop-SameQueues w' h.0)) in
      (k, inr (rw q v))
  status-Calm start clock b w (raised, w') h = absurd h
  status-Calm start clock b w (unfinished, w') h = absurd h

  Calm-trans :
      (b0 b1 b2 : Board n.F) (w0 w1 w2 : World Db)
      → Calm b0 w0 b1 w1
      → Calm b1 w1 b2 w2
      → Calm b0 w0 b2 w2
  Calm-trans b0 b1 b2 w0 w1 w2 (h, u) (k, v) = (SameQueues-trans r w0 w1 w2 h k, shown)
    where
      shown :
          (b2.status ≡ b0.status)
          ⊎ Shows r c net (view w0.db).failed (view w0.db).progress b2.status
      shown = elim v [
        | inl e ↦ elim u [ inl f ↦ inl (e ∙ f) | inr s ↦ inr (rw e s) ]
        | inr (f, p, l) ↦ inr (f ∙ h.5, p ∙ h.2, l)
      ]

  module _ (pod : Str) (b0 : Board n.F) (w0 : World Db) (answers : Answers r c net pod)
      (healthy : Healthy r c net pod w0) where
    same-Healthy : (w : World Db) → SameQueues r w0 w → Healthy r c net pod w
    same-Healthy w (e, j, p, o, m, f) = rw (p, o) healthy

    pass-Calm :
        (start : n.F) (clock : Clock n.F) (fuel : ℕ) (b : Board n.F) (w : World Db)
        → Calm b0 w0 b w
        → Calm b0 w0
            (pass n float r c net start clock fuel b w).1.0
            (pass n float r c net start clock fuel b w).1.1
    unfolding pass
    pass-Calm start clock fuel b w h =
        let x = after_status n float r c net start clock b (read_status r c net fuel w) in
        Calm-trans b0 b x.1.0 w0 w x.1.1 h (
          status-Calm start clock b w (read_status r c net fuel w)
            (read_status-SameQueues r c net fuel pod w answers (same-Healthy w h.0) h.0.0))

  sleep-Calm :
      (b0 b : Board n.F) (w0 : World Db) (seconds : ℕ) (w : World Db)
      → Calm b0 w0 b w
      → Calm b0 w0 b (sleep seconds w).1
  unfolding sleep
  sleep-Calm b0 b w0 seconds w h = h

  -- Nobody acts but the monitor, every job in progress has an owner, and one of the owners answers
  -- every request. Then after any number of passes the two queues, the owners and the failed jobs
  -- are as before, and no retry is counted: no job is taken from its owner. The status is still the
  -- one before the first pass, or shows these jobs in progress, these failed jobs, and a worker
  -- that is up.
  pub update_loop-SameQueues :
      (pod : Str) (start : n.F) (seconds fuel : ℕ) (clocks : List (Clock n.F)) (b : Board n.F)
      (w : World Db)
      → Answers r c net pod
      → Healthy r c net pod w
      → w.slots ≡ []
      → let x = (update_loop n float r c net start seconds fuel clocks b w).1 in
        SameQueues r w x.1
        × ((x.0.status ≡ b.status)
            ⊎ Shows r c net (view w.db).failed (view w.db).progress x.0.status)
  update_loop-SameQueues pod start seconds fuel clocks b w h k e =
      update_loop-keeps n float r c net (λ b' u. Calm b w b' u) start seconds fuel clocks b w
        (λ b' u q. sleep-Calm b b' w seconds u q)
        (λ clock b' u q. pass-Calm pod b w h k start clock fuel b' u q)
        ((e, refl, refl, refl, refl, refl), inl refl)
