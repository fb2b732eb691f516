-- ===== src/Monitor/Pass/Unstuck.antt =====
-- A pass in which no worker answers puts the jobs in progress back into the job queue.
mod Tests
use mathlib.Core.Path.{subst}
use supercluster.Prelude.{
  ℕ, zero, suc, ◌+◌, ◌<◌, ◌≡◌, refl, ap, sym, ◌∙◌, arith, Bool, true, false, not, ◌&&◌, List, [],
  ◌∷◌, ◌++◌, map, ltb, ◌==◌, if◌then◌else◌, List-cases, Bool-cases, inl, inr,
}
use supercluster.Prelude.Text.{Str, str_eq, str_eq_iff, str_eq_refl}
use supercluster.Prelude.Lists.{length, All, All-mono}
use supercluster.Prelude.Dict.{Dict, has_key, lookup}
use supercluster.Prelude.Sets.{keep_if, distinct, elem}
use supercluster.Monitor.Redis.{Redis}
use supercluster.Monitor.Redis.Keys.{
  View, job_queue, progress_queue, success_queue, failed_queue, drop_owner,
}
use supercluster.Monitor.World.{World, Reply, ok, Action, next, pure, ◌>>=◌, ◌>>◌, call, ask, tell}
use supercluster.Monitor.World.Calls.{Ends, Ends-mono, Ends-bind, run-bind, call_quiet}
use supercluster.Monitor.Network.{Config, Network}
use supercluster.Monitor.Requeue.{retry_jobs_in_progress}
use supercluster.Monitor.Requeue.Order.{AllMoved, retry_jobs_in_progress-order}
use supercluster.Monitor.Surplus.{mark_surplus}
use supercluster.Monitor.Pass.{
  Queues, Status, WorkerStatus, status_of, with_status, orphans, active_workers, read_queues,
  requeue_rest, requeue_orphans, check_workers, any_recovered, drop_owners, looks_stuck,
  retry_stuck, check_and_retry, read_status,
}
use supercluster.Monitor.Pass.Quiet.{
  SameQueues, SameQueues-trans, ask_quiet, AllSilent, check_silent, recovered_silent,
  mark_surplus_quiet,
}
use supercluster.Monitor.Pass.Alone.{
  AllOwned, active_some, drop_all, drop_all_covered, Covers, Covers-refl, Dropped, read_now,
  read_alone, orphans_alone, drop_owners_alone,
}

module _ (r : Redis) (c : Config) (net : Network) where
  open r use {Db, view, llen, lrange, scard, smembers, hgetall, hdel}

  -- The jobs in progress are in front of the others, each counted once, and nobody owns a job.
  abbrev pub Released : World Db → World Db → Type 0
  Released w w' =
      (w'.slots ≡ [])
      × ((view w'.db).jobs ≡ (view w.db).progress ++ (view w.db).jobs)
      × ((view w'.db).progress ≡ [])
      × ((view w'.db).owners ≡ [])
      × (w'.retried ≡ w.retried + length (view w.db).progress)

  Released-same : (u v w : World Db) → SameQueues r u v → Released v w → Released u w
  Released-same u v w (s, j, p, o, n, _) (s', j', p', o', n') = (
    s',
    j' ∙ ap (λ l. l ++ (view v.db).jobs) p ∙ ap (λ l. (view u.db).progress ++ l) j,
    p',
    o',
    n' ∙ ap (λ m. m + length (view v.db).progress) n ∙ ap (λ l. u.retried + length l) p,
  )

  lists_at_end :
      (u v w : World Db) → AllMoved r u v → Dropped r c net (view u.db).owners v w → Released u w
  lists_at_end u v w (e, n, s) (s', j, p, o, n') = (
    s',
    j ∙ ap (λ (x : View). x.jobs) e,
    p ∙ ap (λ (x : View). x.progress) e,
    o
        ∙ ap (λ (x : View). drop_all (view u.db).owners x.owners) e
        ∙ drop_all_covered (view u.db).owners (view u.db).owners (Covers-refl (view u.db).owners),
    n' ∙ n,
  )

  retry_and_drop :
      (fuel : ℕ) (owners : Dict Str) (w : World Db)
      → w.slots ≡ []
      → owners ≡ (view w.db).owners
      → length (view w.db).progress < fuel
      → Ends
          (λ _ w'. Released w w')
          ((retry_jobs_in_progress r fuel >> drop_owners r c net owners) w)
  retry_and_drop fuel owners w e o l =
      Ends-bind (λ _ w1. AllMoved r w w1) (λ _ w'. Released w w') (retry_jobs_in_progress r fuel)
        (λ _. drop_owners r c net owners) w (retry_jobs_in_progress-order r fuel w e l)
        (λ _ w1 m.
          Ends-mono (λ _ w2. Dropped r c net owners w1 w2) (λ _ w'. Released w w')
            (λ _ w2 d. lists_at_end w w1 w2 m (rw o at d)) (drop_owners r c net owners w1)
            (drop_owners_alone r c net owners w1 m.2))

  retry_stuck-silent :
      (fuel : ℕ) (active : List Str) (owners : Dict Str) (w : World Db)
      → AllSilent r c net
      → w.slots ≡ []
      → owners ≡ (view w.db).owners
      → length (view w.db).progress < fuel
      → Ends (λ _ w'. Released w w') (retry_stuck r c net fuel true active owners w)
  unfolding retry_stuck
  retry_stuck-silent fuel active owners w silent e o l =
      Ends-bind (λ b w1. (b ≡ false) × SameQueues r w w1) (λ _ w'. Released w w')
        (any_recovered r c net active)
        (λ b. if b then pure tt else retry_jobs_in_progress r fuel >> drop_owners r c net owners) w
        (recovered_silent r c net active w silent e)
        (λ b w1 (t, q). rw t (
          Ends-mono (λ _ w2. Released w1 w2) (λ _ w'. Released w w')
            (λ _ w2 h. Released-same w w1 w2 q h)
            ((retry_jobs_in_progress r fuel >> drop_owners r c net owners) w1)
            (retry_and_drop fuel owners w1 q.0 (o ∙ sym q.3) (rw q.2 l))))

  stuck :
      (statuses : List WorkerStatus) (jobs : List Str)
      → with_status true statuses ≡ []
      → 0 < length (with_status false statuses)
      → 0 < length jobs
      → looks_stuck r c net statuses jobs ≡ true
  unfolding looks_stuck
  stuck statuses jobs u d l = ground arith

  check_and_retry-silent :
      (fuel : ℕ) (q : Queues) (w : World Db)
      → AllSilent r c net
      → w.slots ≡ []
      → q.owners ≡ (view w.db).owners
      → q.in_progress ≡ (view w.db).progress
      → 0 < length (active_workers net q.owners)
      → 0 < length q.in_progress
      → length (view w.db).progress < fuel
      → Ends (λ _ w'. Released w w') (check_and_retry r c net fuel q w)
  unfolding check_and_retry
  check_and_retry-silent fuel q w silent e o p a j l =
      let active = active_workers net q.owners in
      Ends-bind
        (λ st w1.
          ((with_status true st ≡ []) × (length (with_status false st) ≡ length active))
          × SameQueues r w w1)
        (λ _ w'. Released w w') (check_workers r c net active) _ w
        (check_silent r c net active w silent e)
        (λ st w1 ((up, down), q1).
          Ends-bind (λ _ w2. SameQueues r w1 w2) (λ _ w'. Released w w')
            (mark_surplus r c net active (with_status false st) (q.remain + length q.in_progress)) _
            w1
            (mark_surplus_quiet r c net active (with_status false st)
              (q.remain + length q.in_progress) w1 q1.0)
            (λ marked w2 q2.
              let q3 = SameQueues-trans r w w1 w2 q1 q2 in
              Ends-bind (λ _ w3. Released w2 w3) (λ _ w'. Released w w')
                (retry_stuck r c net fuel (looks_stuck r c net st q.in_progress) active q.owners)
                (λ _. pure (status_of r c net q st marked)) w2
                (rw (stuck st q.in_progress up (rw down a) j) (
                  retry_stuck-silent fuel active q.owners w2 silent q3.0 (o ∙ sym q3.3)
                    (rw q3.2 l)))
                (λ _ w3 h. Released-same w w2 w3 q3 h)))

  some_owner :
      (owners : Dict Str) (jobs : List Str)
      → 0 < length jobs
      → AllOwned owners jobs
      → 0 < length (active_workers net owners)
  some_owner owners [] l h = absurd (omega arith)
  some_owner owners (x ∷ jobs) l h = active_some net x owners h.0

  -- Nobody acts but the monitor, every job in progress has an owner, there is at least one, and no
  -- request to a worker is answered. Then a pass returns, and at its end the jobs that were in
  -- progress are the first of the job queue, in their order, each is counted as one retry, and no
  -- job is in progress or has an owner.
  pub read_status-Released :
      (fuel : ℕ) (w : World Db)
      → AllSilent r c net
      → w.slots ≡ []
      → AllOwned (view w.db).owners (view w.db).progress
      → 0 < length (view w.db).progress
      → length (view w.db).progress < fuel
      → Ends (λ _ w'. Released w w') (read_status r c net fuel w)
  unfolding read_status
  read_status-Released fuel w silent e h j l =
      let o = r.hgetall_reply w.db in
      let p = r.lrange_reply progress_queue w.db in
      rw (read_alone r c net w e) (
        rw (orphans_alone r c net (read_now r c net w) w (rw (o, p) h)) (
          check_and_retry-silent fuel (read_now r c net w) w silent e o p
            (rw o (some_owner (view w.db).owners (view w.db).progress j h)) (rw p j) l))
