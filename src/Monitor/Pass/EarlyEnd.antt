-- ===== src/Monitor/Pass/EarlyEnd.antt =====
-- The gap between the two reads of phase 1b, which stand in the other order than those of phase 1.
use supercluster.Prelude.{
  ℕ, ◌+◌, ◌≡◌, refl, ap, ◌∙◌, arith, true, List, [], ◌∷◌, ◌==◌, if◌then◌else◌,
}
use supercluster.Prelude.Text.{Str, str_eq_refl}
use supercluster.Prelude.Lists.{length}
use supercluster.Prelude.Dict.{has_key, lookup}
use supercluster.Prelude.Sets.{elem, keep_if}
use supercluster.Monitor.Redis.{Redis}
use supercluster.Monitor.Redis.Keys.{
  View, job_queue, progress_queue, remove_last, drop_owner, put_owner,
}
use supercluster.Monitor.Worker.{claim, claim_job, worker_step, worker_steps}
use supercluster.Monitor.Worker.Kept.{claim_view}
use supercluster.Monitor.World.{
  World, Slot, answered, ok, Action, pure, ◌>>=◌, ◌>>◌, call, ask, tell, count_retry,
}
use supercluster.Monitor.World.Calls.{run-bind}
use supercluster.Monitor.Network.{Config, Network}
use supercluster.Monitor.Requeue.{requeue_job}
use supercluster.Monitor.Requeue.Loss.{alone, first_call}
use supercluster.Monitor.Pass.{Queues, orphans, requeue_all, requeue_rest, requeue_orphans}

-- One job is in progress, nobody owns it, and no job waits.
pub record OneOrphan (x : Str) (v : View) : Type 0 where
  pub none_waits : v.jobs ≡ []
  pub in_progress : v.progress ≡ x ∷ []
  pub no_owner : v.owners ≡ []

-- A worker claims a job before the command.
abbrev pub claimed_by : Str → Slot
claimed_by pod = record { steps = claim pod ∷ []; outcome = answered; resent = [] }

module _ (r : Redis) (c : Config) (net : Network) where
  open r use {Db, view, lrem, lpush, hdel, lrange, llen}

  claim_call :
      {A : Type 0} (op : Db → A × Db) (pod : Str) (w : World Db) (rest : List Slot)
      → w.slots ≡ claimed_by pod ∷ rest
      → call r op w ≡ (
        ok (op (claim_job r pod w.db)).0,
        record w { db = (op (claim_job r pod w.db)).1; slots = rest },
      )
  unfolding call worker_steps worker_step
  claim_call op pod w rest e = ground arith

  -- The store after the three commands of `requeue_job`.
  abbrev requeued : Str → Db → Db
  requeued x db = hdel x (lpush job_queue x (lrem progress_queue x db).1)

  requeued_view :
      (x : Str) (db : Db)
      → OneOrphan x (view db)
      → view (requeued x db) ≡ record (view db) { jobs = x ∷ []; progress = []; owners = [] }
  unfolding remove_last elem drop_owner
  requeued_view x db o = ground (
    arith,
    r.hdel_view x (lpush job_queue x (lrem progress_queue x db).1),
    r.lpush_view job_queue x (lrem progress_queue x db).1,
    r.lrem_view progress_queue x db,
    str_eq_refl x,
  )

  abbrev after_lrem : Str → ℕ → Action Db (Unit {0})
  after_lrem x removed =
      (if removed == 1 then tell r (lpush job_queue x) else pure tt) >> tell r (hdel x)

  requeue_alone :
      (x : Str) (w : World Db) (rest : List Slot)
      → w.slots ≡ alone true ∷ alone true ∷ alone true ∷ rest
      → (lrem progress_queue x w.db).0 ≡ 1
      → requeue_job r x w ≡ (ok tt, record w { db = requeued x w.db; slots = rest })
  unfolding requeue_job
  requeue_alone x w rest e one =
      let w1 : World Db = record w {
        db = (lrem progress_queue x w.db).1;
        slots = alone true ∷ alone true ∷ rest;
      } in
      let w2 : World Db = record w1 { db = lpush job_queue x w1.db; slots = alone true ∷ rest } in
      run-bind (call r (lrem progress_queue x)) (after_lrem x) w
        (first_call r (lrem progress_queue x) w (alone true ∷ alone true ∷ rest) e)
      ∙ ap (λ k. after_lrem x k w1) one
      ∙ run-bind (tell r (lpush job_queue x)) (λ _. tell r (hdel x)) w1
          (first_call r (λ db. (tt, lpush job_queue x db)) w1 (alone true ∷ rest) refl)
      ∙ first_call r (λ db. (tt, hdel x db)) w2 rest refl

  claimed_view :
      (x pod : Str) (db : Db)
      → OneOrphan x (view db)
      → view (claim_job r pod (requeued x db))
        ≡ record (view db) { jobs = []; progress = x ∷ []; owners = put_owner x pod [] }
  claimed_view x pod db o = ground (arith, claim_view r pod (requeued x db), requeued_view x db o)

  orphans_alone :
      (x : Str) (q : Queues) → q.in_progress ≡ x ∷ [] → q.owners ≡ [] → orphans q ≡ x ∷ []
  unfolding orphans keep_if has_key lookup
  orphans_alone x q e o = rw (e, o) refl

  -- The two reads after a requeue, with a worker that claims between them.
  rereads :
      (x pod : Str) (q : Queues) (w : World Db) (rest : List Slot)
      → w.slots ≡ alone true ∷ claimed_by pod ∷ rest
      → (ask r (lrange progress_queue) >>= λ in_progress.
            (ask r (llen job_queue) >>= λ remain.
            pure (record q { in_progress = in_progress; remain = remain })))
          w
        ≡ (
          ok (record q {
            in_progress = lrange progress_queue w.db;
            remain = llen job_queue (claim_job r pod w.db);
          }),
          record w { db = claim_job r pod w.db; slots = rest },
        )
  rereads x pod q w rest e =
      run-bind (ask r (lrange progress_queue)) _ w
        (first_call r (λ db. (lrange progress_queue db, db)) w (claimed_by pod ∷ rest) e)
      ∙ run-bind (ask r (llen job_queue)) _ (record w { slots = claimed_by pod ∷ rest })
          (claim_call (λ db. (llen job_queue db, db)) pod
            (record w { slots = claimed_by pod ∷ rest }) rest refl)

  removed_one : (x : Str) (db : Db) → OneOrphan x (view db) → (lrem progress_queue x db).0 ≡ 1
  unfolding elem
  removed_one x db o = ground (arith, r.lrem_reply progress_queue x db, str_eq_refl x)

  -- The world after the orphan was requeued.
  abbrev after_requeue : Str → World Db → List Slot → World Db
  after_requeue x w rest = record w { db = requeued x w.db; slots = rest; retried = w.retried + 1 }

  requeue_all-alone :
      (x : Str) (w : World Db) (rest : List Slot)
      → w.slots ≡ alone true ∷ alone true ∷ alone true ∷ rest
      → OneOrphan x (view w.db)
      → requeue_all r c net (x ∷ []) w ≡ (ok tt, after_requeue x w rest)
  unfolding requeue_all count_retry
  requeue_all-alone x w rest e o =
      run-bind (requeue_job r x) (λ _. count_retry >> pure tt) w
        (requeue_alone x w rest e (removed_one x w.db o))

  -- If the only job is in progress with no owner, and a worker claims it between the two reads that
  -- follow its requeue, phase 1b reports no job that remains and none in progress, while the job is
  -- in progress. These are the counts at which the driver ends the mission.
  pub requeue_orphans_early_end :
      (x pod : Str) (q : Queues) (w : World Db) (rest : List Slot)
      → w.slots ≡ alone true ∷ alone true ∷ alone true ∷ alone true ∷ claimed_by pod ∷ rest
      → OneOrphan x (view w.db)
      → q.in_progress ≡ x ∷ []
      → q.owners ≡ []
      → (q' : Queues) × (w' : World Db) × (requeue_orphans r c net q w ≡ (ok q', w'))
        × (q'.remain ≡ 0)
        × (q'.in_progress ≡ [])
        × ((view w'.db).progress ≡ x ∷ [])
  unfolding requeue_orphans requeue_rest
  requeue_orphans_early_end x pod q w rest e o p n =
      let db3 : Db = requeued x w.db in
      let w3 : World Db = after_requeue x w (alone true ∷ claimed_by pod ∷ rest) in
      (
        record q {
          in_progress = lrange progress_queue db3;
          remain = llen job_queue (claim_job r pod db3);
        },
        record w3 { db = claim_job r pod db3; slots = rest },
        ap (λ l. requeue_rest r c net q l w) (orphans_alone x q p n)
            ∙ run-bind (requeue_all r c net (x ∷ []))
                (λ _. ask r (lrange progress_queue) >>= λ in_progress.
                  (ask r (llen job_queue) >>= λ remain.
                  pure (record q { in_progress = in_progress; remain = remain })))
                w (requeue_all-alone x w (alone true ∷ claimed_by pod ∷ rest) e o)
            ∙ rereads x pod q w3 rest refl,
        r.llen_reply job_queue (claim_job r pod db3)
            ∙ ap (λ (v : View). length v.jobs) (claimed_view x pod w.db o),
        r.lrange_reply progress_queue db3 ∙ ap (λ (v : View). v.progress) (requeued_view x w.db o),
        ap (λ (v : View). v.progress) (claimed_view x pod w.db o),
      )
