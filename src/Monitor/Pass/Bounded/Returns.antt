-- ===== src/Monitor/Pass/Bounded/Returns.antt =====
-- The retry loop ends, whatever the workers do and whatever fails.
use supercluster.Prelude.{
  ℕ, zero, suc, ◌+◌, ◌-◌, ◌<◌, ◌≤◌, ◌≡◌, refl, arith, Bool, true, false, ltb, Option-cases, inl,
  inr,
}
use supercluster.Monitor.Redis.{Redis}
use supercluster.Monitor.Redis.Keys.{job_queue, progress_queue, last?}
use supercluster.Monitor.World.{
  World, Reply, ok, raised, unfinished, Action, next, pure, ◌>>=◌, ◌>>◌, call, ask, count_retry,
}
use supercluster.Monitor.Requeue.{retry_jobs_in_progress}
use supercluster.Monitor.Requeue.Order.{last?-none, last?-length}
use supercluster.Monitor.Pass.Keeps.{Holds, Keeps}
use supercluster.Monitor.Pass.Bounded.{pending, running, work, Within, call-Within}

module _ (r : Redis) where
  open r use {Db, view, llen, lmove, lrem, lpush, hdel}

  abbrev pub Never : World Db → Type 0
  Never w = ⊥

  -- At most `k` is left at the end, which is a value or an exception.
  abbrev pub Returns : {A : Type 0} → ℕ → Reply A × World Db → Type 0
  Returns k x = Holds r (λ w. work r w ≤ k) (λ w. work r w ≤ k) Never x

  Returns-more : {A : Type 0} (k m : ℕ) (x : Reply A × World Db) → k ≤ m → Returns k x → Returns m x
  Returns-more k m (ok a, w) l h = omega arith
  Returns-more k m (raised, w) l h = omega arith
  Returns-more k m (unfinished, w) l h = h

  Within-Returns :
      {A : Type 0} (k : ℕ) (Q : A → Db → Type 0) (x : Reply A × World Db)
      → Within r k k Q x
      → Returns k x
  Within-Returns k Q (ok a, w) h = h.0
  Within-Returns k Q (raised, w) h = h
  Within-Returns k Q (unfinished, w) h = h

  -- What follows a command.
  Within-next :
      {A B : Type 0} (k k' m : ℕ) (Q : A → Db → Type 0) (f : A → Action Db B)
      (x : Reply A × World Db)
      → Within r k k' Q x
      → k' ≤ m
      → ((a : A) (w : World Db) → work r w ≤ k → Q a w.db → Returns m (f a w))
      → Returns m (next f x)
  Within-next k k' m Q f (ok a, w) h l g = g a w h.0 h.1
  Within-next k k' m Q f (raised, w) h l g = omega arith
  Within-next k k' m Q f (unfinished, w) h l g = h

  pub call-Returns :
      {A : Type 0} (op : Db → A × Db) (k : ℕ)
      → ((db : Db) → running r (op db).1 ≤ running r db)
      → Keeps r (λ w. work r w ≤ k) (λ w. work r w ≤ k) Never (call r op)
  call-Returns op k step w h = Returns-more (work r w) k (call r op w) h (
      Within-Returns (work r w) (λ _ _. Unit {0}) (call r op w)
        (call-Within r op (λ _ _. Unit {0}) (running r w.db) w (omega arith)
          (λ db m l. (omega (arith, step db), tt))))

  lmove-running :
      (db : Db) (d m : ℕ)
      → running r db ≤ suc d + m
      → running r (lmove progress_queue job_queue db).1 ≤ d + m
  lmove-running db d m l = elim (Option-cases (last? (view db).progress)) [
    | inl e ↦
        ground (arith, r.lmove_view progress_queue job_queue db, last?-none (view db).progress e)
    | inr (x, e) ↦
        ground (arith, r.lmove_view progress_queue job_queue db, last?-length (view db).progress e)
  ]

  count_retry-Returns :
      (k : ℕ) (m : Action Db (Unit {0})) (w : World Db)
      → work r w ≤ k
      → ((w' : World Db) → work r w' ≤ k → Returns k (m w'))
      → Returns k ((count_retry >> m) w)
  unfolding count_retry
  count_retry-Returns k m w h g = g (record w { retried = w.retried + 1 }) h

  -- One round, once it is known how many jobs were in progress.
  round-Returns :
      (k waiting : ℕ) (waits : Bool) (again : Action Db (Unit {0})) (w : World Db)
      → work r w ≤ k
      → waiting ≡ running r w.db
      → ltb 0 waiting ≡ waits
      → ((m : ℕ) (w' : World Db) → m < k → work r w' ≤ m → Returns m (again w'))
      → Returns k (
          (elim waits as (λ _. Action Db (Unit {0})) [
            | true ↦ call r (lmove progress_queue job_queue) >>= λ job. count_retry >> again
            | false ↦ pure tt
          ])
            w)
  round-Returns k waiting false again w h e t g = h
  round-Returns k waiting true again w h e t g =
      let p : 0 < waiting = ground arith in
      let d = waiting - 1 in
      Within-next (d + pending w.slots) (running r w.db + pending w.slots) k (λ _ _. Unit {0})
        (λ job. count_retry >> again) (call r (lmove progress_queue job_queue) w)
        (call-Within r (lmove progress_queue job_queue) (λ _ _. Unit {0}) d w (omega arith)
          (λ db m l. (lmove-running db d m (omega arith), tt)))
        h
        (λ job w' l _.
          Returns-more (d + pending w.slots) k ((count_retry >> again) w') (omega arith) (
            count_retry-Returns (d + pending w.slots) again w' l
              (λ w2 l2. g (d + pending w.slots) w2 (omega arith) l2)))

  -- The retry loop ends within its fuel, if that is more than the jobs in progress and the steps of
  -- the workers.
  pub retry-Returns :
      (fuel k : ℕ) (w : World Db)
      → work r w ≤ k
      → k < fuel
      → Returns k (retry_jobs_in_progress r fuel w)
  unfolding retry_jobs_in_progress
  retry-Returns zero k w h l = absurd (omega arith)
  retry-Returns (suc fuel) k w h l =
      Within-next (work r w) (work r w) k (λ n db. n ≡ running r db) _
        (ask r (llen progress_queue) w)
        (call-Within r (λ db. (llen progress_queue db, db)) (λ n db. n ≡ running r db)
          (running r w.db) w (omega arith) (λ db m l. (l, r.llen_reply progress_queue db)))
        h
        (λ n w1 h1 e.
          round-Returns k n (ltb 0 n) (retry_jobs_in_progress r fuel) w1 (omega arith) e refl
            (λ m w2 l2 h2. retry-Returns fuel m w2 h2 (omega arith)))
