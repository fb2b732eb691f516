-- ===== src/Monitor/Pass/Complete.antt =====
-- What a status without a job that remains or is in progress says of the jobs.
mod Tests
use supercluster.Prelude.{
  ℕ, zero, suc, ◌+◌, ◌<◌, ◌≤◌, ◌≡◌, refl, ap, ap₂, sym, ◌∙◌, arith, Bool, true, false, ◌||◌, List,
  [], ◌∷◌, List-cases, inl, inr, ◌⊎◌,
}
use mathlib.Core.Path.{subst}
use supercluster.Prelude.Text.{Str}
use supercluster.Prelude.Lists.{length}
use supercluster.Monitor.Redis.{Redis}
use supercluster.Monitor.Redis.Keys.{job_queue, progress_queue}
use supercluster.Monitor.Worker.Kept.{tracked}
use supercluster.Monitor.Worker.Started.{ended, worker_steps-ended}
use supercluster.Monitor.World.{
  World, Reply, ok, raised, unfinished, Action, next, pure, ◌>>=◌, ◌>>◌, ask, count_retry,
}
use supercluster.Monitor.World.Given.{Given, Given-bind, Given-mono, Given-any}
use supercluster.Monitor.World.Calls.{IsUp, Ends, Ends-bind}
use supercluster.Monitor.Network.{Config, Network}
use supercluster.Monitor.Requeue.{requeue_job}
use supercluster.Monitor.Surplus.{mark_surplus}
use supercluster.Monitor.Pass.{
  Queues, Status, orphans, active_workers, with_status, read_queues, requeue_all, requeue_rest,
  requeue_orphans, check_workers, looks_stuck, retry_stuck, status_of, check_and_retry, read_status,
}
use supercluster.Monitor.Pass.Keeps.{Holds, Keeps, Keeps-bind, Primitives}
use supercluster.Monitor.Pass.Keeps.Phases.{
  requeue_all-Safe, read_queues-Safe, check_and_retry-Keeps, read_status-Keeps,
}
use supercluster.Monitor.Pass.Finished.{read_queues-ended}
use supercluster.Monitor.Pass.Bounded.{work}
use supercluster.Monitor.Pass.Bounded.Ends.{AtMost, bounded-Primitives}
use supercluster.Monitor.Pass.Bounded.Returns.{Never, Returns}
use supercluster.Monitor.Pass.Sealed.{SameEnds, Sealed, NoFailure, IsSafe, Sealed-Primitives}

module _ (r : Redis) (c : Config) (net : Network) (j : Str) where
  open r use {Db, view}

  abbrev IsEnded : Db → Type 0
  IsEnded db = ended j (view db) ≡ true

  abbrev Anything : Db → Type 0
  Anything db = Unit {0}

  IsEnded-same : (db db' : Db) → SameEnds r db db' → IsEnded db → IsEnded db'
  unfolding ended
  IsEnded-same db db' (s, f, _) h = rw (s, f) h

  -- At least `k` retries, and no failure.
  abbrev Counted : ℕ → World Db → Type 0
  Counted k w = Sealed r Anything k w

  counted : (k fuel : ℕ) → Primitives r (Counted k) (NoFailure r Anything k) (Counted k) fuel
  counted k fuel = Sealed-Primitives r Anything k (λ ss db h. tt) (λ db db' e h. tt) fuel

  counts :
      (k : ℕ) {A : Type 0} (x : Reply A × World Db)
      → Holds r (Counted k) (NoFailure r Anything k) (Counted k) x
      → Given (λ _ w. Counted k w) x
  counts k (ok a, w) h = h
  counts k (raised, w) h = tt
  counts k (unfinished, w) h = tt

  ends :
      {A : Type 0} (x : Reply A × World Db)
      → Holds r (Sealed r IsEnded 0) (NoFailure r IsEnded 0) (Sealed r IsEnded 0) x
      → Given (λ _ w. IsEnded w.db) x
  ends (ok a, w) h = h.1.0
  ends (raised, w) h = tt
  ends (unfinished, w) h = tt

  both :
      {A : Type 0} (k : ℕ) (P : A → World Db → Type 0) (x : Reply A × World Db)
      → Ends P x
      → Holds r (Counted k) (NoFailure r Anything k) (Counted k) x
      → Given (λ a w. P a w × Counted k w) x
  both k P (ok a, w) h g = (h, g)
  both k P (raised, w) h g = tt
  both k P (unfinished, w) h g = tt

  -- The status has the counts of the queues that were read.
  abbrev ShowsQueues : Queues → Status → Type 0
  ShowsQueues q s = (s.num_remain ≡ q.remain) × (s.jobs_in_progress ≡ q.in_progress)

  check_and_retry-ShowsQueues :
      (fuel : ℕ) (q : Queues) (w : World Db)
      → Given (λ s _. ShowsQueues q s) (check_and_retry r c net fuel q w)
  unfolding check_and_retry
  check_and_retry-ShowsQueues fuel q w =
      let active = active_workers net q.owners in
      let Q : Status → World Db → Type 0 = λ s _. ShowsQueues q s in
      Given-bind (λ _ _. Unit {0}) Q (check_workers r c net active) _ w (Given-any _)
        (λ st w1 _.
          Given-bind (λ _ _. Unit {0}) Q
            (mark_surplus r c net active (with_status false st) (q.remain + length q.in_progress)) _
            w1 (Given-any _)
            (λ l w2 _.
              Given-bind (λ _ _. Unit {0}) Q
                (retry_stuck r c net fuel (looks_stuck r c net st q.in_progress) active q.owners)
                (λ _. pure (status_of r c net q st l)) w2 (Given-any _) (λ _ w3 _. (refl, refl))))

  -- A retry was counted, or a job remains or is in progress, or the job has ended.
  abbrev pub IsTold : ℕ → Status → World Db → Type 0
  IsTold k s w =
      (k < w.retried)
      ⊎ ((0 < s.num_remain + length s.jobs_in_progress) ⊎ (ended j (view w.db) ≡ true))

  with_counts :
      (fuel k : ℕ) (q : Queues) (w : World Db)
      → (0 < q.remain + length q.in_progress) ⊎ IsEnded w.db
      → IsUp w
      → Given (IsTold k) (check_and_retry r c net fuel q w)
  with_counts fuel k q w (inl h) up =
      Given-mono (λ s _. ShowsQueues q s) (IsTold k) (λ s w' (n, l). inr (inl (rw (n, l) h)))
        (check_and_retry r c net fuel q w) (check_and_retry-ShowsQueues fuel q w)
  with_counts fuel k q w (inr h) up =
      Given-mono (λ _ w'. IsEnded w'.db) (IsTold k) (λ s w' e. inr (inr e))
        (check_and_retry r c net fuel q w)
        (ends (check_and_retry r c net fuel q w) (
          check_and_retry-Keeps r (Sealed r IsEnded 0) (NoFailure r IsEnded 0) (Sealed r IsEnded 0)
            fuel (Sealed-Primitives r IsEnded 0 (worker_steps-ended r j) IsEnded-same fuel) c net q
            w (up, (h, omega arith))))

  -- The orphans are requeued, and each of them is counted.
  requeue-counts :
      (k : ℕ) (q : Queues) (x : Str) (l : List Str) (w : World Db)
      → Counted k w
      → Given (λ _ w'. Counted (suc k) w') (requeue_rest r c net q (x ∷ l) w)
  unfolding requeue_rest requeue_all count_retry
  requeue-counts k q x l w h =
      let p = counted (suc k) 0 in
      let Q : Queues → World Db → Type 0 = λ _ w'. Counted (suc k) w' in
      Given-bind (λ _ w1. Counted (suc k) w1) Q
        (requeue_job r x >> (count_retry >> requeue_all r c net l)) _ w
        (Given-bind (λ _ w1. Counted k w1) (λ _ w1. Counted (suc k) w1) (requeue_job r x)
          (λ _. count_retry >> requeue_all r c net l) w
          (counts k (requeue_job r x w) ((counted k 0).requeue_keeps x w h))
          (λ _ w1 (up, (i, m)). counts (suc k) ((count_retry >> requeue_all r c net l) w1) (
            requeue_all-Safe r (Counted (suc k)) (NoFailure r Anything (suc k)) (Counted (suc k)) 0
              p c net l (record w1 { retried = w1.retried + 1 }) (up, (i, omega arith)))))
        (λ _ w2 g.
          Given-bind (λ _ w3. Counted (suc k) w3) Q (ask r (r.lrange progress_queue)) _ w2
            (counts (suc k) (ask r (r.lrange progress_queue) w2) (p.ask_keeps _ w2 g))
            (λ in_progress w3 g3.
              Given-bind (λ _ w4. Counted (suc k) w4) Q (ask r (r.llen job_queue)) _ w3
                (counts (suc k) (ask r (r.llen job_queue) w3) (p.ask_keeps _ w3 g3))
                (λ remain w4 g4. g4)))

  after_orphans :
      (fuel k : ℕ) (q : Queues) (l : List Str) (w : World Db)
      → IsUp w
      → (0 < q.remain + length q.in_progress) ⊎ IsEnded w.db
      → k ≤ w.retried
      → Given (IsTold k) ((requeue_rest r c net q l >>= check_and_retry r c net fuel) w)
  unfolding requeue_rest
  after_orphans fuel k q [] w up h m = with_counts fuel k q w h up
  after_orphans fuel k q (x ∷ l) w up h m =
      Given-bind (λ _ w1. Counted (suc k) w1) (IsTold k) (requeue_rest r c net q (x ∷ l))
        (check_and_retry r c net fuel) w (requeue-counts k q x l w (up, (tt, m)))
        (λ q1 w1 g.
          Given-mono (λ _ w2. Counted (suc k) w2) (IsTold k)
            (λ s w2 (up2, (i, m2)). inl (omega arith)) (check_and_retry r c net fuel q1 w1)
            (counts (suc k) (check_and_retry r c net fuel q1 w1) (
              check_and_retry-Keeps r (Counted (suc k)) (NoFailure r Anything (suc k))
                (Counted (suc k)) fuel (counted (suc k) fuel) c net q1 w1 g)))

  read_status-Given :
      (fuel : ℕ) (w : World Db)
      → IsUp w
      → tracked j (view w.db) ≡ true
      → Given (IsTold w.retried) (read_status r c net fuel w)
  unfolding read_status requeue_orphans
  read_status-Given fuel w up h =
      Given-bind
        (λ q w1.
          (IsUp w1 × ((0 < q.remain + length q.in_progress) ⊎ IsEnded w1.db))
          × Counted w.retried w1)
        (IsTold w.retried) (read_queues r c net)
        (λ q. requeue_orphans r c net q >>= check_and_retry r c net fuel) w
        (both w.retried _ (read_queues r c net w) (read_queues-ended r c net j w up h) (
          read_queues-Safe r (Counted w.retried) (NoFailure r Anything w.retried)
            (Counted w.retried) 0 (counted w.retried 0) c net w (up, (tt, omega arith))))
        (λ q w1 ((up1, h1), (_, (_, m1))). after_orphans fuel w.retried q (orphans q) w1 up1 h1 m1)

  returned :
      {A : Type 0} (Q : A → World Db → Type 0) (k m : ℕ) (x : Reply A × World Db)
      → Given Q x
      → Holds r (Counted k) (NoFailure r Anything k) (Counted k) x
      → Returns r m x
      → Ends Q x
  returned Q k m (ok a, w) g h b = g
  returned Q k m (raised, w) g h b = h
  returned Q k m (unfinished, w) g h b = b

  -- While Redis answers every command the first time, and the fuel of the retry loop is more than
  -- the jobs in progress and the steps that the workers take, a pass gets to its status. If the
  -- status says that no job remains and none is in progress, then every job that was tracked before
  -- has ended, unless the pass counted a retry.
  pub read_status-IsTold :
      (fuel : ℕ) (w : World Db)
      → IsUp w
      → work r w < fuel
      → tracked j (view w.db) ≡ true
      → Ends (IsTold w.retried) (read_status r c net fuel w)
  read_status-IsTold fuel w up l h =
      let k = work r w in
      returned (IsTold w.retried) w.retried k (read_status r c net fuel w)
        (read_status-Given fuel w up h)
        (read_status-Keeps r (Counted w.retried) (NoFailure r Anything w.retried)
          (Counted w.retried) fuel (counted w.retried fuel) c net w (up, (tt, omega arith)))
        (read_status-Keeps r (AtMost r k) (AtMost r k) (Never r) fuel
          (bounded-Primitives r k fuel l) c net w (omega arith))
