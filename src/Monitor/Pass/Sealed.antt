-- ===== src/Monitor/Pass/Sealed.antt =====
-- Actions that keep the sets of the ended jobs and the entries in METRICS, and take no retry back, whatever the workers do.
use supercluster.Prelude.{
  ℕ, ◌≤◌, ◌≡◌, refl, ap, ◌∙◌, arith, List, [], ◌∷◌, ◌==◌, Option-cases, inl, inr, if◌then◌else◌,
}
use supercluster.Prelude.Text.{Str}
use supercluster.Monitor.Redis.{Redis}
use supercluster.Monitor.Redis.Keys.{View, job_queue, progress_queue, retiring_key, last?}
use supercluster.Monitor.Worker.{WorkerStep, worker_steps}
use supercluster.Monitor.World.{
  World, Slot, Outcome, answered, refused, unheard, Reply, ok, raised, unfinished, Action, pure,
  call, carried, tell, end_call,
}
use supercluster.Monitor.World.Given.{Given}
use supercluster.Monitor.World.Calls.{IsUp, Ends, call-Ends}
use supercluster.Monitor.Requeue.{requeue_job}
use supercluster.Monitor.Surplus.{sadd_all}
use supercluster.Monitor.Pass.Keeps.Retry.{retry-Keeps}
use supercluster.Monitor.Pass.Keeps.{Holds, Keeps, Keeps-bind, Keeps-if, Primitives}

module _ (r : Redis) where
  open r use {Db, view}

  -- The sets of the ended jobs and the entries are the same.
  abbrev pub SameEnds : Db → Db → Type 0
  SameEnds db db' =
      ((view db').succeeded ≡ (view db).succeeded)
      × ((view db').failed ≡ (view db).failed)
      × ((view db').metrics ≡ (view db).metrics)

  call_retried :
      {A : Type 0} (op : Db → A × Db) (w : World Db)
      → Given (λ _ w'. w'.retried ≡ w.retried) (call r op w)
  unfolding call
  call_retried {A} op w = go w.slots
    where
      ends :
          (o : Outcome) (u : World Db)
          → u.retried ≡ w.retried
          → Given (λ _ w'. w'.retried ≡ w.retried) (end_call o op u)
      ends answered u e = e
      ends refused u e = tt
      ends unheard u e = tt

      go :
          (s : List Slot)
          → Given
              (λ _ w'. w'.retried ≡ w.retried)
              (elim s as (λ _. Reply A × World Db) [
                | [] ↦ end_call answered op w
                | s ∷ rest ↦ end_call s.outcome op (record w {
                  db = carried r op s.resent (worker_steps r s.steps w.db);
                  slots = rest;
                })
              ])
      go [] = ends answered w refl
      go (s ∷ rest) =
          ends s.outcome
            (record w { db = carried r op s.resent (worker_steps r s.steps w.db); slots = rest })
            refl

  module _ (I : Db → Type 0) (k : ℕ) where
    -- Every command was answered the first time, `I` holds of the store, and there are at least `k`
    -- retries.
    abbrev pub Sealed : World Db → Type 0
    Sealed w = IsUp w × (I w.db × (k ≤ w.retried))

    abbrev pub NoFailure : World Db → Type 0
    NoFailure w = ⊥

    abbrev pub IsSafe : {A : Type 0} → Action Db A → Type 0
    IsSafe m = Keeps r Sealed NoFailure Sealed m

    Ends-Given :
        {A : Type 0} (n : ℕ) (x : Reply A × World Db)
        → Ends (λ _ w. IsUp w × I w.db) x
        → Given (λ _ w. w.retried ≡ n) x
        → k ≤ n
        → Holds r Sealed NoFailure Sealed x
    Ends-Given n (ok a, w) (up, i) e l = (up, (i, omega arith))
    Ends-Given n (raised, w) h e l = h
    Ends-Given n (unfinished, w) h e l = absurd h

    module _ (steps : (ss : List WorkerStep) (db : Db) → I db → I (worker_steps r ss db))
        (same : (db db' : Db) → SameEnds db db' → I db → I db') where
      call-IsSafe :
          {A : Type 0} (op : Db → A × Db) → ((db : Db) → SameEnds db (op db).1) → IsSafe (call r op)
      call-IsSafe op e w (up, (i, l)) =
          Ends-Given w.retried (call r op w)
            (call-Ends r op I (λ _ db. I db) steps (λ db h. same db (op db).1 (e db) h) w up i)
            (call_retried op w) l

      of_view :
          (db db' : Db) (v : View)
          → view db' ≡ v
          → v.succeeded ≡ (view db).succeeded
          → v.failed ≡ (view db).failed
          → v.metrics ≡ (view db).metrics
          → SameEnds db db'
      of_view db db' v e s f m = (
        ap (λ (x : View). x.succeeded) e ∙ s,
        ap (λ (x : View). x.failed) e ∙ f,
        ap (λ (x : View). x.metrics) e ∙ m,
      )

      sadd_all_same : (ws : List Str) (db : Db) → SameEnds db (sadd_all r ws db)
      unfolding sadd_all
      sadd_all_same [] db = (refl, refl, refl)
      sadd_all_same (x ∷ ws) db =
          let (s, f, m) = sadd_all_same ws (r.sadd retiring_key x db) in
          let e = r.sadd_view retiring_key x db in
          (
            s ∙ ap (λ (x : View). x.succeeded) e,
            f ∙ ap (λ (x : View). x.failed) e,
            m ∙ ap (λ (x : View). x.metrics) e,
          )

      lmove_same : (db : Db) → SameEnds db (r.lmove progress_queue job_queue db).1
      lmove_same db = elim (Option-cases (last? (view db).progress)) [
        | inl e ↦ ground (arith, r.lmove_view progress_queue job_queue db)
        | inr (x, e) ↦ ground (arith, r.lmove_view progress_queue job_queue db)
      ]

      hdel_same : (x : Str) (db : Db) → SameEnds db (r.hdel x db)
      hdel_same x db = of_view db (r.hdel x db) _ (r.hdel_view x db) refl refl refl

      requeue-IsSafe : (x : Str) → IsSafe (requeue_job r x)
      unfolding requeue_job
      requeue-IsSafe x =
          Keeps-bind r Sealed NoFailure Sealed (call r (r.lrem progress_queue x)) _
            (call-IsSafe _ (λ db. of_view db _ _ (r.lrem_view progress_queue x db) refl refl refl))
            (λ n.
              Keeps-bind r Sealed NoFailure Sealed
                (if n == 1 then tell r (r.lpush job_queue x) else pure tt) _
                (Keeps-if r Sealed NoFailure Sealed (n == 1) (tell r (r.lpush job_queue x))
                  (pure tt)
                  (call-IsSafe _
                    (λ db. of_view db _ _ (r.lpush_view job_queue x db) refl refl refl))
                  (λ w h. h))
                (λ _. call-IsSafe _ (hdel_same x)))

      pub Sealed-Primitives : (fuel : ℕ) → Primitives r Sealed NoFailure Sealed fuel
      Sealed-Primitives fuel = record {
        aside = λ w asked slept h. h;
        counted = λ w (up, (i, l)). (up, (i, omega arith));
        ask_keeps = λ f. call-IsSafe _ (λ db. (refl, refl, refl));
        requeue_keeps = requeue-IsSafe;
        sadd_keeps = λ ws. call-IsSafe _ (sadd_all_same ws);
        hdel_keeps = λ x. call-IsSafe _ (hdel_same x);
        retry_keeps =
            retry-Keeps r Sealed NoFailure Sealed (λ w h. h)
              (call-IsSafe _ (λ db. (refl, refl, refl))) (call-IsSafe _ lmove_same)
              (λ w (up, (i, l)). (up, (i, omega arith))) fuel;
      }
