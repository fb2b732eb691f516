-- ===== src/Monitor/Jobs/Refines.antt =====
-- The actions of the monitor refine the machine.
use supercluster.Prelude.{
  ℕ, ◌+◌, ◌≤◌, ◌≡◌, refl, arith, List, [], ◌∷◌, ◌==◌, if◌then◌else◌, Bool-cases, inl, inr,
}
use supercluster.Prelude.Text.{Str}
use supercluster.Monitor.Redis.{Redis}
use supercluster.Monitor.Redis.Keys.{View, job_queue, progress_queue, retiring_key}
use supercluster.Monitor.Worker.Started.{ended}
use supercluster.Monitor.World.{World, Reply, ok, raised, unfinished, Action, pure, call, tell}
use supercluster.Monitor.Requeue.{requeue_job}
use supercluster.Monitor.Surplus.{sadd_all}
use supercluster.Monitor.Pass.Keeps.Retry.{retry-Keeps}
use supercluster.Monitor.Pass.Keeps.{Holds, Keeps, Primitives}
use supercluster.Monitor.Jobs.{JobState, Reach, here, Reach-trans, Reach-eq, state_of}
use supercluster.Monitor.Jobs.Calls.{Stands, Leads, Leads-bind, call-Leads}
use supercluster.Monitor.Jobs.Moves.{
  taken, lrem-Reach, lpush-Reach, lmove-Reach, lrem-Resends, lpush-Resends,
}

module _ (r : Redis) (j : Str) (s : JobState) (k : ℕ × ℕ) where
  open r use {Db, view}

  abbrev pub Standing : World Db → Type 0
  Standing w = Stands r j s k 0 w

  abbrev pub IsFollowed : {A : Type 0} → Action Db A → Type 0
  IsFollowed m = Keeps r Standing Standing Standing m

  Leads-Holds :
      {A : Type 0} (x : Reply A × World Db)
      → Leads r j s k (λ _ w. Standing w) x
      → Holds r Standing Standing Standing x
  Leads-Holds (ok a, w) h = h
  Leads-Holds (raised, w) h = h
  Leads-Holds (unfinished, w) h = h

  -- A command that takes nothing in hand.
  pub call-IsFollowed :
      {A : Type 0} (op : Db → A × Db)
      → ((db : Db) (h a : ℕ) → Reach (state_of j (view db) h a) (state_of j (view (op db).1) h a))
      → IsFollowed (call r op)
  call-IsFollowed op e w h = Leads-Holds (call r op w) (
      call-Leads r j s k op 0 (λ _. 0) w (omega arith) (λ db. omega arith)
        (λ db m a. e db (m + 0) a) (λ db m a. (m, a, e db (m + 0) a, omega arith, omega arith)) h)

  -- The queues and the sets of the ended jobs are the same.
  pub same_queues :
      (db db' : Db) (v : View)
      → view db' ≡ v
      → v.jobs ≡ (view db).jobs
      → v.progress ≡ (view db).progress
      → v.succeeded ≡ (view db).succeeded
      → v.failed ≡ (view db).failed
      → (h a : ℕ) → Reach (state_of j (view db) h a) (state_of j (view db') h a)
  unfolding ended
  same_queues db db' v e p q t f h a = Reach-eq (ground (arith, e))

  sadd_all-Reach :
      (ws : List Str) (db : Db) (h a : ℕ)
      → Reach (state_of j (view db) h a) (state_of j (view (sadd_all r ws db)) h a)
  unfolding sadd_all
  sadd_all-Reach [] db h a = here
  sadd_all-Reach (x ∷ ws) db h a =
      Reach-trans
        (same_queues db (r.sadd retiring_key x db) _ (r.sadd_view retiring_key x db) refl refl refl
          refl h a)
        (sadd_all-Reach ws (r.sadd retiring_key x db) h a)

  hdel-IsFollowed : (x : Str) → IsFollowed (tell r (r.hdel x))
  hdel-IsFollowed x =
      call-IsFollowed _
        (λ db h a. same_queues db (r.hdel x db) _ (r.hdel_view x db) refl refl refl refl h a)

  taken-le-one : (x : Str) (n : ℕ) → taken r j x n ≤ 1
  taken-le-one x n = ground arith

  -- The copies that LREM has taken are pushed.
  put_back :
      (x : Str) (n : ℕ) (w : World Db)
      → Stands r j s k (taken r j x n) w
      → Leads r j s k
          (λ _ w'. Standing w')
          ((if n == 1 then tell r (r.lpush job_queue x) else pure tt) w)
  put_back x n w h = elim (Bool-cases (n == 1)) [
    | inl e ↦ rw e (
        call-Leads r j s k (λ db. (tt, r.lpush job_queue x db)) (taken r j x n) (λ _. 0) w
          (taken-le-one x n) (λ db. omega arith) (λ db m a. lpush-Reach r j x n db m a e)
          (lpush-Resends r j x n) h)
    | inr e ↦ rw e (rw e at h)
  ]

  requeue-IsFollowed : (x : Str) → IsFollowed (requeue_job r x)
  unfolding requeue_job
  requeue-IsFollowed x w h = Leads-Holds (requeue_job r x w) (
      Leads-bind r j s k (λ n w1. Stands r j s k (taken r j x n) w1) (λ _ w'. Standing w')
        (call r (r.lrem progress_queue x)) _ w
        (call-Leads r j s k (r.lrem progress_queue x) 0 (taken r j x) w (omega arith)
          (λ db. taken-le-one x _) (lrem-Reach r j x) (lrem-Resends r j x) h)
        (λ n w1 h1.
          Leads-bind r j s k (λ _ w2. Standing w2) (λ _ w'. Standing w')
            (if n == 1 then tell r (r.lpush job_queue x) else pure tt) (λ _. tell r (r.hdel x)) w1
            (put_back x n w1 h1)
            (λ _ w2 h2. Holds-Leads (tell r (r.hdel x) w2) (hdel-IsFollowed x w2 h2))))
    where
      Holds-Leads :
          (y : Reply (Unit {0}) × World Db)
          → Holds r Standing Standing Standing y
          → Leads r j s k (λ _ w'. Standing w') y
      Holds-Leads (ok a, w) h = h
      Holds-Leads (raised, w) h = h
      Holds-Leads (unfinished, w) h = h

  pub followed-Primitives : (fuel : ℕ) → Primitives r Standing Standing Standing fuel
  followed-Primitives fuel = record {
    aside = λ w asked slept h. h;
    counted = λ w h. h;
    ask_keeps = λ f. call-IsFollowed _ (λ db h a. here);
    requeue_keeps = requeue-IsFollowed;
    sadd_keeps = λ ws. call-IsFollowed _ (sadd_all-Reach ws);
    hdel_keeps = hdel-IsFollowed;
    retry_keeps =
        retry-Keeps r Standing Standing Standing (λ w h. h) (call-IsFollowed _ (λ db h a. here))
          (call-IsFollowed _ (lmove-Reach r j)) (λ w h. h) fuel;
  }
