-- ===== src/Monitor/Pass/Kept.antt =====
-- A whole pass loses no job, whatever the workers do between its commands.
use mathlib.Core.Path.{subst}
use supercluster.Prelude.{ℕ, ◌≡◌, sym, arith, true, List, [], ◌∷◌, Option, Option-cases, inl, inr}
use supercluster.Prelude.Text.{Str}
use supercluster.Prelude.Sets.{elem}
use supercluster.Python.Number.{Number}
use supercluster.Monitor.Redis.{Redis}
use supercluster.Monitor.Redis.Keys.{job_queue, progress_queue, metrics_key, retiring_key, last?}
use supercluster.Monitor.Redis.Elem.{elem-move_last}
use supercluster.Monitor.Worker.Kept.{tracked, worker_steps-tracked}
use supercluster.Monitor.World.{World, Reply, ok, raised, unfinished, Action, call}
use supercluster.Monitor.World.Calls.{IsUp, Ends, call-Ends}
use supercluster.Monitor.Network.{Config, Network}
use supercluster.Monitor.Requeue.{requeue_job}
use supercluster.Monitor.Requeue.Kept.{requeue_job-tracked}
use supercluster.Monitor.Surplus.{sadd_all}
use supercluster.Monitor.Pass.{Status, read_status}
use supercluster.Monitor.Pass.Board.{Board, Clock, publish}
use supercluster.Monitor.Pass.Metrics.{after_spop, after_status, pass}
use supercluster.Monitor.Pass.Keeps.{Holds, Keeps, Primitives}
use supercluster.Monitor.Pass.Keeps.Retry.{retry-Keeps}
use supercluster.Monitor.Pass.Keeps.Phases.{read_status-Keeps}

module _ (r : Redis) (j : Str) where
  open r use {Db, view}

  -- Every command was answered the first time, and the job is still tracked.
  abbrev pub Fine : World Db → Type 0
  Fine w = IsUp w × (tracked j (view w.db) ≡ true)

  -- No command can fail, and the job is tracked up to the end, or as far as the fuel goes.
  abbrev Never : World Db → Type 0
  Never w = ⊥

  abbrev Safe : {A : Type 0} → Action Db A → Type 0
  Safe m = Keeps r Fine Never Fine m

  Ends-Holds :
      {A : Type 0} (x : Reply A × World Db) → Ends (λ _ w. Fine w) x → Holds r Fine Never Fine x
  Ends-Holds (ok a, w) h = h
  Ends-Holds (raised, w) h = h
  Ends-Holds (unfinished, w) h = absurd h

  call-Safe :
      {A : Type 0} (op : Db → A × Db)
      → ((db : Db) → tracked j (view db) ≡ true → tracked j (view (op db).1) ≡ true)
      → Safe (call r op)
  call-Safe op k w (up, h) = Ends-Holds (call r op w) (
      call-Ends r op (λ db. tracked j (view db) ≡ true) (λ _ db. tracked j (view db) ≡ true)
        (λ ss db. worker_steps-tracked r ss j db) k w up h)

  lmove_keeps :
      (db : Db)
      → tracked j (view db) ≡ true
      → tracked j (view (r.lmove progress_queue job_queue db).1) ≡ true
  unfolding tracked elem
  lmove_keeps db h = elim (Option-cases (last? (view db).progress)) [
    | inl e ↦ ground (arith, r.lmove_view progress_queue job_queue db)
    | inr (x, e) ↦
        ground
          (arith, r.lmove_view progress_queue job_queue db, elem-move_last j (view db).progress e)
  ]

  hdel_keeps :
      (x : Str) (db : Db) → tracked j (view db) ≡ true → tracked j (view (r.hdel x db)) ≡ true
  unfolding tracked
  hdel_keeps x db h = rw (r.hdel_view x db) h

  spop_keeps :
      (n : ℕ) (db : Db)
      → tracked j (view db) ≡ true
      → tracked j (view (r.spop metrics_key n db).1) ≡ true
  unfolding tracked
  spop_keeps n db h = subst (λ v. tracked j v ≡ true) (sym (r.spop_view metrics_key n db)) h

  sadd_all_keeps :
      (ws : List Str) (db : Db)
      → tracked j (view db) ≡ true
      → tracked j (view (sadd_all r ws db)) ≡ true
  unfolding sadd_all tracked
  sadd_all_keeps [] db h = h
  sadd_all_keeps (x ∷ ws) db h =
      sadd_all_keeps ws (r.sadd retiring_key x db) (rw (r.sadd_view retiring_key x db) h)

  tracked-Primitives : (fuel : ℕ) → Primitives r Fine Never Fine fuel
  tracked-Primitives fuel = record {
    aside = λ w asked slept h. h;
    counted = λ w h. h;
    ask_keeps = λ f. call-Safe (λ db. (f db, db)) (λ db h. h);
    requeue_keeps =
        λ x w (up, h). Ends-Holds (requeue_job r x w) (requeue_job-tracked r j x w up h);
    sadd_keeps = λ ws. call-Safe (λ db. (tt, sadd_all r ws db)) (sadd_all_keeps ws);
    hdel_keeps = λ x. call-Safe (λ db. (tt, r.hdel x db)) (hdel_keeps x);
    retry_keeps =
        retry-Keeps r Fine Never Fine (λ w h. h)
          (call-Safe (λ db. (r.llen progress_queue db, db)) (λ db h. h)) (call-Safe _ lmove_keeps)
          (λ w h. h) fuel;
  }

module _ (n : Number) (float : Str → Option n.F) (r : Redis) (c : Config) (net : Network) where
  open r use {Db, view}

  after_spop-Fine :
      (j : Str) (b : Board n.F) (x : Reply (List Str) × World Db)
      → Holds r (Fine r j) (Never r j) (Fine r j) x
      → Fine r j (after_spop n float r c net b x).1.1
  after_spop-Fine j b (ok new, w) h = h
  after_spop-Fine j b (raised, w) h = absurd h
  after_spop-Fine j b (unfinished, w) h = h

  after_status-Fine :
      (j : Str) (start : n.F) (clock : Clock n.F) (b : Board n.F) (x : Reply Status × World Db)
      → Holds r (Fine r j) (Never r j) (Fine r j) x
      → Fine r j (after_status n float r c net start clock b x).1.1
  after_status-Fine j start clock b (ok s, w) h =
      after_spop-Fine j (publish n start clock s b) (call r (r.spop metrics_key 1000) w)
        (call-Safe r j (r.spop metrics_key 1000) (spop_keeps r j 1000) w h)
  after_status-Fine j start clock b (raised, w) h = absurd h
  after_status-Fine j start clock b (unfinished, w) h = h

  pub pass-Fine :
      (j : Str) (start : n.F) (clock : Clock n.F) (fuel : ℕ) (b : Board n.F) (w : World Db)
      → Fine r j w
      → Fine r j (pass n float r c net start clock fuel b w).1.1
  unfolding pass
  pass-Fine j start clock fuel b w h =
      after_status-Fine j start clock b (read_status r c net fuel w) (
        read_status-Keeps r (Fine r j) (Never r j) (Fine r j) fuel (tracked-Primitives r j fuel) c
          net w h)

  -- While Redis answers every command the first time, a job that waited in the job queue, was in
  -- progress or had ended before a pass still does at the end of the pass, or as far as the bound
  -- on the rounds of the retry loop lets it go, whatever the workers claim and finish between its
  -- commands and whatever the network answers.
  pub pass-tracked :
      (j : Str) (start : n.F) (clock : Clock n.F) (fuel : ℕ) (b : Board n.F) (w : World Db)
      → IsUp w
      → tracked j (view w.db) ≡ true
      → tracked j (view (pass n float r c net start clock fuel b w).1.1.db) ≡ true
  pass-tracked j start clock fuel b w up h = (pass-Fine j start clock fuel b w (up, h)).1
