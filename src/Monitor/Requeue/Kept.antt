-- ===== src/Monitor/Requeue/Kept.antt =====
-- Requeuing loses no job, whatever the workers do between the commands.
use supercluster.Prelude.{◌≡◌, arith, Bool, true, false, List, ◌==◌, if◌then◌else◌, inl, inr, ◌⊎◌}
use supercluster.Prelude.Text.{Str, str_eq, str_eq_iff}
use supercluster.Monitor.Redis.{Redis}
use supercluster.Prelude.Sets.{elem}
use supercluster.Monitor.Redis.Keys.{job_queue, progress_queue}
use supercluster.Monitor.Redis.Elem.{elem-remove_last, remove_last_absent}
use supercluster.Monitor.Worker.{WorkerStep, worker_steps}
use supercluster.Monitor.Worker.Kept.{tracked, worker_steps-tracked}
use supercluster.Monitor.World.{World, pure, ◌>>◌, call, tell}
use supercluster.Monitor.World.Calls.{IsUp, Ends, Ends-bind, call-Ends}
use supercluster.Monitor.Requeue.{requeue_job}

module _ (r : Redis) (j : Str) where
  open r use {Db, view, lrem, lpush, hdel}

  -- The job `j` waits, is worked on, or has ended.
  abbrev pub Has : Db → Type 0
  Has db = tracked j (view db) ≡ true

  stable : (ss : List WorkerStep) (db : Db) → Has db → Has (worker_steps r ss db)
  stable ss db h = worker_steps-tracked r ss j db h

  -- The job `j` is tracked, or it is `x` and the monitor has it in hand.
  abbrev HasOr : Str → Bool → Db → Type 0
  HasOr x held db = Has db ⊎ ((str_eq j x ≡ true) × (held ≡ true))

  stable_or :
      (x : Str) (held : Bool) (ss : List WorkerStep) (db : Db)
      → HasOr x held db
      → HasOr x held (worker_steps r ss db)
  stable_or x held ss db (inl h) = inl (stable ss db h)
  stable_or x held ss db (inr h) = inr h

  lrem_step :
      (x : Str) (db : Db)
      → Has db
      → HasOr x ((lrem progress_queue x db).0 == 1) (lrem progress_queue x db).1
  unfolding tracked
  lrem_step x db h = ground (
    arith,
    r.lrem_reply progress_queue x db,
    r.lrem_view progress_queue x db,
    elem-remove_last j x (view db).progress,
    remove_last_absent x (view db).progress,
    str_eq_iff j x,
  )

  lpush_step : (x : Str) (db : Db) → HasOr x true db → Has (lpush job_queue x db)
  unfolding tracked elem
  lpush_step x db (inl h) = ground (arith, r.lpush_view job_queue x db)
  lpush_step x db (inr (e, _)) = ground (arith, r.lpush_view job_queue x db)

  hdel_step : (x : Str) (db : Db) → Has db → Has (hdel x db)
  unfolding tracked
  hdel_step x db h = rw (r.hdel_view x db) h

  -- `hdel` after the push, or after no push.
  finish_requeue :
      (x : Str) (held : Bool) (w : World Db)
      → IsUp w
      → HasOr x held w.db
      → Ends
          (λ _ w'. IsUp w' × Has w'.db)
          (((if held then tell r (lpush job_queue x) else pure tt) >> tell r (hdel x)) w)
  finish_requeue x true w up h =
      Ends-bind (λ _ w'. IsUp w' × Has w'.db) (λ _ w'. IsUp w' × Has w'.db)
        (tell r (lpush job_queue x)) (λ _. tell r (hdel x)) w
        (call-Ends r (λ db. (tt, lpush job_queue x db)) (HasOr x true) (λ _. Has) (stable_or x true)
          (lpush_step x) w up h)
        (λ _ w' q.
          call-Ends r (λ db. (tt, hdel x db)) Has (λ _. Has) stable (hdel_step x) w' q.0 q.1)
  finish_requeue x false w up (inl h) =
      call-Ends r (λ db. (tt, hdel x db)) Has (λ _. Has) stable (hdel_step x) w up h
  finish_requeue x false w up (inr h) = absurd (ground arith)

  -- While the commands succeed, `requeue_job` returns, and every job that waited, was worked on or
  -- had ended still does, whatever the workers claim and finish between its commands.
  pub requeue_job-tracked :
      (x : Str) (w : World Db)
      → IsUp w
      → tracked j (view w.db) ≡ true
      → Ends (λ _ w'. IsUp w' × (tracked j (view w'.db) ≡ true)) (requeue_job r x w)
  unfolding requeue_job
  requeue_job-tracked x w up h =
      Ends-bind (λ n w'. IsUp w' × HasOr x (n == 1) w'.db) (λ _ w'. IsUp w' × Has w'.db)
        (call r (lrem progress_queue x)) _ w
        (call-Ends r (lrem progress_queue x) Has (λ n. HasOr x (n == 1)) stable (lrem_step x) w up
          h)
        (λ n w' q. finish_requeue x (n == 1) w' q.0 q.1)
