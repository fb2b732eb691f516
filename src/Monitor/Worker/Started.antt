-- ===== src/Monitor/Worker/Started.antt =====
-- A job that has been claimed, and one that has ended, stay so whatever the workers do.
use supercluster.Prelude.{
  ◌≡◌, arith, Bool, true, ◌||◌, List, [], ◌∷◌, ◌++◌, Bool-cases, List-cases, inl, inr,
}
use supercluster.Prelude.Text.{Str, str_eq_iff, str_eq_refl}
use supercluster.Prelude.Sets.{elem}
use supercluster.Monitor.Redis.{Redis}
use supercluster.Monitor.Redis.Keys.{View}
use supercluster.Monitor.Redis.Elem.{elem-remove_last, elem-insert_member}
use supercluster.Monitor.Worker.{
  key_chars, valid_job_key, WorkerStep, claim, finish, claim_job, finish_job, worker_step,
  worker_steps,
}
use supercluster.Monitor.Worker.Kept.{
  failed_has, claim_view, finish_view, before_bar_key, failed_has-insert_member,
  valid_job_key_chars,
}

-- The job has succeeded or failed.
unfoldable pub ended : Str → View → Bool
unfolding failed_has elem
ended j v = elem j v.succeeded || failed_has j v.failed

-- The job is in progress or has ended.
unfoldable pub started : Str → View → Bool
unfolding ended elem
started j v = elem j v.progress || ended j v

module _ (r : Redis) (j : Str) where
  open r use {Db, view}

  finish_ended :
      (pod job entry : Str) (success : Bool) (db : Db)
      → ended j (view db) ≡ true
      → ended j (view (finish_job r pod job entry success db)) ≡ true
  unfolding ended
  finish_ended pod job entry success db h = rw finish_view (
      ground (
        arith,
        elem-insert_member j job (view db).succeeded,
        failed_has-insert_member j (job ++ b'|' ∷ pod) (view db).failed,
      ))

  finish_started :
      (pod job entry : Str) (success : Bool) (db : Db)
      → key_chars job ≡ true
      → started j (view db) ≡ true
      → started j (view (finish_job r pod job entry success db)) ≡ true
  unfolding started
  finish_started pod job entry success db k h = rw finish_view (
      ground (
        arith,
        before_bar_key job pod k,
        str_eq_refl job,
        str_eq_iff j job,
        elem-remove_last j job (view db).progress,
        elem-insert_member j job (view db).succeeded,
        failed_has-insert_member j (job ++ b'|' ∷ pod) (view db).failed,
      ))

  claim_ended :
      (pod : Str) (db : Db) → ended j (view db) ≡ true → ended j (view (claim_job r pod db)) ≡ true
  unfolding ended
  claim_ended pod db h = ground (arith, claim_view r pod db)

  claim_started :
      (pod : Str) (db : Db)
      → started j (view db) ≡ true
      → started j (view (claim_job r pod db)) ≡ true
  unfolding started
  claim_started pod db h =
      rw claim_view
        (elim (List-cases (view db).jobs) [ inl e ↦ ground arith | inr (x, xs, e) ↦ ground arith ])

  worker_step-ended :
      (s : WorkerStep) (db : Db)
      → ended j (view db) ≡ true
      → ended j (view (worker_step r s db)) ≡ true
  unfolding worker_step
  worker_step-ended (claim pod) db h = claim_ended pod db h
  worker_step-ended (finish pod job entry success) db h = elim (Bool-cases (valid_job_key job)) [
    | inl e ↦ rw e (finish_ended pod job entry success db h)
    | inr e ↦ rw e h
  ]

  worker_step-started :
      (s : WorkerStep) (db : Db)
      → started j (view db) ≡ true
      → started j (view (worker_step r s db)) ≡ true
  unfolding worker_step
  worker_step-started (claim pod) db h = claim_started pod db h
  worker_step-started (finish pod job entry success) db h = elim (Bool-cases (valid_job_key job)) [
    | inl e ↦ rw e (finish_started pod job entry success db (valid_job_key_chars job e) h)
    | inr e ↦ rw e h
  ]

  pub worker_steps-ended :
      (ss : List WorkerStep) (db : Db)
      → ended j (view db) ≡ true
      → ended j (view (worker_steps r ss db)) ≡ true
  unfolding worker_steps
  worker_steps-ended [] db h = h
  worker_steps-ended (s ∷ ss) db h =
      worker_steps-ended ss (worker_step r s db) (worker_step-ended s db h)

  pub worker_steps-started :
      (ss : List WorkerStep) (db : Db)
      → started j (view db) ≡ true
      → started j (view (worker_steps r ss db)) ≡ true
  unfolding worker_steps
  worker_steps-started [] db h = h
  worker_steps-started (s ∷ ss) db h =
      worker_steps-started ss (worker_step r s db) (worker_step-started s db h)
