-- ===== src/Monitor/Worker/Kept.antt =====
-- No step of a worker loses a job.
use supercluster.Prelude.{
  ◌≡◌, refl, arith, Bool, true, false, ◌||◌, List, [], ◌∷◌, ◌++◌, ◌==◌, if◌then◌else◌, Bool-cases,
  List-cases, inl, inr,
}
use supercluster.Prelude.Text.{Str, str_eq, str_eq_iff, str_eq_refl}
use supercluster.Monitor.Redis.{Redis}
use supercluster.Prelude.Sets.{elem}
use supercluster.Monitor.Redis.Keys.{
  View, job_queue, progress_queue, remove_last, insert_member, put_owner, drop_owner,
}
use supercluster.Monitor.Redis.Elem.{elem-remove_last, elem-insert_member}
use supercluster.Monitor.Worker.{
  key_chars, valid_job_key, WorkerStep, claim, finish, claim_job, finish_job, worker_step,
  worker_steps,
}

-- The job of an entry of FAILED_QUEUE, which reads <job>|<pod>.
unfoldable pub before_bar : Str → Str
before_bar [] = []
before_bar (c ∷ s) = if c == b'|' then [] else c ∷ before_bar s

unfoldable pub failed_has : Str → List Str → Bool
unfolding before_bar
failed_has j [] = false
failed_has j (s ∷ l) = str_eq j (before_bar s) || failed_has j l

-- A job waits, is worked on, or has ended.
unfoldable pub tracked : Str → View → Bool
unfolding failed_has elem
tracked j v = elem j v.jobs || (elem j v.progress || (elem j v.succeeded || failed_has j v.failed))

pub before_bar_key : (job pod : Str) → key_chars job ≡ true → before_bar (job ++ b'|' ∷ pod) ≡ job
unfolding before_bar key_chars
before_bar_key [] pod h = refl
before_bar_key (c ∷ job) pod h = ground (arith, before_bar_key job pod)

failed_has_of_elem :
    (j x : Str) (l : List Str)
    → elem x l ≡ true
    → str_eq j (before_bar x) ≡ true
    → failed_has j l ≡ true
unfolding failed_has elem
failed_has_of_elem j x [] h e = cc
failed_has_of_elem j x (y ∷ l) h e = ground (arith, failed_has_of_elem j x l, str_eq_iff x y)

pub failed_has-insert_member :
    (j x : Str) (l : List Str)
    → failed_has j (insert_member x l) ≡ (str_eq j (before_bar x) || failed_has j l)
unfolding insert_member failed_has
failed_has-insert_member j x l = ground (arith, failed_has_of_elem j x l)

pub valid_job_key_chars : (job : Str) → valid_job_key job ≡ true → key_chars job ≡ true
unfolding valid_job_key
valid_job_key_chars job h = ground arith

module _ (r : Redis) where
  open r use {Db, view}

  -- A claim moves the leftmost job and sets its owner, if there is a job.
  pub claim_view :
      (pod : Str) (db : Db)
      → view (claim_job r pod db) ≡ elim (view db).jobs [
        | [] ↦ view db
        | x ∷ xs ↦ record (view db) {
          jobs = xs;
          progress = x ∷ (view db).progress;
          owners = put_owner x pod (view db).owners;
        }
      ]
  unfolding claim_job
  claim_view pod db = elim (List-cases (view db).jobs) [
    | inl e ↦ ground (
      arith,
      r.lmove_left_reply job_queue progress_queue db,
      r.lmove_left_view job_queue progress_queue db,
    )
    | inr (x, xs, e) ↦ ground (
      arith,
      r.lmove_left_reply job_queue progress_queue db,
      r.lmove_left_view job_queue progress_queue db,
      r.hset_view x pod (r.lmove_left job_queue progress_queue db).1,
    )
  ]

  -- A finish takes the job from the progress queue and records how it ended.
  pub finish_view :
      (pod job entry : Str) (success : Bool) (db : Db)
      → view (finish_job r pod job entry success db) ≡ record (view db) {
        progress = remove_last job (view db).progress;
        owners = drop_owner job (view db).owners;
        metrics = insert_member entry (view db).metrics;
        succeeded =
            (if success then insert_member job (view db).succeeded else (view db).succeeded);
        failed =
            (if success
              then (view db).failed
              else insert_member (job ++ b'|' ∷ pod) (view db).failed);
      }
  unfolding finish_job
  finish_view pod job entry true db = simp (r.hdel_view, r.sadd_view, r.lrem_view) refl
  finish_view pod job entry false db = simp (r.hdel_view, r.sadd_view, r.lrem_view) refl

  claim-tracked :
      (j pod : Str) (db : Db)
      → tracked j (view db) ≡ true
      → tracked j (view (claim_job r pod db)) ≡ true
  unfolding tracked elem
  claim-tracked j pod db h =
      rw claim_view
        (elim (List-cases (view db).jobs) [ inl e ↦ ground arith | inr (x, xs, e) ↦ ground arith ])

  finish-tracked :
      (j pod job entry : Str) (success : Bool) (db : Db)
      → key_chars job ≡ true
      → tracked j (view db) ≡ true
      → tracked j (view (finish_job r pod job entry success db)) ≡ true
  unfolding tracked
  finish-tracked j pod job entry success db k h = rw finish_view (
      ground (
        arith,
        before_bar_key job pod k,
        str_eq_refl job,
        str_eq_iff j job,
        elem-remove_last j job (view db).progress,
        elem-insert_member j job (view db).succeeded,
        failed_has-insert_member j (job ++ b'|' ∷ pod) (view db).failed,
      ))

  worker_step-tracked :
      (s : WorkerStep) (j : Str) (db : Db)
      → tracked j (view db) ≡ true
      → tracked j (view (worker_step r s db)) ≡ true
  unfolding worker_step
  worker_step-tracked (claim pod) j db h = claim-tracked j pod db h
  worker_step-tracked (finish pod job entry success) j db h =
      elim (Bool-cases (valid_job_key job)) [
        | inl e ↦ rw e (finish-tracked j pod job entry success db (valid_job_key_chars job e) h)
        | inr e ↦ rw e h
      ]

  -- Whatever the workers do, a job that is tracked stays tracked.
  pub worker_steps-tracked :
      (ss : List WorkerStep) (j : Str) (db : Db)
      → tracked j (view db) ≡ true
      → tracked j (view (worker_steps r ss db)) ≡ true
  unfolding worker_steps
  worker_steps-tracked [] j db h = h
  worker_steps-tracked (s ∷ ss) j db h =
      worker_steps-tracked ss j (worker_step r s db) (worker_step-tracked s j db h)
