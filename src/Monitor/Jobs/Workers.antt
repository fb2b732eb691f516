-- ===== src/Monitor/Jobs/Workers.antt =====
-- The steps of the workers and the machine.
use supercluster.Prelude.{
  ℕ, ◌≡◌, arith, Bool, true, List, [], ◌∷◌, ◌++◌, Bool-cases, List-cases, inl, inr,
}
use supercluster.Prelude.Text.{Str, str_eq, str_eq_iff, str_eq_refl}
use supercluster.Monitor.Redis.{Redis}
use supercluster.Monitor.Redis.Elem.{elem-insert_member}
use supercluster.Monitor.Worker.{
  WorkerStep, claim, finish, claim_job, finish_job, worker_step, worker_steps, key_chars,
  valid_job_key,
}
use supercluster.Monitor.Worker.Kept.{
  claim_view, finish_view, failed_has-insert_member, before_bar_key, valid_job_key_chars,
}
use supercluster.Monitor.Worker.Started.{ended}
use supercluster.Monitor.Jobs.{copies, Step, Reach, here, next, Reach-trans, Reach-eq, state_of}
use supercluster.Monitor.Jobs.Copies.{copies-remove_last}

module _ (r : Redis) (j : Str) where
  open r use {Db, view}

  abbrev pub Follows : ℕ → ℕ → Db → Db → Type 0
  Follows h a db db' = Reach (state_of j (view db) h a) (state_of j (view db') h a)

  claim-Follows : (pod : Str) (db : Db) (h a : ℕ) → Follows h a db (claim_job r pod db)
  unfolding copies ended
  claim-Follows pod db h a = elim (List-cases (view db).jobs) [
    | inl e ↦ Reach-eq (ground (arith, claim_view r pod db))
    | inr (x, xs, e) ↦ elim (Bool-cases (str_eq j x)) [
      | inl q ↦
          next here (Step.claim (copies j xs) (ground arith) (ground (arith, claim_view r pod db)))
      | inr q ↦ Reach-eq (ground (arith, claim_view r pod db))
    ]
  ]

  finish-Follows :
      (pod job entry : Str) (success : Bool) (db : Db) (h a : ℕ)
      → key_chars job ≡ true
      → Follows h a db (finish_job r pod job entry success db)
  unfolding ended
  finish-Follows pod job entry success db h a k =
      let n = copies-remove_last j job (view db).progress in
      let b = before_bar_key job pod k in
      let s = elem-insert_member j job (view db).succeeded in
      let f = failed_has-insert_member j (job ++ b'|' ∷ pod) (view db).failed in
      elim (Bool-cases (str_eq j job)) [
        | inl q ↦ next here (
            Step.finish
              (rw (finish_view r) (ground (arith, n, b, s, f, str_eq_iff j job, str_eq_refl job))))
        | inr q ↦ Reach-eq (rw (finish_view r) (ground (arith, n, b, s, f)))
      ]

  worker_step-Follows : (s : WorkerStep) (db : Db) (h a : ℕ) → Follows h a db (worker_step r s db)
  unfolding worker_step
  worker_step-Follows (claim pod) db h a = claim-Follows pod db h a
  worker_step-Follows (finish pod job entry success) db h a =
      elim (Bool-cases (valid_job_key job)) [
        | inl e ↦ rw e (finish-Follows pod job entry success db h a (valid_job_key_chars job e))
        | inr e ↦ rw e here
      ]

  pub worker_steps-Follows :
      (ss : List WorkerStep) (db : Db) (h a : ℕ) → Follows h a db (worker_steps r ss db)
  unfolding worker_steps
  worker_steps-Follows [] db h a = here
  worker_steps-Follows (s ∷ ss) db h a =
      Reach-trans (worker_step-Follows s db h a) (worker_steps-Follows ss (worker_step r s db) h a)
