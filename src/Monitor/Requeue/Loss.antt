-- ===== src/Monitor/Requeue/Loss.antt =====
-- The gap between the two commands of `requeue_job`, and a removal that is sent again.
use supercluster.Prelude.{
  ℕ, ◌≡◌, refl, ap, ◌∙◌, arith, Bool, true, false, List, [], ◌∷◌, ◌==◌, if◌then◌else◌,
}
use supercluster.Prelude.Text.{Str}
use supercluster.Monitor.Redis.{Redis}
use supercluster.Prelude.Sets.{elem}
use supercluster.Monitor.Redis.Keys.{View, job_queue, progress_queue, remove_last}
use supercluster.Monitor.Redis.Elem.{remove_last_absent}
use supercluster.Monitor.Worker.{worker_steps}
use supercluster.Monitor.Worker.Kept.{tracked, failed_has}
use supercluster.Monitor.World.{
  World, Slot, answered, refused, raised, Reply, ok, Action, next, pure, ◌>>◌, call, carried, tell,
}
use supercluster.Monitor.World.Calls.{run-bind, call_quiet}
use supercluster.Monitor.Requeue.{requeue_job}

-- A command with no step of a worker before it.
abbrev pub alone : Bool → Slot
alone true = record { steps = []; outcome = answered; resent = [] }
alone false = record { steps = []; outcome = refused; resent = [] }

-- The command is carried out, its answer is lost, and the client sends it again.
abbrev pub repeated : List Slot
repeated = record { steps = []; resent = [] ∷ []; outcome = answered } ∷ []

-- The job stands once in the progress queue and nowhere else.
pub record OnlyInProgress (x : Str) (v : View) : Type 0 where
  pub not_waiting : elem x v.jobs ≡ false
  pub in_progress : elem x v.progress ≡ true
  pub once : elem x (remove_last x v.progress) ≡ false
  pub not_succeeded : elem x v.succeeded ≡ false
  pub not_failed : failed_has x v.failed ≡ false

module _ (r : Redis) where
  open r use {Db, view, lrem, lpush, hdel}

  pub first_call :
      {A : Type 0} (op : Db → A × Db) (w : World Db) (rest : List Slot)
      → w.slots ≡ alone true ∷ rest
      → call r op w ≡ (ok (op w.db).0, record w { db = (op w.db).1; slots = rest })
  unfolding call worker_steps
  first_call op w rest e = ground arith

  refused_call :
      {A : Type 0} (op : Db → A × Db) (w : World Db) (rest : List Slot)
      → w.slots ≡ alone false ∷ rest
      → call r op w ≡ (raised, record w { slots = rest })
  unfolding call worker_steps
  refused_call op w rest e = ground arith

  abbrev push_and_drop : Str → ℕ → Action Db (Unit {0})
  push_and_drop x removed =
      (if removed == 1 then tell r (lpush job_queue x) else pure tt) >> tell r (hdel x)

  stops :
      (x : Str) (w : World Db) (rest : List Slot)
      → w.slots ≡ alone true ∷ alone false ∷ rest
      → (lrem progress_queue x w.db).0 ≡ 1
      → requeue_job r x w ≡ (raised, record w { db = (lrem progress_queue x w.db).1; slots = rest })
  unfolding requeue_job
  stops x w rest e one =
      let w1 : World Db = record w {
        db = (lrem progress_queue x w.db).1;
        slots = alone false ∷ rest;
      } in
      run-bind (call r (lrem progress_queue x)) (push_and_drop x) w
        (first_call (lrem progress_queue x) w (alone false ∷ rest) e)
      ∙ ap (λ k. push_and_drop x k w1) one
      ∙ ap (next (λ _. tell r (hdel x)))
          (refused_call (λ db. (tt, lpush job_queue x db)) w1 rest refl)

  -- If the removal of a job succeeds and the push after it fails, `requeue_job` raises, and the
  -- job is in neither queue and has not ended: it is lost.
  pub requeue_job_loses :
      (x : Str) (w : World Db) (rest : List Slot)
      → w.slots ≡ alone true ∷ alone false ∷ rest
      → OnlyInProgress x (view w.db)
      → ((requeue_job r x w).0 ≡ raised) × (tracked x (view (requeue_job r x w).1.db) ≡ false)
  unfolding tracked
  requeue_job_loses x w rest e o =
      let eq = stops x w rest e (r.lrem_reply progress_queue x w.db ∙ rw o.in_progress refl) in
      (
        ap (λ p. p.0) eq,
        ap (λ (p : Reply (Unit {0}) × World Db). tracked x (view p.1.db)) eq
            ∙ ap (tracked x) (r.lrem_view progress_queue x w.db)
            ∙ ground arith,
      )

  call-repeated :
      {A : Type 0} (op : Db → A × Db) (w : World Db)
      → w.slots ≡ repeated
      → call r op w ≡ (ok (op (op w.db).1).0, record w { db = (op (op w.db).1).1; slots = [] })
  unfolding call carried worker_steps
  call-repeated op w e = ground arith

  -- If the removal of a job is carried out, its answer is lost, and the client sends it again, then
  -- `requeue_job` ends normally, and the job is in neither queue and has not ended: it is lost.
  pub requeue_job_drops :
      (x : Str) (w : World Db)
      → w.slots ≡ repeated
      → OnlyInProgress x (view w.db)
      → ((requeue_job r x w).0 ≡ ok tt) × (tracked x (view (requeue_job r x w).1.db) ≡ false)
  unfolding requeue_job tracked
  requeue_job_drops x w e o =
      let op = lrem progress_queue x in
      let db1 = (op w.db).1 in
      let v1 = r.lrem_view progress_queue x w.db in
      let v2 = r.lrem_view progress_queue x db1 in
      let gone : elem x (view db1).progress ≡ false = rw v1 o.once in
      let none_left : (op db1).0 ≡ 0 = r.lrem_reply progress_queue x db1 ∙ rw gone refl in
      let w2 : World Db = record w { db = (op db1).1; slots = [] } in
      rw (call-repeated op w e, none_left, call_quiet r (λ db. (tt, hdel x db)) w2 refl)
        (
          refl,
          ground (
            arith,
            r.hdel_view x (op db1).1,
            v1,
            v2,
            remove_last_absent x (view db1).progress gone,
          ),
        )
