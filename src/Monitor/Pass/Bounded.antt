-- ===== src/Monitor/Pass/Bounded.antt =====
-- How many rounds the retry loop of a pass can take, whatever the workers do and whatever fails.
pub mod Returns
pub mod Ends
use supercluster.Prelude.{
  ℕ, zero, suc, ◌+◌, ◌-◌, ◌<◌, ◌≤◌, ◌≡◌, refl, ap, sym, ◌∙◌, arith, Bool, true, false, List, [],
  ◌∷◌, ltb, Option, Option-cases, Bool-cases, inl, inr, if◌then◌else◌,
}
use supercluster.Prelude.Text.{Str, str_eq}
use supercluster.Prelude.Lists.{length}
use supercluster.Prelude.Sets.{elem}
use supercluster.Monitor.Redis.{Redis}
use supercluster.Monitor.Redis.Keys.{
  View, job_queue, progress_queue, retiring_key, last?, without_last, remove_last,
}
use supercluster.Monitor.Worker.{
  WorkerStep, claim, finish, claim_job, finish_job, worker_step, worker_steps, valid_job_key,
}
use supercluster.Monitor.Worker.Kept.{claim_view, finish_view}
use supercluster.Monitor.World.{
  World, Slot, Outcome, answered, refused, unheard, Reply, ok, raised, unfinished, Action, next,
  pure, ◌>>=◌, ◌>>◌, call, carried, ask, tell, count_retry, end_call,
}
use supercluster.Monitor.Requeue.{requeue_job, retry_jobs_in_progress}
use supercluster.Monitor.Requeue.Order.{last?-none, last?-length}
use supercluster.Monitor.Surplus.{sadd_all}
use supercluster.Monitor.Pass.Keeps.{Holds, Keeps, Keeps-bind, Holds-next, Primitives}

pub remove_last-length : (x : Str) (l : List Str) → length (remove_last x l) ≤ length l
unfolding remove_last
remove_last-length x [] = omega arith
remove_last-length x (y ∷ l) = ground (arith, remove_last-length x l)

-- The steps that the workers take between the attempts at a command.
abbrev pub steps_in : List (List WorkerStep) → ℕ
steps_in [] = 0
steps_in (ss ∷ l) = length ss + steps_in l

-- The steps that the workers still take.
abbrev pub pending : List Slot → ℕ
pending [] = 0
pending (s ∷ l) = length s.steps + steps_in s.resent + pending l

module _ (r : Redis) where
  open r use {Db, view}

  abbrev pub running : Db → ℕ
  running db = length (view db).progress

  -- The jobs in progress, and the steps of the workers that could add one.
  abbrev pub work : World Db → ℕ
  work w = running w.db + pending w.slots

  worker_step-running : (s : WorkerStep) (db : Db) → running (worker_step r s db) ≤ suc (running db)
  unfolding worker_step
  worker_step-running (claim pod) db = ground (arith, claim_view r pod db)
  worker_step-running (finish pod job entry success) db = elim (Bool-cases (valid_job_key job)) [
    | inl e ↦ rw e (rw finish_view (omega (arith, remove_last-length job (view db).progress)))
    | inr e ↦ rw e (omega arith)
  ]

  worker_steps-running :
      (ss : List WorkerStep) (db : Db) → running (worker_steps r ss db) ≤ running db + length ss
  unfolding worker_steps
  worker_steps-running [] db = omega arith
  worker_steps-running (s ∷ ss) db =
      omega (arith, worker_steps-running ss (worker_step r s db), worker_step-running s db)

  -- After a value at most `k` is left, and `Q` holds; after an exception at most `k'` is left.
  abbrev pub Within : {A : Type 0} → ℕ → ℕ → (A → Db → Type 0) → Reply A × World Db → Type 0
  Within k k' Q (ok a, w) = (work w ≤ k) × Q a w.db
  Within k k' Q (raised, w) = work w ≤ k'
  Within k k' Q (unfinished, w) = ⊥

  -- One command, where at most `d` jobs are in progress after it had it come at once.
  pub call-Within :
      {A : Type 0} (op : Db → A × Db) (Q : A → Db → Type 0) (d : ℕ) (w : World Db)
      → d ≤ running w.db
      → ((db : Db) (m : ℕ)
          → running db ≤ running w.db + m
          → (running (op db).1 ≤ d + m) × Q (op db).0 (op db).1)
      → Within (d + pending w.slots) (running w.db + pending w.slots) Q (call r op w)
  unfolding call carried
  call-Within {A} op Q d w l step = go w.slots refl
    where
      bound : ℕ
      bound = running w.db + pending w.slots

      carried-running :
          (more : List (List WorkerStep)) (db : Db) (m : ℕ)
          → running db ≤ running w.db + m
          → running (carried r op more db) ≤ running w.db + (m + steps_in more)
      carried-running [] db m h = omega arith
      carried-running (ss ∷ more) db m h =
          let db' = worker_steps r ss (op db).1 in
          omega (
            arith,
            carried-running more db' (m + length ss)
                (omega (arith, worker_steps-running ss (op db).1, (step db m h).0)),
          )

      ends :
          (o : Outcome) (db : Db) (rest : List Slot) (m : ℕ)
          → running db ≤ running w.db + m
          → pending w.slots ≡ m + pending rest
          → Within
              (d + pending w.slots)
              bound
              Q
              (end_call o op (record w { db = db; slots = rest }))
      ends answered db rest m h e = (omega (arith, (step db m h).0), (step db m h).1)
      ends refused db rest m h e = omega arith
      ends unheard db rest m h e = omega (arith, (step db m h).0)

      go :
          (s : List Slot)
          → w.slots ≡ s
          → Within (d + pending w.slots) bound Q (elim s [
            | [] ↦ end_call answered op w
            | s ∷ rest ↦ end_call s.outcome op (record w {
              db = carried r op s.resent (worker_steps r s.steps w.db);
              slots = rest;
            })
          ])
      go [] e = ends answered w.db w.slots 0 (omega arith) (omega arith)
      go (s ∷ rest) e =
          ends s.outcome (carried r op s.resent (worker_steps r s.steps w.db)) rest
            (length s.steps + steps_in s.resent)
            (carried-running s.resent (worker_steps r s.steps w.db) (length s.steps)
              (worker_steps-running s.steps w.db))
            (ap pending e)
