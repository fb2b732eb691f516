-- ===== src/Catchup/Served.antt =====
-- What a worker's program does to the store, commands that fail included, and the steps of workers.
use supercluster.Prelude.{
  ◌≡◌, refl, arith, zero, suc, ℕ, Bool, true, ◌&&◌, List, [], ◌∷◌, ◌++◌, Bool-cases, inl, inr,
}
use supercluster.Prelude.Text.{Str, codes, str_eq}
use supercluster.Prelude.Lists.{All, All-append}
use supercluster.Monitor.Redis.{Redis}
use supercluster.Monitor.Worker.{
  WorkerStep, claim, finish, claim_script, claim_job, worker_step, worker_steps, valid_job_key,
}
use supercluster.Monitor.World.{
  World, Slot, Outcome, answered, refused, unheard, Reply, ok, raised, unfinished, Action, next,
  ◌>>=◌, call_once, end_call, sleep,
}
use supercluster.Catchup.{
  entry_of, bit_text, reply_text, sismember, close_script, Pod, Turn, Printed, redis_cli, printed,
  ask_retiring, ask_claim, ask_close, close_job, process, turn, worker_loop, close_attempts,
}

abbrev pub pod_of : WorkerStep → Str
pod_of (claim pod) = pod
pod_of (finish pod job entry success) = pod

-- Each step is one of a pod of the fleet.
abbrev pub AreBy : (Str → Bool) → List WorkerStep → Type 0
AreBy fleet ss = All (λ s. fleet (pod_of s) ≡ true) ss

abbrev pub SlotsBy : (Str → Bool) → List Slot → Type 0
SlotsBy fleet l = All (λ (s : Slot). AreBy fleet s.steps) l

worker_steps-append :
    (r : Redis) (ss us : List WorkerStep) (db : r.Db)
    → worker_steps r (ss ++ us) db ≡ worker_steps r us (worker_steps r ss db)
unfolding worker_steps
worker_steps-append r [] us db = refl
worker_steps-append r (s ∷ ss) us db = worker_steps-append r ss us (worker_step r s db)

module _ (r : Redis) (fleet : Str → Bool) where
  open r use {Db}

  -- The pods of the fleet take the one store to the other.
  abbrev pub Serves : Db → Db → Type 0
  Serves db db' = (ss : List WorkerStep) × AreBy fleet ss × (db' ≡ worker_steps r ss db)

  pub Serves-trans : (a b c : Db) → Serves a b → Serves b c → Serves a c
  Serves-trans a b c (ss, h, e) (us, k, e') = (
    ss ++ us,
    All-append (λ s. fleet (pod_of s) ≡ true) ss us h k,
    rw (e', e, worker_steps-append r ss us a) refl,
  )

  abbrev pub Served : Db → World Db → Type 0
  Served db w = Serves db w.db × SlotsBy fleet w.slots

  pub call_once-Served :
      {A : Type 0} (op : Db → A × Db) (db : Db) (w : World Db)
      → ((d : Db) → Serves d (op d).1)
      → Served db w
      → Served db (call_once r op w).1
  unfolding call_once
  call_once-Served {A} op db w step (h, k) = go w.slots k
    where
      ends :
          (o : Outcome) (d : Db) (rest : List Slot)
          → Serves db d
          → SlotsBy fleet rest
          → Served db (end_call o op (record w { db = d; slots = rest })).1
      ends answered d rest p q = (Serves-trans db d (op d).1 p (step d), q)
      ends refused d rest p q = (p, q)
      ends unheard d rest p q = (Serves-trans db d (op d).1 p (step d), q)

      go :
          (l : List Slot)
          → SlotsBy fleet l
          → Served db
              (elim l as (λ _. Reply A × World Db) [
                | [] ↦ end_call answered op w
                | s ∷ rest ↦
                    end_call s.outcome op
                      (record w { db = worker_steps r s.steps w.db; slots = rest })
              ]).1
      go [] q = (Serves-trans db w.db (op w.db).1 h (step w.db), k)
      go (s ∷ rest) q =
          ends s.outcome (worker_steps r s.steps w.db) rest
            (Serves-trans db w.db (worker_steps r s.steps w.db) h (s.steps, q.0, refl)) q.1

  pub bind-Served :
      {A B : Type 0} (db : Db) (m : Action Db A) (f : A → Action Db B) (w : World Db)
      → Served db (m w).1
      → ((a : A) (w' : World Db) → Served db w' → Served db (f a w').1)
      → Served db ((m >>= f) w).1
  bind-Served {A} {B} db m f w = go (m w)
    where
      go :
          (x : Reply A × World Db)
          → Served db x.1
          → ((a : A) (w' : World Db) → Served db w' → Served db (f a w').1)
          → Served db (next f x).1
      go (ok a, w') h k = k a w' h
      go (raised, w') h k = h
      go (unfinished, w') h k = h

module _ (r : Redis) (fleet : Str → Bool) (p : Pod) where
  open r use {Db}

  cli-Served :
      {A : Type 0} (t : Turn) (show : A → Str) (op : Db → A × Db) (db : Db) (w : World Db)
      → ((d : Db) → Serves r fleet d (op d).1)
      → Served r fleet db w
      → Served r fleet db (redis_cli r p t show op w).1
  unfolding redis_cli
  cli-Served {A} t show op db w step h =
      go (call_once r op w) (call_once-Served r fleet op db w step h)
    where
      go :
          (x : Reply A × World Db)
          → Served r fleet db x.1
          → Served r fleet db (printed r p t show x).1
      go (ok a, w') k = k
      go (raised, w') k = k
      go (unfinished, w') k = k

  pub ask_retiring-Served :
      (t : Turn) (db : Db) (w : World Db)
      → Served r fleet db w
      → Served r fleet db (ask_retiring r p t w).1
  unfolding ask_retiring sismember worker_steps
  ask_retiring-Served t db w = cli-Served t bit_text (sismember r p t) db w (λ d. ([], tt, refl))

  module _ (member : fleet p.pod_name ≡ true) where
    ask_claim-Served :
        (t : Turn) (db : Db) (w : World Db)
        → Served r fleet db w
        → Served r fleet db (ask_claim r p t w).1
    unfolding ask_claim worker_steps worker_step claim_job
    ask_claim-Served t db w =
        cli-Served t reply_text (claim_script r p.pod_name) db w
          (λ d. (claim p.pod_name ∷ [], (member, tt), refl))

    close-Serves :
        (t : Turn) (job : Str)
        → valid_job_key job ≡ true
        → (d : Db) → Serves r fleet d (close_script r p t job d).1
    unfolding close_script worker_steps worker_step
    close-Serves t job v d =
        let s = finish p.pod_name job (entry_of p t job) (t.new_db && t.catchup) in
        (s ∷ [], (member, tt), rw v refl)

    ask_close-Served :
        (t : Turn) (job : Str) (db : Db) (w : World Db)
        → valid_job_key job ≡ true
        → Served r fleet db w
        → Served r fleet db (ask_close r p t job w).1
    unfolding ask_close
    ask_close-Served t job db w v =
        cli-Served t (λ _. []) (close_script r p t job) db w (close-Serves t job v)

    close_job-Served :
        (t : Turn) (left : ℕ) (job : Str) (db : Db) (w : World Db)
        → valid_job_key job ≡ true
        → Served r fleet db w
        → Served r fleet db (close_job r p t left job w).1
    unfolding close_job sleep
    close_job-Served t zero job db w v h = h
    close_job-Served t (suc left) job db w v h =
        bind-Served r fleet db (ask_close r p t job) _ w (ask_close-Served t job db w v h)
          (λ a w' k. elim (Bool-cases a.exit_zero) [
            | inl e ↦ rw e k
            | inr e ↦ rw e (close_job-Served t left job db (sleep 10 w').1 v k)
          ])

    process-Served :
        (t : Turn) (a : Printed) (db : Db) (w : World Db)
        → Served r fleet db w
        → Served r fleet db (process r p t a w).1
    unfolding process sleep
    process-Served t a db w h = elim (Bool-cases (a.exit_zero && valid_job_key a.output)) [
      | inl e ↦ rw e (
          bind-Served r fleet db (close_job r p t close_attempts a.output) _ w
            (close_job-Served t close_attempts a.output db w (ground arith) h)
            (λ b w' k. elim (Bool-cases b) [ inl q ↦ rw q k | inr q ↦ rw q k ]))
      | inr e ↦ rw e h
    ]

    turn-Served :
        (t : Turn) (db : Db) (w : World Db)
        → Served r fleet db w
        → Served r fleet db (turn r p t w).1
    unfolding turn sleep
    turn-Served t db w h =
        bind-Served r fleet db (ask_retiring r p t) _ w (ask_retiring-Served t db w h) (λ a w' k.
          elim (Bool-cases (str_eq a.output (codes "0"))) [
            | inl e ↦ rw e (
                bind-Served r fleet db (ask_claim r p t) (process r p t) w'
                  (ask_claim-Served t db w' k) (λ b w2 k2. process-Served t b db w2 k2))
            | inr e ↦ rw e k
          ])

    loop-Served :
        (ts : List Turn) (db : Db) (w : World Db)
        → Served r fleet db w
        → Served r fleet db (worker_loop r p ts w).1
    unfolding worker_loop
    loop-Served [] db w h = h
    loop-Served (t ∷ ts) db w h =
        bind-Served r fleet db (turn r p t) _ w (turn-Served t db w h)
          (λ _ w' k. loop-Served ts db w' k)

  -- If a pod of a fleet runs the worker's program for any number of rounds, and around its commands
  -- only pods of the fleet act, then whichever commands fail the store changes by steps of workers
  -- of the fleet, in some order, which is all that the environment of the monitor may do.
  pub worker_loop-Serves :
      (ts : List Turn) (w : World Db)
      → fleet p.pod_name ≡ true
      → SlotsBy fleet w.slots
      → Serves r fleet w.db (worker_loop r p ts w).1.db
  unfolding worker_steps
  worker_loop-Serves ts w member h = (loop-Served member ts w.db w (([], tt, refl), h)).0
