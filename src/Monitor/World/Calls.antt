-- ===== src/Monitor/World/Calls.antt =====
-- Total correctness of actions while no command fails, with the workers free to act before each.
use supercluster.Prelude.{◌≡◌, ap, List, [], ◌∷◌, arith}
use supercluster.Prelude.Lists.{All}
use supercluster.Monitor.Redis.{Redis}
use supercluster.Monitor.Worker.{WorkerStep, worker_steps}
use supercluster.Monitor.World.{
  next, World, Slot, answered, Reply, ok, raised, unfinished, Action, ◌>>=◌, call, carried,
  end_call,
}

-- The first attempt is answered.
abbrev pub IsAnswered : Slot → Type 0
IsAnswered s = (s.outcome ≡ answered) × (s.resent ≡ [])

-- Every command is answered, the first time that it is sent.
abbrev pub IsUp : {Db : Type 0} → World Db → Type 0
IsUp w = All IsAnswered w.slots

-- The action has returned a value, and `Q` holds of it.
abbrev pub Ends : {Db A : Type 0} → (A → World Db → Type 0) → Reply A × World Db → Type 0
Ends Q (ok a, w) = Q a w
Ends Q (raised, w) = ⊥
Ends Q (unfinished, w) = ⊥

pub Ends-bind :
    {Db A B : Type 0} (Q : A → World Db → Type 0) (R : B → World Db → Type 0) (m : Action Db A)
    (f : A → Action Db B) (w : World Db)
    → Ends Q (m w)
    → ((a : A) (w' : World Db) → Q a w' → Ends R (f a w'))
    → Ends R ((m >>= f) w)
Ends-bind {Db} {A} {B} Q R m f w = go (m w)
  where
    go :
        (x : Reply A × World Db)
        → Ends Q x
        → ((a : A) (w' : World Db) → Q a w' → Ends R (f a w'))
        → Ends R (next f x)
    go (ok a, w') h k = k a w' h
    go (raised, w') h k = absurd h
    go (unfinished, w') h k = absurd h

pub Ends-mono :
    {Db A : Type 0} (P Q : A → World Db → Type 0)
    → ((a : A) (w : World Db) → P a w → Q a w)
    → (x : Reply A × World Db) → Ends P x
    → Ends Q x
Ends-mono P Q f (ok a, w) h = f a w h
Ends-mono P Q f (raised, w) h = h
Ends-mono P Q f (unfinished, w) h = h

module _ (r : Redis) where
  open r use {Db}

  -- One command, from a property of the store that the workers keep.
  pub call-Ends :
      {A : Type 0} (op : Db → A × Db) (P : Db → Type 0) (Q : A → Db → Type 0)
      → ((ss : List WorkerStep) (db : Db) → P db → P (worker_steps r ss db))
      → ((db : Db) → P db → Q (op db).0 (op db).1)
      → (w : World Db) → IsUp w
      → P w.db
      → Ends (λ a w'. IsUp w' × Q a w'.db) (call r op w)
  unfolding call carried
  call-Ends {A} op P Q stable step w up p = go w.slots up
    where
      go :
          (l : List Slot)
          → All IsAnswered l
          → Ends
              (λ a w'. IsUp w' × Q a w'.db)
              (elim l [
                | [] ↦ end_call answered op w
                | s ∷ rest ↦ end_call s.outcome op (record w {
                  db = carried r op s.resent (worker_steps r s.steps w.db);
                  slots = rest;
                })
              ])
      go [] h = (up, step w.db p)
      go (s ∷ rest) h =
          rw (h.0.0, h.0.1) (h.1, step (worker_steps r s.steps w.db) (stable s.steps w.db p))

pub run-bind :
    {Db A B : Type 0} (m : Action Db A) (f : A → Action Db B) (w : World Db) {a : A} {w' : World Db}
    → m w ≡ (ok a, w')
    → (m >>= f) w ≡ f a w'
run-bind m f w e = ap (next f) e

module _ (r : Redis) where
  open r use {Db}

  -- With no slot left a command is answered at once.
  pub call_quiet :
      {A : Type 0} (op : Db → A × Db) (w : World Db)
      → w.slots ≡ []
      → call r op w ≡ (ok (op w.db).0, record w { db = (op w.db).1 })
  unfolding call
  call_quiet op w e = ground arith
