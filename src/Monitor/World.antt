-- ===== src/Monitor/World.antt =====
-- The world of the monitor's thread: the store, and what happens around each of its commands. A
-- slot holds what the workers do before a command, how often the client sends it again, and how the
-- command ends; commands beyond the last slot are answered at once.
pub mod Calls
pub mod Given
use supercluster.Prelude.{ℕ, ◌+◌, ◌≡◌, Bool, List, [], ◌∷◌}
use supercluster.Monitor.Redis.{Redis}
use supercluster.Monitor.Worker.{WorkerStep, worker_steps}

-- How the last attempt at a command ends: it is carried out and answered, or the client raises. Then
-- it has not been carried out, or only its answer was lost.
pub data Outcome : Type 0 where
  answered refused unheard : Outcome

-- `redis.Redis(..., retry=Retry(..., 3), retry_on_error=...)`: the client sends a command again after
-- an error, three times at most; here as often as the slot says, so that the theorems cover any such
-- bound. `resent` has an entry for each earlier attempt that was carried out and whose answer was
-- lost: what the workers do until the next attempt. An earlier attempt that was not carried out has
-- none, as it changes nothing.
pub record Slot : Type 0 where
  pub steps : List WorkerStep
  pub resent : List (List WorkerStep)
  pub outcome : Outcome

-- What a call of the monitor gives: a value, an exception, or nothing yet when the fuel of a loop
-- has run out.
pub data Reply (A : Type 0) : Type 0 where
  ok : A → Reply A
  raised : Reply A
  unfinished : Reply A

-- `retried` is the counter `metric_retries`, `asked` counts the requests to pods and `slept` the
-- seconds in `time.sleep`.
pub record World (Db : Type 0) : Type 0 where
  pub db : Db
  pub slots : List Slot
  pub retried : ℕ
  pub asked : ℕ
  pub slept : ℕ

abbrev pub Action : Type 0 → Type 0 → Type 0
Action Db A = World Db → Reply A × World Db

module _ {Db : Type 0} where
  abbrev pub pure : {A : Type 0} → A → Action Db A
  pure a w = (ok a, w)

  -- What follows a value, and is skipped by an exception.
  abbrev pub next : {A B : Type 0} → (A → Action Db B) → Reply A × World Db → Reply B × World Db
  next f (ok a, w) = f a w
  next f (raised, w) = (raised, w)
  next f (unfinished, w) = (unfinished, w)

  infixl 5 ◌>>=◌ ◌>>◌
  abbrev pub ◌>>=◌ : {A B : Type 0} → Action Db A → (A → Action Db B) → Action Db B
  ◌>>=◌ m f w = next f (m w)

  abbrev pub ◌>>◌ : {B : Type 0} → Action Db (Unit {0}) → Action Db B → Action Db B
  m >> k = m >>= λ _. k

  -- `metric_retries.inc()`
  unfoldable pub count_retry : Action Db (Unit {0})
  count_retry w = (ok tt, record w { retried = w.retried + 1 })

  -- `time.sleep(seconds)`
  unfoldable pub sleep : ℕ → Action Db (Unit {0})
  sleep seconds w = (ok tt, record w { slept = w.slept + seconds })

  abbrev pub end_call : {A : Type 0} → Outcome → (Db → A × Db) → World Db → Reply A × World Db
  end_call answered op w = (ok (op w.db).0, record w { db = (op w.db).1 })
  end_call refused op w = (raised, w)
  end_call unheard op w = (raised, record w { db = (op w.db).1 })

module _ (r : Redis) where
  open r use {Db}

  -- The store after the attempts whose answers were lost.
  unfoldable pub carried : {A : Type 0} → (Db → A × Db) → List (List WorkerStep) → Db → Db
  carried op [] db = db
  carried op (ss ∷ more) db = carried op more (worker_steps r ss (op db).1)

  -- One command of the monitor: the workers go first, then the client sends it until it is answered
  -- or the client gives up.
  unfoldable pub call : {A : Type 0} → (Db → A × Db) → Action Db A
  unfolding carried
  call op w = elim w.slots [
    | [] ↦ end_call answered op w
    | s ∷ rest ↦
        end_call s.outcome op
          (record w { db = carried op s.resent (worker_steps r s.steps w.db); slots = rest })
  ]

  -- One command that is sent once, as redis-cli does.
  unfoldable pub call_once : {A : Type 0} → (Db → A × Db) → Action Db A
  call_once op w = elim w.slots [
    | [] ↦ end_call answered op w
    | s ∷ rest ↦ end_call s.outcome op (record w { db = worker_steps r s.steps w.db; slots = rest })
  ]

  -- A command that only reads, and one whose reply is not used.
  abbrev pub ask : {A : Type 0} → (Db → A) → Action Db A
  ask f = call (λ db. (f db, db))

  abbrev pub tell : (Db → Db) → Action Db (Unit {0})
  tell f = call (λ db. (tt, f db))
