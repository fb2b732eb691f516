-- ===== src/Catchup/Marked.antt =====
-- A worker that the monitor has marked as retiring.
use supercluster.Prelude.{◌≡◌, refl, Bool, true, false, not, List, [], ◌∷◌, if◌then◌else◌}
use supercluster.Prelude.Text.{Str, codes, str_eq}
use supercluster.Prelude.Lists.{All}
use supercluster.Prelude.Sets.{elem}
use supercluster.Monitor.Redis.{Redis}
use supercluster.Monitor.Redis.Keys.{retiring_key}
use supercluster.Monitor.Worker.{WorkerStep, worker_steps}
use supercluster.Monitor.Surplus.Marks.{worker_steps-retiring}
use supercluster.Monitor.World.{
  World, Slot, Outcome, answered, refused, unheard, Reply, ok, raised, unfinished, next, ◌>>=◌,
  call_once, end_call, sleep,
}
use supercluster.Monitor.World.Calls.{Ends}
use supercluster.Catchup.{
  Pod, Turn, Printed, redis_cli, printed, bit_text, sismember, ask_retiring, ask_claim, process,
  turn, worker_loop, sleep_interval,
}
use supercluster.Catchup.Served.{SlotsBy, Serves, Served, Serves-trans, ask_retiring-Served}

-- The output of redis-cli for a command that has failed is not the 0 of an answer.
abbrev pub TellsFailure : Turn → Type 0
TellsFailure t = (l : List Slot) → str_eq (t.on_failure l).output (codes "0") ≡ false

module _ (r : Redis) (p : Pod) where
  open r use {Db, view}

  abbrev pub IsMarked : Db → Type 0
  IsMarked db = elem p.pod_name (view db).retiring ≡ true

  abbrev Warns : Reply Printed × World Db → Type 0
  Warns x = Ends (λ a _. str_eq a.output (codes "0") ≡ false) x

  sismember-marked : (t : Turn) (db : Db) → IsMarked db → (sismember r p t db).0 ≡ true
  unfolding sismember
  sismember-marked t db h = rw (r.smembers_reply retiring_key db) h

  steps-IsMarked : (ss : List WorkerStep) (db : Db) → IsMarked db → IsMarked (worker_steps r ss db)
  steps-IsMarked ss db h = rw (worker_steps-retiring r ss db) h

  ask_retiring-Warns :
      (t : Turn) (w : World Db) → IsMarked w.db → TellsFailure t → Warns (ask_retiring r p t w)
  unfolding ask_retiring redis_cli call_once str_eq
  ask_retiring-Warns t w h f = go w.slots
    where
      ends :
          (o : Outcome) (u : World Db)
          → IsMarked u.db
          → Warns (printed r p t bit_text (end_call o (sismember r p t) u))
      ends answered u k = rw (sismember-marked t u.db k) refl
      ends refused u k = f u.slots
      ends unheard u k = f u.slots

      go :
          (l : List Slot)
          → Warns (
              printed r p t bit_text (elim l as (λ _. Reply Bool × World Db) [
                | [] ↦ end_call answered (sismember r p t) w
                | s ∷ rest ↦
                    end_call s.outcome
                      (sismember r p t)
                      (record w { db = worker_steps r s.steps w.db; slots = rest })
              ]))
      go [] = ends answered w h
      go (s ∷ rest) =
          ends s.outcome (record w { db = worker_steps r s.steps w.db; slots = rest })
            (steps-IsMarked s.steps w.db h)

  turn-Warned :
      (t : Turn) (w : World Db)
      → Warns (ask_retiring r p t w)
      → turn r p t w ≡ sleep sleep_interval (ask_retiring r p t w).1
  unfolding turn
  turn-Warned t w = go (ask_retiring r p t w)
    where
      go :
          (x : Reply Printed × World Db)
          → Warns x
          → next
              (λ (a : Printed) (w' : World Db).
                (if not (str_eq a.output (codes "0"))
                    then sleep sleep_interval
                    else (ask_claim r p t >>= process r p t))
                  w')
              x
            ≡ sleep sleep_interval x.1
      go (ok a, w') h = rw h refl
      go (raised, w') h = absurd h
      go (unfinished, w') h = absurd h

  turn-Marked :
      (t : Turn) (w : World Db)
      → IsMarked w.db
      → TellsFailure t
      → turn r p t w ≡ sleep sleep_interval (ask_retiring r p t w).1
  turn-Marked t w h f = turn-Warned t w (ask_retiring-Warns t w h f)

  served-IsMarked : (fleet : Str → Bool) (a b : Db) → IsMarked a → Serves r fleet a b → IsMarked b
  served-IsMarked fleet a b k (ss, q, e) = rw e (steps-IsMarked ss a k)

  rested-Served :
      (fleet : Str → Bool) (db : Db) (w : World Db)
      → Served r fleet db w
      → Served r fleet db (sleep sleep_interval w).1
  unfolding sleep
  rested-Served fleet db w q = q

  -- A worker that is marked at the start, if the output of a command that has failed is never 0: all
  -- its rounds end normally, and only other workers act. So if no pod that acts around its commands
  -- is outside a fleet, the store changes by steps of that fleet alone, whether or not the worker
  -- itself is of it.
  pub worker_loop-IsMarked :
      (fleet : Str → Bool) (ts : List Turn) (w : World Db)
      → IsMarked w.db
      → All TellsFailure ts
      → SlotsBy fleet w.slots
      → ((worker_loop r p ts w).0 ≡ ok tt) × Serves r fleet w.db (worker_loop r p ts w).1.db
  unfolding worker_loop worker_steps
  worker_loop-IsMarked fleet [] w m f h = (refl, ([], tt, refl))
  worker_loop-IsMarked fleet (t ∷ ts) w m f h =
      let w' = (sleep sleep_interval (ask_retiring r p t w).1).1 in
      let k : Served r fleet w.db w' =
        rested-Served fleet w.db (ask_retiring r p t w).1
          (ask_retiring-Served r fleet p t w.db w (([], tt, refl), h)) in
      let rest =
        worker_loop-IsMarked fleet ts w' (served-IsMarked fleet w.db w'.db m k.0) f.1 k.1 in
      rw (turn-Marked t w m f.0) (rest.0, Serves-trans r fleet w.db w'.db _ k.0 rest.1)
