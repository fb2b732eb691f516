-- ===== src/Monitor/Jobs/Tests.antt =====
-- Two passes, in which a worker claims the job, the next command fails, and another is sent again.
use supercluster.Prelude.{refl, ℕ, true, List, ◌≡◌, [], ◌∷◌, Option, none, some, ◌+◌, ◌≤◌, ◌⊎◌}
use supercluster.Prelude.Text.{Str, codes}
use supercluster.Python.Number.Naturals.{naturals}
use supercluster.Monitor.Worker.{claim, worker_steps}
use supercluster.Monitor.Worker.Started.{ended}
use supercluster.Monitor.Network.Tests.{config, answers_from}
use supercluster.Monitor.World.{call, World, Slot, answered, refused}
use supercluster.Monitor.Redis.Keys.{View, job_queue}
use supercluster.Monitor.Redis.Memory.{memory}
use supercluster.Monitor.Pass.Board.{Clock, first_board}
use supercluster.Monitor.Pass.Loop.{update_loop}
use supercluster.Monitor.Jobs.{copies, Reach, state_of}
use supercluster.Monitor.Jobs.Calls.{losses, repeats}
use supercluster.Monitor.Jobs.Loop.{update_loop-Reach, update_loop-copies}

abbrev one_digit : Str → Option ℕ
one_digit (c ∷ []) = some c
one_digit _ = none

abbrev job : Str
job = codes "64/128"

abbrev running : View
running = record {
  jobs = job ∷ [];
  progress = codes "128/128" ∷ [];
  owners = (codes "128/128", codes "core-1") ∷ [];
  succeeded = [];
  failed = [];
  metrics = [];
  retiring = [];
}

abbrev claiming : Slot
claiming = record { steps = claim (codes "core-2") ∷ []; outcome = answered; resent = [] }

abbrev lost : Slot
lost = record { steps = []; outcome = refused; resent = [] }

-- The command is carried out three times; the last time it is answered. Meanwhile a worker claims.
abbrev again : Slot
again = record { steps = []; resent = (claim (codes "core-3") ∷ []) ∷ [] ∷ []; outcome = answered }

abbrev world : World View
world = record {
  db = running;
  slots = claiming ∷ lost ∷ again ∷ [];
  retried = 0;
  asked = 0;
  slept = 0;
}

abbrev clocks : List (Clock ℕ)
clocks =
    record { refresh_start = 5; refresh_end = 6; status_time = 8 }
    ∷ record { refresh_start = 15; refresh_end = 16; status_time = 18 }
    ∷ []

abbrev after : World View
after =
    (update_loop naturals one_digit memory config (answers_from 0) 1 10 3 clocks
      (first_board naturals) world).1.1

update_loop-Reach_example :
    (h : ℕ) × (a : ℕ) × Reach (state_of job running 0 0) (state_of job after.db h a)
    × (h + a + losses after.slots ≤ 3)
    × (a + repeats after.slots ≤ 2)
update_loop-Reach_example =
    update_loop-Reach naturals one_digit memory config (answers_from 0) job 1 10 3 clocks
      (first_board naturals) world

update_loop-copies_example :
    (copies job after.db.jobs + copies job after.db.progress + repeats after.slots
      ≤ copies job running.jobs + copies job running.progress + repeats world.slots)
    × ((ended job after.db ≡ true)
        ⊎ (copies job running.jobs + copies job running.progress + losses after.slots
            ≤ copies job after.db.jobs + copies job after.db.progress + losses world.slots))
update_loop-copies_example =
    update_loop-copies naturals one_digit memory config (answers_from 0) job 1 10 3 clocks
      (first_board naturals) world

-- LPUSH is carried out twice: the job waits twice.
pushed_twice :
    (call memory
      (λ db. (tt, memory.lpush job_queue job db))
      (record world {
        slots = record { steps = []; resent = [] ∷ []; outcome = answered } ∷ [];
      })).1.db.jobs
    ≡ job ∷ job ∷ running.jobs
unfolding call worker_steps
pushed_twice = refl
