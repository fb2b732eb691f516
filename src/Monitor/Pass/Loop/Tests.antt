-- ===== src/Monitor/Pass/Loop/Tests.antt =====
-- Two passes, the second of which a lost connection ends.
use supercluster.Prelude.{◌||◌, ℕ, true, List, ◌≡◌, refl, [], ◌∷◌, arith, inl, Option, none, some}
use supercluster.Prelude.Text.{Str, codes, str_eq}
use supercluster.Prelude.Sets.{elem}
use supercluster.Python.Number.Naturals.{naturals}
use supercluster.Monitor.Worker.{claim}
use supercluster.Monitor.Worker.Kept.{tracked}
use supercluster.Monitor.Network.Tests.{config, answers_from}
use supercluster.Monitor.Pass.Bounded.Ends.{update_loop-returns}
use supercluster.Monitor.World.{ok, World, Slot, answered, refused}
use supercluster.Monitor.Redis.Keys.{View}
use supercluster.Monitor.Redis.Memory.{memory}
use supercluster.Monitor.Pass.Board.{Clock, first_board}
use supercluster.Monitor.Pass.Consistent.Shown.{IsConsistent}
use supercluster.Monitor.Pass.Loop.{update_loop}
use supercluster.Monitor.Pass.Metrics.Handed.{update_loop-metrics}
use supercluster.Monitor.Pass.Loop.Laws.{update_loop-tracked, update_loop-IsConsistent}

abbrev one_digit : Str → Option ℕ
one_digit (c ∷ []) = some c
one_digit _ = none

abbrev job : Str
job = codes "64/128"

abbrev running : View
running = record {
  jobs = job ∷ [];
  progress = codes "128/128" ∷ [];
  owners = (codes "128/128", codes "core-1") ∷ [];
  succeeded = [];
  failed = [];
  metrics = codes "192/128|0|N/A|9s" ∷ [];
  retiring = [];
}

abbrev claiming : Slot
claiming = record { steps = claim (codes "core-2") ∷ []; outcome = answered; resent = [] }

abbrev lost : Slot
lost = record { steps = []; outcome = refused; resent = [] }

abbrev world : World View
world = record { db = running; slots = claiming ∷ []; retried = 0; asked = 0; slept = 0 }

abbrev clocks : List (Clock ℕ)
clocks =
    record { refresh_start = 5; refresh_end = 6; status_time = 8 }
    ∷ record { refresh_start = 15; refresh_end = 16; status_time = 18 }
    ∷ []

update_loop-tracked_example :
    tracked job
      (update_loop naturals one_digit memory config
        (answers_from 0)
        1
        10
        3
        clocks
        (first_board naturals)
        world).1.1.db
    ≡ true
unfolding tracked elem str_eq
update_loop-tracked_example =
    update_loop-tracked naturals one_digit memory config (answers_from 0) job 1 10 3 clocks
      (first_board naturals) world ((refl, refl), tt) refl

abbrev failing : World View
failing = record world { slots = claiming ∷ lost ∷ [] }

update_loop-IsConsistent_example :
    IsConsistent
      (codes "core-1")
      (update_loop naturals one_digit memory config
        (answers_from 0)
        1
        10
        3
        clocks
        (first_board naturals)
        failing).1.0
update_loop-IsConsistent_example =
    update_loop-IsConsistent naturals one_digit memory config (answers_from 0) (codes "core-1") 1 10
      3 clocks (first_board naturals) failing
      (inl refl, (refl, refl, refl, refl, refl, refl, refl, refl), omega arith, omega arith)

update_loop-returns_example :
    (update_loop naturals one_digit memory config
      (answers_from 0)
      1
      10
      4
      clocks
      (first_board naturals)
      failing).0
    ≡ ok tt
update_loop-returns_example =
    update_loop-returns naturals one_digit memory config (answers_from 0) 1 10 4 clocks
      (first_board naturals) failing (omega arith)

abbrev entry : Str
entry = codes "192/128|0|N/A|9s"

update_loop-metrics_example :
    (let x =
        (update_loop naturals one_digit memory config
          (answers_from 0)
          1
          10
          3
          clocks
          (first_board naturals)
          world).1 in
      (elem entry x.0.metrics || elem entry x.1.db.metrics))
    ≡ true
unfolding elem str_eq
update_loop-metrics_example =
    update_loop-metrics naturals one_digit memory config (answers_from 0) entry 1 10 3 clocks
      (first_board naturals) world ((refl, refl), tt) refl
