-- ===== src/Monitor/Pass/Undisturbed/Tests.antt =====
-- A worker that owns a job and answers.
use supercluster.Prelude.{◌≡◌, ◌⊎◌, ℕ, arith, refl, List, [], ◌∷◌, Option, none, some}
use supercluster.Prelude.Text.{Str, codes, str_eq}
use supercluster.Prelude.Dict.{has_key, lookup}
use supercluster.Prelude.Sets.{elem, distinct}
use supercluster.Python.Number.Naturals.{naturals}
use supercluster.Monitor.World.{World}
use supercluster.Monitor.Network.Tests.{config, answers_from}
use supercluster.Monitor.Redis.Keys.{View}
use supercluster.Monitor.Redis.Memory.{memory}
use supercluster.Monitor.Pass.{active_workers}
use supercluster.Monitor.Pass.Quiet.{SameQueues}
use supercluster.Monitor.Pass.Board.{Board, Clock, first_board, first_status}
use supercluster.Monitor.Pass.Loop.{update_loop}
use supercluster.Monitor.Pass.Undisturbed.{Shows, update_loop-SameQueues}

abbrev one_digit : Str → Option ℕ
one_digit (c ∷ []) = some c
one_digit _ = none

abbrev working : World View
working = record {
  db = record {
    jobs = codes "64/128" ∷ [];
    progress = codes "128/128" ∷ [];
    owners = (codes "128/128", codes "core-1") ∷ [];
    succeeded = [];
    failed = [];
    metrics = codes "192/128|0|N/A|9s" ∷ [];
    retiring = [];
  };
  slots = [];
  retried = 0;
  asked = 0;
  slept = 0;
}

abbrev clocks : List (Clock ℕ)
clocks =
    record { refresh_start = 5; refresh_end = 6; status_time = 8 }
    ∷ record { refresh_start = 15; refresh_end = 16; status_time = 18 }
    ∷ []

abbrev after : Board ℕ × World View
after =
    (update_loop naturals one_digit memory config (answers_from 0) 1 10 0 clocks
      (first_board naturals) working).1

update_loop-SameQueues_example :
    SameQueues memory working after.1
    × ((after.0.status ≡ first_status)
        ⊎ Shows memory config (answers_from 0) [] (codes "128/128" ∷ []) after.0.status)
unfolding elem has_key lookup active_workers distinct str_eq
update_loop-SameQueues_example =
    update_loop-SameQueues naturals one_digit memory config (answers_from 0) (codes "core-1") 1 10 0
      clocks (first_board naturals) working (λ i. ground arith) ((refl, tt), refl) refl
