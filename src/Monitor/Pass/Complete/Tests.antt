-- ===== src/Monitor/Pass/Complete/Tests.antt =====
-- The last job is finished while the pass reads.
use supercluster.Prelude.{true, refl, [], ◌∷◌, arith}
use supercluster.Prelude.Text.{Str, codes, str_eq}
use supercluster.Prelude.Sets.{elem}
use supercluster.Monitor.Worker.{finish}
use supercluster.Monitor.Worker.Kept.{tracked}
use supercluster.Monitor.Network.Tests.{config, answers_from}
use supercluster.Monitor.World.{World, Slot, answered}
use supercluster.Monitor.World.Calls.{Ends}
use supercluster.Monitor.Redis.Keys.{View}
use supercluster.Monitor.Redis.Memory.{memory}
use supercluster.Monitor.Pass.{read_status}
use supercluster.Monitor.Pass.Complete.{IsTold, read_status-IsTold}

abbrev job : Str
job = codes "64/128"

abbrev last_one : View
last_one = record {
  jobs = [];
  progress = job ∷ [];
  owners = (job, codes "core-1") ∷ [];
  succeeded = [];
  failed = [];
  metrics = [];
  retiring = [];
}

abbrev finishing : Slot
finishing = record {
  steps = finish (codes "core-1") job (codes "64/128|0|N/A|9s") true ∷ [];
  outcome = answered;
  resent = [];
}

abbrev world : World View
world = record { db = last_one; slots = finishing ∷ []; retried = 0; asked = 0; slept = 0 }

read_status-IsTold_example :
    Ends
      (IsTold memory config (answers_from 0) job 0)
      (read_status memory config (answers_from 0) 3 world)
unfolding tracked elem str_eq
read_status-IsTold_example =
    read_status-IsTold memory config (answers_from 0) job 3 world ((refl, refl), tt) (omega arith)
      refl
