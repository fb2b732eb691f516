-- ===== src/Monitor/Pass/Unstuck/Tests.antt =====
-- Two jobs of a worker that does not answer any more.
use supercluster.Prelude.{refl, [], ◌∷◌, arith}
use supercluster.Prelude.Text.{codes, str_eq}
use supercluster.Prelude.Dict.{has_key}
use supercluster.Monitor.Network.Tests.{config, silent}
use supercluster.Monitor.Redis.Keys.{View}
use supercluster.Monitor.Redis.Memory.{memory}
use supercluster.Monitor.World.{World}
use supercluster.Monitor.World.Calls.{Ends}
use supercluster.Monitor.Pass.{read_status}
use supercluster.Monitor.Pass.Unstuck.{Released, read_status-Released}

abbrev stuck : View
stuck = record {
  jobs = codes "192/128" ∷ [];
  progress = codes "128/128" ∷ codes "64/128" ∷ [];
  owners = (codes "64/128", codes "core-1") ∷ (codes "128/128", codes "core-1") ∷ [];
  succeeded = [];
  failed = [];
  metrics = [];
  retiring = [];
}

abbrev world : World View
world = record { db = stuck; slots = []; retried = 0; asked = 0; slept = 0 }

read_status-Released_example :
    Ends (λ _ w. Released memory config silent world w) (read_status memory config silent 3 world)
unfolding has_key str_eq
read_status-Released_example =
    read_status-Released memory config silent 3 world (λ i host. refl) refl (refl, (refl, tt))
      (omega arith) (omega arith)
