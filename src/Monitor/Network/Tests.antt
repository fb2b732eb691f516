-- ===== src/Monitor/Network/Tests.antt =====
-- Pings of one worker, which answers the second request, and of one that never does.
use mathlib.Core.List.Perm
use supercluster.Prelude.{ℕ, ◌+◌, ◌*◌, ◌-◌, ◌≡◌, refl, true, false, leb, [], arith}
use supercluster.Prelude.Text.{codes}
use supercluster.Monitor.World.{World, ok}
use supercluster.Monitor.Network.{Config, Network, worker_name, ping_worker}
use supercluster.Monitor.Network.Ping.{ping_worker-first, ping_worker-Silent}

abbrev pub config : Config
config = record {
  worker_prefix = codes "core";
  namespace = codes "default";
  worker_count = 12;
  min_unmarked_workers = 1;
}

-- Every request from number `n` on is answered, and every name resolves.
abbrev pub answers_from : ℕ → Network
answers_from n = record {
  answers = λ i host. leb n i;
  resolves = λ i host. true;
  set_order = λ l. l;
  set_order_perm = Perm.refl;
}

abbrev pub silent : Network
silent = record (answers_from 0) { answers = λ i host. false }

abbrev idle : World (Unit {0})
idle = record { db = tt; slots = []; retried = 0; asked = 0; slept = 0 }

eleven : worker_name config 11 ≡ codes "core-11"
unfolding worker_name
eleven = refl

ping_worker-first_example :
    ping_worker config (answers_from 1) (codes "core-0") 3 idle
    ≡ (ok true, record idle { asked = 0 + (1 + 1); slept = 0 + 30 * 1 })
ping_worker-first_example =
    ping_worker-first config (answers_from 1) (codes "core-0") 3 1 idle (omega arith)
      (refl, λ i l. ground arith)

ping_worker-Silent_example :
    ping_worker config silent (codes "core-0") 3 idle
    ≡ (ok false, record idle { asked = 0 + 3; slept = 0 + 30 * (3 - 1) })
ping_worker-Silent_example =
    ping_worker-Silent config silent (codes "core-0") 3 idle (omega arith) (λ i l. refl)
