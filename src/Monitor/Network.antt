-- ===== src/Monitor/Network.antt =====
-- The worker pods as the monitor sees them over the network: `ping_worker` and `pod_exists` of
-- src/MissionParallelCatchup/job_monitor.py.
pub mod Ping
pub mod Tests
use mathlib.Core.List.{Perm}
use supercluster.Prelude.{
  ℕ, zero, suc, ◌+◌, ◌-◌, ◌*◌, ◌/◌, ◌%◌, Bool, true, false, List, [], ◌∷◌, ◌++◌, ltb, if◌then◌else◌,
}
use supercluster.Prelude.Text.{Str, codes}
use supercluster.Python.Digits.{decimal}
use supercluster.Monitor.World.{World, Action, ok, pure, ◌>>=◌, ◌>>◌, sleep}

-- The settings of the deployment that the names and the marking need.
pub record Config : Type 0 where
  pub worker_prefix : Str
  pub namespace : Str
  pub worker_count : ℕ
  pub min_unmarked_workers : ℕ

-- The network, which is not in the repository: whether the request or the lookup with a number
-- succeeds for a host name. And the order in which Python runs through a set.
pub record Network : Type 0 where
  pub answers : ℕ → Str → Bool
  pub resolves : ℕ → Str → Bool
  pub set_order : List Str → List Str
  pub set_order_perm : (l : List Str) → Perm l (set_order l)

-- STUCK_JOB_PING_DELAY_SECS and STUCK_JOB_PING_RETRIES
abbrev pub ping_delay : ℕ
ping_delay = 30

abbrev pub ping_retries : ℕ
ping_retries = 3

-- `f"{WORKER_PREFIX}-{i}"`
unfoldable pub worker_name : Config → ℕ → Str
unfolding decimal
worker_name c i = c.worker_prefix ++ b'-' ∷ decimal i

-- `f"{pod_name}.{WORKER_PREFIX}.{NAMESPACE}.svc.cluster.local"`
unfoldable pub worker_dns : Config → Str → Str
worker_dns c pod_name =
    pod_name
    ++ codes "."
    ++ c.worker_prefix
    ++ codes "."
    ++ c.namespace
    ++ codes ".svc.cluster.local"

module _ {Db : Type 0} (c : Config) (net : Network) where
  -- `requests.get(...)`: a response of any status, or a `RequestException`
  unfoldable pub request : Str → Action Db Bool
  request host w = (ok (net.answers w.asked host), record w { asked = w.asked + 1 })

  -- The attempts that are left, and the number of the next one.
  unfoldable pub ping_attempts : ℕ → ℕ → ℕ → Str → Action Db Bool
  unfolding request sleep
  ping_attempts zero attempt retries host = pure false
  ping_attempts (suc left) attempt retries host =
      let again = ping_attempts left (attempt + 1) retries host in
      request host >>= λ answered.
      if answered
      then pure true
      else if ltb attempt retries
      then sleep ping_delay >> again
      else again

  unfoldable pub ping_worker : Str → ℕ → Action Db Bool
  unfolding ping_attempts worker_dns
  ping_worker pod_name retries = ping_attempts retries 1 retries (worker_dns c pod_name)

  -- `gethostbyname` of the name with a dot at its end
  unfoldable pub pod_exists : Str → Action Db Bool
  unfolding worker_dns
  pod_exists pod_name w = (
    ok (net.resolves w.asked (worker_dns c pod_name ++ codes ".")),
    record w { asked = w.asked + 1 },
  )
