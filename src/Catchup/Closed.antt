-- ===== src/Catchup/Closed.antt =====
-- How a worker closes a job.
use supercluster.Prelude.{
  ℕ, suc, ◌≤◌, ◌≡◌, Bool, true, false, ◌&&◌, List, ◌∷◌, ◌++◌, ◌⊎◌, none, if◌then◌else◌,
}
use supercluster.Prelude.Text.{Str}
use supercluster.Prelude.Dict.{Dict, lookup}
use supercluster.Prelude.Sets.{elem}
use supercluster.Monitor.Redis.{Redis}
use supercluster.Monitor.Redis.Keys.{View}
use supercluster.Monitor.World.{World, Slot}
use supercluster.Monitor.Jobs.Calls.{failures}
use supercluster.Catchup.{Pod, Turn, Printed, entry_of}

-- redis-cli has an exit code other than 0 for each command that fails.
abbrev pub ExitsOnFailure : Turn → Type 0
ExitsOnFailure t = (l : List Slot) → (t.on_failure l).exit_zero ≡ false

module _ (r : Redis) (p : Pod) (t : Turn) (job : Str) where
  open r use {Db, view}

  abbrev succeeds : Bool
  succeeds = t.new_db && t.catchup

  -- The job is in the set for its outcome, its entry waits for the monitor, and it has no owner.
  abbrev pub Recorded : View → Type 0
  Recorded v =
      ((if succeeds then elem job v.succeeded else elem (job ++ b'|' ∷ p.pod_name) v.failed) ≡ true)
      × (elem (entry_of p t job) v.metrics ≡ true)
      × (lookup job v.owners ≡ none)

  -- An attempt comes through, or one of the failures is behind it.
  abbrev Attempted : ℕ → Printed → World Db → Type 0
  Attempted n a w =
      ((a.exit_zero ≡ true) × Recorded (view w.db))
      ⊎ ((a.exit_zero ≡ false) × (suc (failures w.slots) ≤ n))
