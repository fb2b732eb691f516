-- ===== src/Monitor/Pass/Metrics.antt =====
-- The end of a pass of `update_status_and_metrics` of
-- src/MissionParallelCatchup/job_monitor.py: the status is published, and the entries that the
-- workers left in METRICS are taken over and counted.
pub mod Entry
pub mod Handed
use supercluster.Prelude.{
  ℕ, ◌+◌, ◌||◌, ◌==◌, Bool, true, false, List, [], ◌∷◌, ◌++◌, Option, none, some, if◌then◌else◌,
}
use supercluster.Prelude.Text.{Str, codes}
use supercluster.Prelude.Lists.{length}
use supercluster.Python.Split.{split}
use supercluster.Python.Number.{Number}
use supercluster.Monitor.Redis.{Redis}
use supercluster.Monitor.Redis.Keys.{metrics_key}
use supercluster.Monitor.World.{World, Reply, ok, raised, unfinished, Action, call}
use supercluster.Monitor.Network.{Config, Network}
use supercluster.Monitor.Pass.{Status, read_status}
use supercluster.Monitor.Pass.Board.{Board, Clock, publish}

-- `s.rstrip(chars)`
unfoldable pub rstrip : List ℕ → Str → Str
rstrip chars [] = []
rstrip chars (c ∷ s) =
    let rest = rstrip chars s in
    elim rest [ [] ↦ (if is_one_of c chars then [] else c ∷ []) | d ∷ t ↦ c ∷ d ∷ t ]
  where
    is_one_of : ℕ → List ℕ → Bool
    is_one_of c [] = false
    is_one_of c (d ∷ ds) = c == d || is_one_of c ds

-- `float` is Python's, which raises for a text that is no number.
module _ (n : Number) (float : Str → Option n.F) where
  open n use {F, of_nat, div}

  unfoldable pub observe_full : F → Board F → Board F
  observe_full x b = record b { full_durations = b.full_durations ++ x ∷ [] }

  unfoldable pub observe_tx_apply : F → Board F → Board F
  observe_tx_apply x b = record b { tx_apply_durations = b.tx_apply_durations ++ x ∷ [] }

  -- The full duration is observed before the other field is read.
  unfoldable pub count_fields : Str → Str → Board F → Board F
  unfolding rstrip observe_full observe_tx_apply
  count_fields tx_apply full_duration b = elim (float (rstrip (codes "s") full_duration)) [
    | none ↦ b
    | some full ↦ elim (float (rstrip (codes "ms") tx_apply)) [
      | none ↦ observe_full full b
      | some tx ↦ observe_tx_apply (div tx (of_nat 1000)) (observe_full full b)
    ]
  ]

  -- `_, _, tx_apply, full_duration = ...` raises unless there are four fields, and the entry is
  -- skipped.
  unfoldable pub count_parts : List Str → Board F → Board F
  unfolding count_fields
  count_parts (_ ∷ _ ∷ tx_apply ∷ full_duration ∷ []) b = count_fields tx_apply full_duration b
  count_parts _ b = b

  unfoldable pub count_timing : Str → Board F → Board F
  unfolding count_parts split
  count_timing timing b = count_parts (split (codes "|") timing) b

  unfoldable pub count_timings : List Str → Board F → Board F
  unfolding count_timing
  count_timings [] b = b
  count_timings (t ∷ ts) b = count_timings ts (count_timing t b)

  unfoldable pub take_metrics : List Str → Board F → Board F
  unfolding count_timings
  take_metrics new b = count_timings new (record b { metrics = b.metrics ++ new })

  module _ (r : Redis) (c : Config) (net : Network) where
    open r use {Db, spop}

    abbrev pub after_spop :
        Board F → Reply (List Str) × World Db → Reply (Unit {0}) × (Board F × World Db)
    after_spop b (ok new, w) = (ok tt, (take_metrics new b, w))
    after_spop b (raised, w) = (ok tt, (b, w))
    after_spop b (unfinished, w) = (unfinished, (b, w))

    abbrev pub after_status :
        F → Clock F → Board F → Reply Status × World Db → Reply (Unit {0}) × (Board F × World Db)
    after_status start clock b (ok s, w) =
        after_spop (publish n start clock s b) (call r (spop metrics_key 1000) w)
    after_status start clock b (raised, w) = (ok tt, (b, w))
    after_status start clock b (unfinished, w) = (unfinished, (b, w))

    -- The body of the loop, from the start of the mission and what the clock shows in the pass: an
    -- exception ends the pass where it is raised, and is caught.
    unfoldable pub pass :
        F → Clock F → ℕ → Board F → World Db → Reply (Unit {0}) × (Board F × World Db)
    unfolding publish
    pass start clock fuel b w = after_status start clock b (read_status r c net fuel w)
