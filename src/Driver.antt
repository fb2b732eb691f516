-- ===== src/Driver.antt =====
-- The loop of src/FSLibrary/MissionHistoryPubnetParallelCatchupV2.fs, which asks the monitor for the
-- status, retires workers, and ends the mission.
pub mod Verdicts
pub mod Requests
mod Tests
use supercluster.Prelude.{
  ℕ, ◌+◌, ◌-◌, Bool, true, false, not, ◌&&◌, List, [], ◌∷◌, ◌++◌, Option, none, some, leb, ltb,
  ◌==◌, if◌then◌else◌,
}
use supercluster.Prelude.Text.{Str}
use supercluster.Prelude.Lists.{length, take}
use supercluster.Prelude.Sets.{elem, keep_if, minus}

-- jobMonitorStatusCheckIntervalSecs, jobMonitorMetricsCheckIntervalSecs,
-- jobMonitorStatusCheckTimeOutSecs, jobMonitorStallTimeOutSecs and maxRetiredPerPass
abbrev pub check_interval : ℕ
check_interval = 60

abbrev pub metrics_interval : ℕ
metrics_interval = 60

abbrev pub status_timeout : ℕ
status_timeout = 600

abbrev pub stall_timeout : ℕ
stall_timeout = 1800

abbrev pub max_retired : ℕ
max_retired = 64

-- What the driver reads of the status, as the monitor writes it.
pub record Polled (F : Type 0) : Type 0 where
  pub num_remain : ℕ
  pub jobs_failed : List Str
  pub jobs_in_progress : List Str
  pub retirable : List Str
  pub workers_up : ℕ
  pub mission_duration : F

-- The variables of the loop, with the pods whose deletion was asked for, and how often the metrics
-- were asked for.
pub record Driver (F : Type 0) : Type 0 where
  pub live_pods : List Str
  pub timeout_left : ℕ
  pub until_metrics : ℕ
  pub stalled_for : ℕ
  pub monitor_stuck_for : ℕ
  pub last_duration : F
  pub requested : List Str
  pub metrics_asked : ℕ

-- The loop goes on, or the mission is complete, or it has failed for a reason.
pub data Verdict : Type 0 where
  running complete catch_up_failed stalled not_reachable : Verdict

-- `eq` compares durations, and `deletes` says whether Kubernetes answers the request with a number
-- to delete a pod with success or with 404; any other answer raises.
module _ {F : Type 0} (eq : F → F → Bool) (deletes : ℕ → Str → Bool) where
  -- `for pod in toRetire`: whether nothing was raised
  unfoldable pub delete_pods : List Str → Driver F → Bool × Driver F
  delete_pods [] d = (true, d)
  delete_pods (pod ∷ pods) d =
      let d' = record d { requested = d.requested ++ pod ∷ [] } in
      let rest = delete_pods pods d' in
      if deletes (length d.requested) pod then rest else (false, d')

  -- `toRetire`
  unfoldable pub to_retire : Polled F → Driver F → List Str
  unfolding keep_if elem take
  to_retire s d = take max_retired (keep_if (λ pod. elem pod d.live_pods) s.retirable)

  abbrev pub after_deletes : List Str → Bool × Driver F → Driver F
  after_deletes pods (true, d) = record d { live_pods = minus d.live_pods pods }
  after_deletes pods (false, d) = d

  unfoldable pub retire : Polled F → Driver F → Driver F
  unfolding delete_pods to_retire minus
  retire s d = after_deletes (to_retire s d) (delete_pods (to_retire s d) d)

  -- How long the monitor has not advanced: `last` is the duration of the status before.
  unfoldable pub check_advance : F → Polled F → Driver F → Driver F
  check_advance last s d = record d {
    monitor_stuck_for =
        (if eq s.mission_duration last then d.monitor_stuck_for + check_interval else 0);
  }

  -- `noLiveWorkers`
  unfoldable pub no_live_workers : Polled F → Bool
  no_live_workers s = ltb 0 (length s.jobs_in_progress) && s.workers_up == 0

  unfoldable pub all_finished : Polled F → Bool
  all_finished s = s.num_remain == 0 && length s.jobs_in_progress == 0

  -- The queries of the metrics, from the end of the mission and from the clock
  unfoldable pub ask_metrics : Bool → Driver F → Driver F
  ask_metrics finished d =
      let asked = if finished then d.metrics_asked + 1 else d.metrics_asked in
      let left = d.until_metrics - check_interval in
      if left == 0
      then record d { metrics_asked = asked + 1; until_metrics = metrics_interval }
      else record d { metrics_asked = asked; until_metrics = left }

  -- From the check for live workers to the end of the round
  unfoldable pub check_stall : Polled F → Driver F → Verdict × Driver F
  unfolding no_live_workers all_finished ask_metrics check_advance
  check_stall s d =
      let waited = if no_live_workers s then d.stalled_for + check_interval else 0 in
      let d' = record d { stalled_for = waited; last_duration = s.mission_duration } in
      if no_live_workers s && leb stall_timeout waited then (stalled, d') else (
        if all_finished s then complete else running,
        ask_metrics (all_finished s) (check_advance d.last_duration s d'),
      )

  unfoldable pub on_status : Polled F → Driver F → Verdict × Driver F
  unfolding retire check_stall
  on_status s d =
      let d' = record d { timeout_left = status_timeout } in
      if length s.jobs_failed == 0 then check_stall s (retire s d') else (catch_up_failed, d')

  -- One round, for what the query of the status gives
  unfoldable pub poll : Option (Polled F) → Driver F → Verdict × Driver F
  unfolding on_status
  poll none d =
      let left = d.timeout_left - check_interval in
      (if left == 0 then not_reachable else running, record d { timeout_left = left })
  poll (some s) d = on_status s d

  -- The loop goes on while the verdict is `running`.
  abbrev pub go_on : (Driver F → Verdict × Driver F) → Verdict × Driver F → Verdict × Driver F
  go_on next (running, d) = next d
  go_on next (complete, d) = (complete, d)
  go_on next (catch_up_failed, d) = (catch_up_failed, d)
  go_on next (stalled, d) = (stalled, d)
  go_on next (not_reachable, d) = (not_reachable, d)

  -- The loop, for the answers that are given.
  unfoldable pub poll_loop : List (Option (Polled F)) → Driver F → Verdict × Driver F
  unfolding poll
  poll_loop [] d = (running, d)
  poll_loop (a ∷ l) d = go_on (poll_loop l) (poll a d)

-- The state before the loop, for the pods of the workers; the last duration is -1.
unfoldable pub first_driver : {F : Type 0} → F → List Str → Driver F
first_driver minus_one pods = record {
  live_pods = pods;
  timeout_left = status_timeout;
  until_metrics = metrics_interval;
  stalled_for = 0;
  monitor_stuck_for = 0;
  last_duration = minus_one;
  requested = [];
  metrics_asked = 0;
}
