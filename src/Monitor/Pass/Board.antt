-- ===== src/Monitor/Pass/Board.antt =====
-- What the thread of src/MissionParallelCatchup/job_monitor.py leaves for the readers: `status`,
-- `metrics`, the gauges and the histograms, with their first values, and how a pass publishes a
-- status.
use supercluster.Prelude.{ℕ, List, []}
use supercluster.Prelude.Text.{Str}
use supercluster.Python.Number.{Number}
use supercluster.Monitor.Pass.{Status}

-- `metric_catchup_queues` and `metric_workers` with their labels, `metric_refresh_duration` and
-- `metric_mission_duration`
pub record Gauges (F : Type 0) : Type 0 where
  pub remain : ℕ
  pub succeeded : ℕ
  pub failed : ℕ
  pub in_progress : ℕ
  pub up : ℕ
  pub down : ℕ
  pub refresh_duration : F
  pub mission_duration : F

-- `status` is the dict but for its two durations, which are the next fields. The last two are the
-- values that the histograms have observed.
pub record Board (F : Type 0) : Type 0 where
  pub status : Status
  pub workers_refresh_duration : F
  pub mission_duration : F
  pub metrics : List Str
  pub gauges : Gauges F
  pub full_durations : List F
  pub tx_apply_durations : List F

-- The three times that a pass reads after the start of the mission.
pub record Clock (F : Type 0) : Type 0 where
  pub refresh_start : F
  pub refresh_end : F
  pub status_time : F

-- `status` when the program starts
abbrev pub first_status : Status
first_status = record {
  num_remain = 1;
  queue_remain_count = 0;
  queue_succeeded_count = 0;
  queue_failed_count = 0;
  queue_in_progress_count = 0;
  jobs_failed = [];
  jobs_in_progress = [];
  workers = [];
  retirable = [];
  workers_up = 0;
  workers_down = 0;
}

module _ (n : Number) where
  open n use {F, of_nat, sub}

  -- A gauge starts at 0.
  abbrev pub first_board : Board F
  first_board = record {
    status = first_status;
    workers_refresh_duration = of_nat 0;
    mission_duration = of_nat 0;
    metrics = [];
    gauges = record {
      remain = 0;
      succeeded = 0;
      failed = 0;
      in_progress = 0;
      up = 0;
      down = 0;
      refresh_duration = of_nat 0;
      mission_duration = of_nat 0;
    };
    full_durations = [];
    tx_apply_durations = [];
  }

  -- The status is replaced, and the gauges are set from it.
  unfoldable pub publish : F → Clock F → Status → Board F → Board F
  publish mission_start clock s b = record b {
    status = s;
    workers_refresh_duration = sub clock.refresh_end clock.refresh_start;
    mission_duration = sub clock.status_time mission_start;
    gauges = record {
      remain = s.queue_remain_count;
      succeeded = s.queue_succeeded_count;
      failed = s.queue_failed_count;
      in_progress = s.queue_in_progress_count;
      up = s.workers_up;
      down = s.workers_down;
      refresh_duration = sub clock.refresh_end clock.refresh_start;
      mission_duration = sub clock.status_time mission_start;
    };
  }
