-- ===== src/Monitor/Http.antt =====
-- The HTTP server of src/MissionParallelCatchup/job_monitor.py: `do_GET`, and how the driver of the
-- mission, src/FSLibrary/MissionHistoryPubnetParallelCatchupV2.fs, reads the status.
pub mod Laws
mod Tests
use supercluster.Prelude.{
  ℕ, Bool, true, false, ◌&&◌, List, [], ◌∷◌, ◌==◌, Option, none, some, if◌then◌else◌,
}
use supercluster.Prelude.Text.{Str, codes, str_eq}
use supercluster.Prelude.Lists.{length}
use supercluster.Python.Number.{Number}
use supercluster.Python.Json.{
  Json, Items, Fields, num, str, arr, obj, nil, cons, end, field, Result, ok, raised, ◌>>=◌, item,
  iterate, number,
}
use supercluster.Monitor.Pass.{Status, WorkerStatus}
use supercluster.Monitor.Pass.Board.{Board, Gauges}

-- A body is a text here: `encode` is left out, and `generate_latest` gives bytes that are one.
pub record Response : Type 0 where
  pub code : ℕ
  pub content_type : Option Str
  pub body : Str

-- What `REGISTRY` holds.
pub record Registry (F : Type 0) : Type 0 where
  pub gauges : Gauges F
  pub full_durations : List F
  pub tx_apply_durations : List F
  pub retries : ℕ

-- What the server takes from other code: `json.dumps`, `generate_latest` and CONTENT_TYPE_LATEST.
pub record Formats (F : Type 0) : Type 0 where
  pub dumps : Json F → Str
  pub generate_latest : Registry F → Str
  pub content_type_latest : Str

unfoldable pub texts : {F : Type 0} → List Str → Items F
texts [] = nil
texts (s ∷ l) = cons (str s) (texts l)

unfoldable pub worker_rows : {F : Type 0} → List WorkerStatus → Items F
worker_rows [] = nil
worker_rows ((pod, up) ∷ l) =
    cons
      (obj (
        field (codes "pod") (str pod)
          (field (codes "status") (str (if up then codes "running" else codes "down")) end)))
      (worker_rows l)

module _ (n : Number) where
  open n use {F, of_nat, eq}

  -- `status`
  unfoldable pub status_json : Board F → Json F
  unfolding texts worker_rows
  status_json b =
      let count : ℕ → Json F = λ k. num (of_nat k) in
      let s = b.status in
      obj (
        field (codes "num_remain") (count s.num_remain) (
          field (codes "queue_remain_count") (count s.queue_remain_count) (
            field (codes "queue_succeeded_count") (count s.queue_succeeded_count) (
              field (codes "queue_failed_count") (count s.queue_failed_count) (
                field (codes "queue_in_progress_count") (count s.queue_in_progress_count) (
                  field (codes "jobs_failed") (arr (texts s.jobs_failed)) (
                    field (codes "jobs_in_progress") (arr (texts s.jobs_in_progress)) (
                      field (codes "workers") (arr (worker_rows s.workers)) (
                        field (codes "retirable") (arr (texts s.retirable)) (
                          field (codes "workers_up") (count s.workers_up) (
                            field (codes "workers_down") (count s.workers_down) (
                              field (codes "workers_refresh_duration")
                                (num b.workers_refresh_duration)
                                (field (codes "mission_duration") (num b.mission_duration)
                                  end)))))))))))))

  -- `metrics`
  unfoldable pub metrics_json : Board F → Json F
  unfolding texts
  metrics_json b = obj (field (codes "metrics") (arr (texts b.metrics)) end)

  -- What a request gets, for the path, while the board and the counter of retries are these.
  unfoldable pub do_get : Formats F → Str → Board F → ℕ → Response
  unfolding status_json metrics_json
  do_get fs path b retries =
      if str_eq path (codes "/status")
      then record {
        code = 200;
        content_type = some (codes "application/json");
        body = fs.dumps (status_json b);
      }
      else if str_eq path (codes "/prometheus")
      then record {
        code = 200;
        content_type = some fs.content_type_latest;
        body = fs.generate_latest (record {
          gauges = b.gauges;
          full_durations = b.full_durations;
          tx_apply_durations = b.tx_apply_durations;
          retries = retries;
        });
      }
      else if str_eq path (codes "/metrics")
      then record {
        code = 200;
        content_type = some (codes "application/json");
        body = fs.dumps (metrics_json b);
      }
      else record { code = 404; content_type = none; body = [] }

  -- `status.Value<int>(key)` and the items of `status.[key] :?> JArray`
  unfoldable pub read_count : Str → Json F → Result F
  read_count k status = do v ← item k status; number n v

  unfoldable pub read_list : Str → Json F → Result (List (Json F))
  read_list k status = do v ← item k status; iterate v
