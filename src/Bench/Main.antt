-- ===== src/Bench/Main.antt =====
-- `main` of src/scripts/parse_benchmark_results.py.
mod Tests
use supercluster.Prelude.{
  ℕ, Bool, true, false, List, [], ◌∷◌, ◌++◌, Option, none, some, if◌then◌else◌,
}
use supercluster.Prelude.Text.{Str, codes, str_eq}
use supercluster.Prelude.Lists.{take}
use supercluster.Prelude.Dict.{Dict}
use supercluster.Python.Number.{Number}
use supercluster.Python.Json.{Json}
use supercluster.Bench.Aggregate.{Pod, Topology, NodeMetrics, aggregate_bidirectional_results}
use supercluster.Bench.Report.{NodeResult, results_of}
use supercluster.Bench.Report.Page.{Printing, format_benchmark_results}
use supercluster.Bench.Names.{PodData, name_pods}

-- The input, in the shape in which the mission writes it. The delay is off where it is not given.
pub record Input : Type 0 where
  pub pods : List PodData
  pub topology : Topology
  pub test_id : Str
  pub network_delay_enabled : Bool
  pub duration_seconds : Option ℕ

-- `output`, which goes to the file.
pub record Output (F : Type 0) : Type 0 where
  pub test_id : Str
  pub results : List (NodeResult F)
  pub formatted_output : Str

-- How the script ends: by `sys.exit`, by an exception that nothing catches, or at its last line,
-- with what it printed, the file that it wrote, its path, and the line for the mission.
pub data Run (F : Type 0) : Type 0 where
  exited : ℕ → Run F
  raised : Run F
  finished : Str → Str → Output F → Str → Run F

-- `is_space` is `\s` of `re`, `loads` and `read_input` are `json.loads` on a report and on the
-- input, `timestamp` is the time, and `writes` says whether the directory and the file can be
-- written.
module _ (n : Number) (p : Printing n.F) (is_space : ℕ → Bool) (loads : Str → Option (Json n.F))
    (read_input : Str → Option Input) (timestamp : Str) (writes : Str → Output n.F → Bool) where
  open n use {F}

  -- `os.path.join('destination', f"{input_data['test_id']}.json")`: an absolute second path replaces
  -- the first.
  unfoldable pub dest_file : Str → Str
  unfolding str_eq
  dest_file test_id =
      if str_eq (take 1 test_id) (codes "/")
      then test_id ++ codes ".json"
      else codes "destination/" ++ test_id ++ codes ".json"

  unfoldable pub finish : Input → Dict (NodeMetrics F) → Run F
  unfolding dest_file
  finish input node_metrics =
      let results = results_of n node_metrics in
      elim (format_benchmark_results n p timestamp results input.test_id input.network_delay_enabled
        input.duration_seconds) [
          | none ↦ raised
          | some formatted ↦
              let output : Output F = record {
                test_id = input.test_id;
                results = results;
                formatted_output = formatted;
              } in
              if writes (dest_file input.test_id) output
              then (finished (formatted ++ 10 ∷ []) (dest_file input.test_id) output
                  (codes "RESULTS_FILE: " ++ dest_file input.test_id))
              else raised
        ]

  unfoldable pub run_input : Input → Run F
  unfolding finish
  run_input input = elim (name_pods is_space input.pods) [
    | none ↦ raised
    | some pods ↦ elim (aggregate_bidirectional_results n loads pods input.topology) [
      | none ↦ raised
      | some node_metrics ↦ finish input node_metrics
    ]
  ]

  unfoldable pub main : Str → Run F
  unfolding run_input
  main stdin = elim (read_input stdin) [ none ↦ exited 1 | some input ↦ run_input input ]
