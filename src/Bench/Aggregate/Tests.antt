-- ===== src/Bench/Aggregate/Tests.antt =====
-- A run of two nodes with one report, and the theorems at that run.
use supercluster.Prelude.{ℕ, ◌≡◌, refl, ◌↔◌, List, [], ◌∷◌, Option, none, some}
use supercluster.Prelude.Text.{Str, codes, str_eq}
use supercluster.Prelude.Dict.{Dict, lookup, has_key, get_or, add_new, update}
use supercluster.Prelude.Lists.{All}
use supercluster.Python.Number.Naturals.{naturals}
use supercluster.Bench.Initiate.{should_node_initiate_test, tested_peers, ord_sum}
use supercluster.Python.Json.{Json, field, end, num, obj, number}
use supercluster.Bench.Split.{split_reports}
use supercluster.Bench.Parse.{parse_iperf3_json}
use supercluster.Bench.Aggregate.{
  Pod, Topology, NodeMetrics, pod_node, aggregate_bidirectional_results, init_metrics, run_pods,
  run_tests, run_test, count_test, pod_tests, finalize_node_metrics, finalize, test_results,
  match_results, pod_output, fresh, add_send, add_recv, reverse_throughput, update_rtt_metrics,
  add_retransmits, sum_from,
}
use supercluster.Bench.Aggregate.Ends.{IsNumeric, ends_normally_iff}
use supercluster.Bench.Aggregate.Credits.{sends, receipts, all_of, values_of}
use supercluster.Bench.Aggregate.Result.{all_tests, has_pod, totals_are_credits, nodes_of_result}

abbrev rate_of : ℕ → ℕ → Json ℕ
rate_of bits lost =
    obj (field (codes "bits_per_second") (num bits) (field (codes "retransmits") (num lost) end))

-- 5 megabits a second forward, 3 in reverse.
abbrev report : Json ℕ
report = obj (
    field (codes "end")
      (obj (
        field (codes "sum_sent") (rate_of 5_000_000 2)
          (field (codes "sum_received_bidir_reverse") (rate_of 3_000_000 0) end)))
      end)

abbrev loads : Str → Option (Json ℕ)
loads s = some report

abbrev pod_of : Str → Pod
pod_of name = record {
  name = some name;
  node_name = some name;
  kubectl_output = some (codes "{\"start\": 1}");
}

abbrev pods : List Pod
pods = pod_of (codes "a") ∷ pod_of (codes "b") ∷ []

abbrev topology : Topology
topology = (codes "a", codes "b.svc" ∷ []) ∷ (codes "b", codes "a.svc" ∷ []) ∷ []

abbrev metrics_of : ℕ → ℕ → ℕ → NodeMetrics ℕ
metrics_of sent received lost = record {
  total_send_mbps = sent;
  total_recv_mbps = received;
  peer_count = 1;
  min_rtt_ms = none;
  mean_rtt_ms = none;
  max_rtt_ms = none;
  total_retransmits = lost;
  connection_failures = 0;
}

abbrev counted : Dict (NodeMetrics ℕ)
counted = (codes "a", metrics_of 3 5 0) ∷ (codes "b", metrics_of 5 3 2) ∷ []

counted_run : aggregate_bidirectional_results naturals loads pods topology ≡ some counted
unfolding aggregate_bidirectional_results init_metrics run_pods run_tests run_test count_test
    pod_tests finalize_node_metrics finalize test_results match_results pod_output fresh add_send
    add_recv reverse_throughput update_rtt_metrics add_retransmits add_new update has_key get_or
    number split_reports tested_peers parse_iperf3_json should_node_initiate_test str_eq pod_node
    ord_sum
counted_run = refl

totals_are_credits_example :
    (5
      ≡ sum_from naturals 0 (
          values_of naturals (codes "b") (
            all_of naturals
              (sends naturals (λ p. has_pod p pods))
              (all_tests naturals loads topology pods))))
    × (3
        ≡ sum_from naturals 0 (
            values_of naturals (codes "b") (
              all_of naturals
                (receipts naturals (λ p. has_pod p pods))
                (all_tests naturals loads topology pods))))
    × ((metrics_of 5 3 2).connection_failures ≡ 0)
unfolding lookup str_eq
totals_are_credits_example =
    totals_are_credits naturals loads topology pods (codes "b") counted_run refl

nodes_of_result_example : has_key (codes "a") counted ≡ has_pod (codes "a") pods
nodes_of_result_example = nodes_of_result naturals loads topology pods (codes "a") counted_run

ends_normally_iff_example :
    ((d : Dict (NodeMetrics ℕ)) × (aggregate_bidirectional_results naturals loads pods topology
        ≡ some d))
    ↔ All (IsNumeric naturals) (all_tests naturals loads topology pods)
ends_normally_iff_example = ends_normally_iff naturals loads topology pods
