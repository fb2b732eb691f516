-- ===== src/Bench/Aggregate/Run.antt =====
-- The loops over the pods and their reports, and the finishing passes.
use supercluster.Prelude.{ℕ, ◌&&◌, ◌||◌, List, [], ◌∷◌, map, Option, none, some, if◌then◌else◌}
use supercluster.Prelude.Text.{Str, codes, contains}
use supercluster.Prelude.Lists.{length}
use supercluster.Prelude.Dict.{Dict, get_or, add_new}
use supercluster.Python.Number.{Number, mean?}
use supercluster.Bench.Initiate.{peer_node, tested_peers}
use supercluster.Python.Json.{Json}
use supercluster.Bench.Split.{split_reports}
use supercluster.Bench.Parse.{Iperf, parse_iperf3_json}
use supercluster.Bench.Aggregate.Defs.{Tally, PairTest, fresh, has_data, run_test}

-- The fields of an entry of `pods` that the script reads; `none` is a missing field.
pub record Pod : Type 0 where
  pub name : Option Str
  pub node_name : Option Str
  pub kubectl_output : Option Str

abbrev pub Topology : Type 0
Topology = Dict (List Str)

-- `pod_data.get('node_name', pod_data.get('name', 'unknown'))`
unfoldable pub pod_node : Pod → Str
pod_node p = elim p.node_name [
  | some s ↦ s
  | none ↦ elim p.name [ some s ↦ s | none ↦ codes "unknown" ]
]

-- `pod_data.get('kubectl_output', '')`
unfoldable pub pod_output : Pod → Str
pod_output p = elim p.kubectl_output [ some s ↦ s | none ↦ [] ]

-- A value of `node_metrics` at the end.
pub record NodeMetrics (F : Type 0) : Type 0 where
  pub total_send_mbps : F
  pub total_recv_mbps : F
  pub peer_count : ℕ
  pub min_rtt_ms : Option F
  pub mean_rtt_ms : Option F
  pub max_rtt_ms : Option F
  pub total_retransmits : F
  pub connection_failures : ℕ

module _ (n : Number) where
  open n use {F, of_nat, add, lt, sub, mul, div, magnitude}

  unfoldable pub init_metrics : List Pod → Dict (Tally F) → Dict (Tally F)
  init_metrics [] d = d
  init_metrics (p ∷ pods) d = init_metrics pods (add_new (pod_node p) (fresh n) d)

  unfoldable pub run_tests : List (PairTest F) → Dict (Tally F) → Option (Dict (Tally F))
  run_tests [] d = some d
  run_tests (t ∷ ts) d = elim (run_test n t d) [ none ↦ none | some d' ↦ run_tests ts d' ]

  -- `for i, result in enumerate(test_results): if i < len(tested_peers): …`
  unfoldable pub match_results : Str → List (Iperf F) → List Str → List (PairTest F)
  unfolding peer_node
  match_results initiator (r ∷ rs) (peer_fqdn ∷ peers) =
      record { initiator = initiator; peer = peer_node peer_fqdn; result = r }
      ∷ match_results initiator rs peers
  match_results initiator (r ∷ rs) [] = []
  match_results initiator [] peers = []

  module _ (loads : Str → Option (Json F)) where
    -- The loop that fills `test_results`.
    unfoldable pub test_results : List Str → List (Iperf F)
    unfolding contains parse_iperf3_json has_data
    test_results [] = []
    test_results (part ∷ parts) =
        let later = test_results parts in
        let result = parse_iperf3_json n loads part in
        if contains (codes "\"start\"") part && has_data n result then result ∷ later else later

    -- The tests of one pod; none where its output has no report.
    unfoldable pub pod_tests : Topology → Pod → List (PairTest F)
    pod_tests topology p =
        if contains (codes "\"start\"") (pod_output p)
        then match_results (pod_node p) (test_results (split_reports (pod_output p)))
            (tested_peers (pod_node p) (get_or (pod_node p) [] topology))
        else []

    unfoldable pub run_pods : Topology → List Pod → Dict (Tally F) → Option (Dict (Tally F))
    run_pods topology [] d = some d
    run_pods topology (p ∷ pods) d = elim (run_tests (pod_tests topology p) d) [
      | none ↦ none
      | some d' ↦ run_pods topology pods d'
    ]

  unfoldable pub finalize : Topology → Str → Tally F → NodeMetrics F
  unfolding get_or mean?
  finalize topology name m = record {
    total_send_mbps = m.total_send_mbps;
    total_recv_mbps = m.total_recv_mbps;
    peer_count =
        (if lt (of_nat 0) m.total_send_mbps || lt (of_nat 0) m.total_recv_mbps
          then length (get_or name [] topology)
          else m.peer_count);
    min_rtt_ms = m.min_rtt_ms;
    mean_rtt_ms = mean? n m.mean_rtts_ms;
    max_rtt_ms = m.max_rtt_ms;
    total_retransmits = m.total_retransmits;
    connection_failures = m.connection_failures;
  }

  unfoldable pub finalize_node_metrics : Topology → Dict (Tally F) → Dict (NodeMetrics F)
  finalize_node_metrics topology [] = []
  finalize_node_metrics topology ((k, m) ∷ d) =
      (k, finalize topology k m) ∷ finalize_node_metrics topology d

  -- `sum(...)`, from the left
  unfoldable pub sum_from : F → List F → F
  sum_from acc [] = acc
  sum_from acc (x ∷ xs) = sum_from (add acc x) xs

  -- `validate_network_balance`: the two totals and the percentage of the warning, if it is printed.
  unfoldable pub validate_network_balance : Dict (NodeMetrics F) → Option (F × F × F)
  unfolding sum_from
  validate_network_balance d =
      let sent = sum_from (of_nat 0) (map (λ e. e.1.total_send_mbps) d) in
      let received = sum_from (of_nat 0) (map (λ e. e.1.total_recv_mbps) d) in
      let percent = mul (div (magnitude (sub sent received)) sent) (of_nat 100) in
      if lt (of_nat 0) sent
      then (if lt (of_nat 5) percent then some (sent, received, percent) else none)
      else none

  unfoldable pub aggregate_bidirectional_results :
      (Str → Option (Json F)) → List Pod → Topology → Option (Dict (NodeMetrics F))
  aggregate_bidirectional_results loads pods topology =
      elim (run_pods loads topology pods (init_metrics pods [])) [
        | none ↦ none
        | some d ↦ some (finalize_node_metrics topology d)
      ]
