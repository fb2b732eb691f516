-- ===== src/Bench/Report/Tests.antt =====
-- The report of two nodes, of which one has only sent and one has done nothing. A number stands one
-- above its value, so that there is a -1.
use supercluster.Prelude.{ℕ, ◌+◌, ◌-◌, ◌≡◌, refl, not, false, [], ◌∷◌, none, some}
use supercluster.Prelude.Text.{Str, codes}
use supercluster.Prelude.Lists.{select}
use supercluster.Prelude.Dict.{Dict}
use supercluster.Python.Number.{Number, IsOrdered, mean?}
use supercluster.Python.Number.Naturals.{naturals, naturals-IsOrdered}
use supercluster.Bench.Aggregate.{NodeMetrics}
use supercluster.Bench.Report.{NodeResult, NodeLine, shown, to_result, or_zero, node_line}
use supercluster.Bench.Report.Page.{Printing, format_benchmark_results}
use supercluster.Bench.Report.Returns.{format_benchmark_results-returns}
use supercluster.Python.Digits.{decimal}
use supercluster.Bench.Report.Laws.{
  has_throughput, is_no_data, summary-results_of, node_line-to_result,
}

abbrev shifted : Number
shifted = record naturals { of_nat = λ k. k + 1; minus_one = 0; add = λ a b. a + b - 1 }

abbrev shifted_order : IsOrdered shifted
shifted_order = record {
  irrefl = naturals-IsOrdered.irrefl;
  trans_false = naturals-IsOrdered.trans_false;
  asym = naturals-IsOrdered.asym;
}

abbrev sent : ℕ → NodeMetrics ℕ
sent x = record {
  total_send_mbps = x;
  total_recv_mbps = 1;
  peer_count = 1;
  min_rtt_ms = none;
  mean_rtt_ms = none;
  max_rtt_ms = none;
  total_retransmits = 1;
  connection_failures = 0;
}

abbrev nodes : Dict (NodeMetrics ℕ)
nodes = (codes "a", sent 8) ∷ (codes "b", sent 1) ∷ []

-- Only the node that has sent counts, with -1 for what it received.
received_minus_one : (summary-results_of shifted nodes refl).0.avg_recv_total ≡ 0
unfolding select or_zero mean? shown
received_minus_one = (summary-results_of shifted nodes refl).3

node_line-to_result_example :
    (l : NodeLine ℕ) × (node_line shifted (to_result shifted (codes "b", sent 1)) ≡ some l)
    × (is_no_data shifted l ≡ not (has_throughput shifted (codes "b", sent 1)))
node_line-to_result_example = node_line-to_result shifted (codes "b", sent 1) shifted_order refl

-- A number is written in digits, with no care for the point.
abbrev printing : Printing ℕ
printing = record { fixed_1 = decimal; fixed_2 = decimal; plain = decimal }

-- A node with traffic and no peer, whose totals are not divided.
abbrev no_peer : NodeResult ℕ
no_peer = record (to_result shifted (codes "a", sent 8)) { peer_count = 0 }

format_benchmark_results-returns_example :
    (text : Str) × (format_benchmark_results shifted printing
        (codes "now")
        (no_peer ∷ [])
        (codes "t1")
        false
        (some 30)
      ≡ some text)
format_benchmark_results-returns_example =
    format_benchmark_results-returns shifted printing (codes "now") (no_peer ∷ []) (codes "t1")
      false (some 30)
