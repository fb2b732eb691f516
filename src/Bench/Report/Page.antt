-- ===== src/Bench/Report/Page.antt =====
-- The text of `format_benchmark_results` of src/scripts/parse_benchmark_results.py.
use supercluster.Prelude.{
  ℕ, zero, suc, Bool, List, [], ◌∷◌, ◌++◌, Option, none, some, map, if◌then◌else◌,
}
use supercluster.Prelude.Text.{Str, codes}
use supercluster.Python.Number.{Number}
use supercluster.Python.Digits.{decimal}
use supercluster.Bench.Report.{
  NodeResult, NodeLine, no_data, figures, Summary, all_of, node_line, summary,
}

-- How Python writes a number: with one and with two digits after the point, and by `str`.
pub record Printing (F : Type 0) : Type 0 where
  pub fixed_1 : F → Str
  pub fixed_2 : F → Str
  pub plain : F → Str

-- `chr(10).join(lines)`
unfoldable pub join_lines : List Str → Str
join_lines [] = []
join_lines (l ∷ []) = l
join_lines (l ∷ m ∷ ls) = l ++ 10 ∷ join_lines (m ∷ ls)

abbrev rule : Str
rule = codes "==============================================="

module _ {F : Type 0} (p : Printing F) where
  unfoldable pub per_peer_info : Option (F × F) → Str
  per_peer_info none = []
  per_peer_info (some (send, recv)) =
      codes " (" ++ p.fixed_1 send ++ codes "/" ++ p.fixed_1 recv ++ codes " Mbps per peer)"

  unfoldable pub rtt_info : Option F → Str
  rtt_info none = codes "N/A RTT"
  rtt_info (some rtt) = p.fixed_2 rtt ++ codes " ms mean RTT"

  -- An item of `node_lines`
  unfoldable pub line_text : NodeLine F → Str
  unfolding per_peer_info rtt_info
  line_text (no_data name) =
      codes "  " ++ name ++ codes ": N/A send, N/A recv, N/A RTT, N/A retransmits"
  line_text (figures name send recv per_peer rtt retransmits) =
      codes "  "
      ++ name
      ++ codes ": "
      ++ p.fixed_1 send
      ++ codes " Mbps send, "
      ++ p.fixed_1 recv
      ++ codes " Mbps recv"
      ++ per_peer_info per_peer
      ++ codes ", "
      ++ rtt_info rtt
      ++ codes ", "
      ++ p.plain retransmits
      ++ codes " retransmits"

  -- `duration_seconds if duration_seconds else 'N/A'`
  unfoldable pub duration_text : Option ℕ → Str
  unfolding decimal
  duration_text none = codes "N/A"
  duration_text (some zero) = codes "N/A"
  duration_text (some (suc s)) = decimal (suc s)

  -- The lines of the text between its first and its last line break, from the figures of the head.
  unfoldable pub page_lines : Summary F → List Str → Str → Str → Bool → Option ℕ → List Str
  unfolding duration_text
  page_lines f lines timestamp test_id network_delay_enabled duration_seconds =
      (rule
        ∷ codes "Network Infrastructure Benchmark Results"
        ∷ rule
        ∷ (codes "Test ID: " ++ test_id)
        ∷ (codes "Timestamp: " ++ timestamp)
        ∷ []
        ∷ codes "Infrastructure Configuration:"
        ∷ (codes "- Nodes: " ++ decimal f.total_nodes)
        ∷ (codes "- Average peers per node: " ++ p.fixed_1 f.avg_peers)
        ∷ (codes "- Total connections: " ++ decimal f.total_connections)
        ∷ (codes "- Test duration: " ++ duration_text duration_seconds ++ codes " seconds")
        ∷ (codes "- Network delays: "
            ++ (if network_delay_enabled then codes "enabled" else codes "disabled"))
        ∷ []
        ∷ codes "Aggregate Performance Metrics:"
        ∷ (codes "- Connection failures: " ++ decimal f.total_failures)
        ∷ (codes "- Average total throughput per node: "
            ++ p.fixed_1 f.avg_send_total
            ++ codes " Mbps send, "
            ++ p.fixed_1 f.avg_recv_total
            ++ codes " Mbps recv")
        ∷ (codes "- Average per-peer throughput: "
            ++ p.fixed_1 f.avg_send_per_peer
            ++ codes " Mbps send, "
            ++ p.fixed_1 f.avg_recv_per_peer
            ++ codes " Mbps recv")
        ∷ []
        ∷ codes "RTT Latency Statistics (across all nodes):"
        ∷ (codes "- Minimum: " ++ p.fixed_2 f.overall_min_rtt ++ codes " ms")
        ∷ (codes "- Mean: " ++ p.fixed_2 f.overall_mean_rtt ++ codes " ms")
        ∷ (codes "- Maximum: " ++ p.fixed_2 f.overall_max_rtt ++ codes " ms")
        ∷ []
        ∷ codes "Individual Node Results:"
        ∷ join_lines lines
        ∷ rule
        ∷ [])

  -- The text, between its first and its last line break.
  unfoldable pub page : Summary F → List (NodeLine F) → Str → Str → Bool → Option ℕ → Str
  unfolding line_text page_lines join_lines
  page f node_lines timestamp test_id network_delay_enabled duration_seconds =
      10
      ∷ (join_lines (
            page_lines f (map line_text node_lines) timestamp test_id network_delay_enabled
              duration_seconds)
          ++ 10 ∷ [])

-- `timestamp` is the time in UTC as `strftime` writes it; none is an exception.
unfoldable pub format_benchmark_results :
    (n : Number) → Printing n.F → Str → List (NodeResult n.F) → Str → Bool → Option ℕ → Option Str
unfolding summary node_line all_of page
format_benchmark_results n p timestamp results test_id network_delay_enabled duration_seconds =
    elim (summary n results) [
      | none ↦ none
      | some f ↦ elim (all_of (map (node_line n) results)) [
        | none ↦ none
        | some node_lines ↦
            some (page p f node_lines timestamp test_id network_delay_enabled duration_seconds)
      ]
    ]
