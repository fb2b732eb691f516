-- ===== src/Bench/Report/Laws.antt =====
-- Which nodes the averages and the lines of the report count.
use supercluster.Prelude.{◌≡◌, refl, ap, arith, Bool, true, false, not, ◌||◌, [], ◌∷◌, map, some}
use supercluster.Prelude.Text.{Str}
use supercluster.Prelude.Lists.{select}
use supercluster.Prelude.Dict.{Dict}
use supercluster.Python.Number.{Number, IsOrdered, mean?}
use supercluster.Bench.Aggregate.{NodeMetrics}
use supercluster.Bench.Report.{
  NodeResult, NodeLine, no_data, figures, shown, to_result, is_valid, or_zero, Summary, summary,
  summary_with, node_line, results_of,
}
use supercluster.Bench.Report.Returns.{summary-some, node_line-some}

module _ (n : Number) where
  open n use {F, of_nat, minus_one, lt}

  -- The node has sent or received something.
  abbrev pub has_throughput : Str × NodeMetrics F → Bool
  has_throughput e = lt (of_nat 0) e.1.total_send_mbps || lt (of_nat 0) e.1.total_recv_mbps

  abbrev pub is_no_data : NodeLine F → Bool
  is_no_data (no_data _) = true
  is_no_data (figures _ _ _ _ _ _) = false

  is_valid-to_result :
      (e : Str × NodeMetrics F)
      → lt (of_nat 0) minus_one ≡ false
      → is_valid n (to_result n e) ≡ has_throughput e
  unfolding is_valid to_result shown
  is_valid-to_result e h = ground arith

  valid_values :
      (f : NodeResult F → F) (d : Dict (NodeMetrics F))
      → lt (of_nat 0) minus_one ≡ false
      → map f (select (is_valid n) (map (to_result n) d))
        ≡ map (λ e. f (to_result n e)) (select has_throughput d)
  unfolding select
  valid_values f [] h = refl
  valid_values f (e ∷ d) h = ground (arith, is_valid-to_result e h, valid_values f d h)

  pub summary-results_of :
      (d : Dict (NodeMetrics F))
      → lt (of_nat 0) minus_one ≡ false
      → (s : Summary F) × (summary n (results_of n d) ≡ some s)
        × (s.avg_send_total
            ≡ or_zero n
                (mean? n (map (λ e. shown n e.1.total_send_mbps) (select has_throughput d))))
        × (s.avg_recv_total
            ≡ or_zero n
                (mean? n (map (λ e. shown n e.1.total_recv_mbps) (select has_throughput d))))
  unfolding summary_with results_of to_result
  summary-results_of d h =
      let (sends, recvs, e) = summary-some n (results_of n d) in
      (
        _,
        e,
        ap (λ l. or_zero n (mean? n l)) (valid_values (λ r. r.total_send_mbps) d h),
        ap (λ l. or_zero n (mean? n l)) (valid_values (λ r. r.total_recv_mbps) d h),
      )

  -- If the numbers are ordered and -1 is below 0: each node has a line, and it has no figures exactly
  -- if the node has neither sent nor received anything.
  pub node_line-to_result :
      (e : Str × NodeMetrics F)
      → IsOrdered n
      → lt minus_one (of_nat 0) ≡ true
      → (l : NodeLine F) × (node_line n (to_result n e) ≡ some l)
        × (is_no_data l ≡ not (has_throughput e))
  unfolding to_result shown
  node_line-to_result e o h = (
    _,
    node_line-some n (to_result n e),
    ground (arith, o.asym (of_nat 0) e.1.total_send_mbps, o.asym (of_nat 0) e.1.total_recv_mbps),
  )
