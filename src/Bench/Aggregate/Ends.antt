-- ===== src/Bench/Aggregate/Ends.antt =====
-- When the aggregation ends normally.
use supercluster.Prelude.{
  Bool, true, ◌≡◌, refl, ap, ◌∙◌, ◌↔◌, List, [], ◌∷◌, Option, some, arith, Bool-cases, inl, inr,
}
use supercluster.Prelude.Text.{Str, codes, contains, str_eq_refl}
use supercluster.Prelude.Lists.{All, All-mono, All-append}
use supercluster.Prelude.Dict.{Dict, has_key, update}
use supercluster.Python.Number.{Number}
use supercluster.Python.Json.{Json, ok, number}
use supercluster.Bench.Parse.{Iperf}
use supercluster.Bench.Aggregate.{
  add_retransmits, count_test, Tally, PairTest, NodeMetrics, Pod, Topology, pod_node, pod_output,
  match_results, pod_tests, run_test, run_tests, init_metrics, finalize_node_metrics,
  aggregate_bidirectional_results,
}
use supercluster.Bench.Aggregate.Credits.{run_test_inv, has_key-run_test}
use supercluster.Bench.Aggregate.Totals.{run_tests-cons}
use supercluster.Bench.Aggregate.Result.{
  all_tests, has_pod, run_pods_lem, aggregate_inv, has_key-init_metrics_nil,
}

module _ (n : Number) where
  open n use {F}

  -- The value under `retransmits` is a number.
  abbrev pub IsNumeric : PairTest F → Type 0
  IsNumeric t = (x : F) × (number n t.result.retransmits ≡ ok x)

  run_test_total :
      (t : PairTest F) (d : Dict (Tally F))
      → has_key t.initiator d ≡ true
      → IsNumeric t
      → (d' : Dict (Tally F)) × (run_test n t d ≡ some d')
  unfolding run_test
  run_test_total t d k (x, q) =
      (update t.initiator (add_retransmits n x) (count_test n t d), ground arith)

  run_tests_total :
      (ts : List (PairTest F)) (d : Dict (Tally F))
      → All (λ t. has_key t.initiator d ≡ true) ts
      → All IsNumeric ts
      → (d' : Dict (Tally F)) × (run_tests n ts d ≡ some d')
  unfolding run_tests
  run_tests_total [] d k q = (d, refl)
  run_tests_total (t ∷ ts) d k q =
      let (d1, e) = run_test_total t d k.0 q.0 in
      let (d', e') =
        run_tests_total ts d1
          (All-mono (λ u. has_key u.initiator d ≡ true) (λ u. has_key u.initiator d1 ≡ true) ts
            (λ u h. has_key-run_test n t d u.initiator e ∙ h) k.1)
          q.1 in
      (d', ground arith)

  run_tests-IsNumeric :
      (ts : List (PairTest F)) (d : Dict (Tally F)) {d' : Dict (Tally F)}
      → run_tests n ts d ≡ some d'
      → All IsNumeric ts
  run_tests-IsNumeric [] d e = tt
  run_tests-IsNumeric (t ∷ ts) d e =
      let (d1, p, q) = run_tests-cons n t ts d e in
      let (x, _, r, _) = run_test_inv n t d p in ((x, r), run_tests-IsNumeric ts d1 q)

  match_results_initiator :
      (k : Str) (rs : List (Iperf F)) (peers : List Str)
      → All (λ t. t.initiator ≡ k) (match_results n k rs peers)
  unfolding match_results
  match_results_initiator k [] peers = tt
  match_results_initiator k (r ∷ rs) [] = tt
  match_results_initiator k (r ∷ rs) (p ∷ peers) = (refl, match_results_initiator k rs peers)

  module _ (loads : Str → Option (Json F)) (topology : Topology) where
    pod_tests_initiator :
        (p : Pod) → All (λ t. t.initiator ≡ pod_node p) (pod_tests n loads topology p)
    unfolding pod_tests
    pod_tests_initiator p = elim (Bool-cases (contains (codes "\"start\"") (pod_output p))) [
      | inl q ↦ rw q (match_results_initiator (pod_node p) _ _)
      | inr q ↦ rw q tt
    ]

    -- Every initiator of a test is a node of the run.
    all_tests_known :
        (known : Str → Bool) (pods : List Pod)
        → All (λ p. known (pod_node p) ≡ true) pods
        → All (λ t. known t.initiator ≡ true) (all_tests n loads topology pods)
    unfolding all_tests
    all_tests_known known [] h = tt
    all_tests_known known (p ∷ pods) h =
        All-append (λ t. known t.initiator ≡ true) (pod_tests n loads topology p) _
          (All-mono (λ t. t.initiator ≡ pod_node p) (λ t. known t.initiator ≡ true) _
            (λ t e. ap known e ∙ h.0) (pod_tests_initiator p))
          (all_tests_known known pods h.1)

    pods_known : (pods : List Pod) → All (λ p. has_pod (pod_node p) pods ≡ true) pods
    pods_known [] = tt
    pods_known (p ∷ pods) = (
      ground (arith, str_eq_refl (pod_node p)),
      All-mono (λ q. has_pod (pod_node q) pods ≡ true) (λ q. has_pod (pod_node q) (p ∷ pods) ≡ true)
          pods (λ q h. ground arith) (pods_known pods),
    )

    aggregate_of_run :
        (pods : List Pod) {d0 : Dict (Tally F)}
        → run_tests n (all_tests n loads topology pods) (init_metrics n pods []) ≡ some d0
        → aggregate_bidirectional_results n loads pods topology
          ≡ some (finalize_node_metrics n topology d0)
    unfolding aggregate_bidirectional_results
    aggregate_of_run pods e =
        ground (arith, run_pods_lem n loads topology pods (init_metrics n pods []))

    -- The aggregation ends normally exactly if the retransmits of every counted test are a number;
    -- a missing node never stops it.
    pub ends_normally_iff :
        (pods : List Pod)
        → ((d : Dict (NodeMetrics F)) × (aggregate_bidirectional_results n loads pods topology
              ≡ some d))
          ↔ All IsNumeric (all_tests n loads topology pods)
    ends_normally_iff pods = (to, from)
      where
        to :
            (d : Dict (NodeMetrics F)) × (aggregate_bidirectional_results n loads pods topology
                ≡ some d)
            → All IsNumeric (all_tests n loads topology pods)
        to (d, e) =
            let (d0, run, _) = aggregate_inv n loads topology pods e in
            run_tests-IsNumeric (all_tests n loads topology pods) (init_metrics n pods []) run

        from :
            All IsNumeric (all_tests n loads topology pods)
            → (d : Dict (NodeMetrics F)) × (aggregate_bidirectional_results n loads pods topology
                ≡ some d)
        from h =
            let start = init_metrics n pods [] in
            let (d0, e) =
              run_tests_total (all_tests n loads topology pods) start
                (all_tests_known (λ k. has_key k start) pods
                  (All-mono (λ p. has_pod (pod_node p) pods ≡ true)
                    (λ p. has_key (pod_node p) start ≡ true) pods
                    (λ p q. has_key-init_metrics_nil n pods (pod_node p) ∙ q) (pods_known pods)))
                h in
            (finalize_node_metrics n topology d0, aggregate_of_run pods e)
