-- ===== src/Bench/Aggregate/Result.antt =====
-- `aggregate_bidirectional_results` as a whole: its totals, its nodes, and when it ends normally.
use mathlib.Core.Path.{subst, fun_ext}
use supercluster.Prelude.{
  Bool, false, ◌||◌, ◌≡◌, refl, ap, sym, ◌∙◌, List, [], ◌∷◌, ◌++◌, Option, none, some, arith,
  Bool-cases, inl, inr, Option-cases, of_some,
}
use supercluster.Prelude.Text.{Str, str_eq, str_eq_iff}
use supercluster.Prelude.Dict.{
  Dict, lookup, has_key, has_key_of_lookup, add_new, has_key-add_new, lookup_of_has_key,
  lookup-add_new_inv,
}
use supercluster.Python.Number.{Number}
use supercluster.Python.Json.{Json}
use supercluster.Bench.Aggregate.{
  Tally, PairTest, NodeMetrics, Pod, Topology, pod_node, pod_tests, fresh, run_test, run_tests,
  run_pods, sum_from, init_metrics, finalize, finalize_node_metrics,
  aggregate_bidirectional_results,
}
use supercluster.Bench.Aggregate.Credits.{sends, receipts, all_of, values_of, Credited}
use supercluster.Bench.Aggregate.Totals.{run_tests_credits, has_key-run_tests}

-- The nodes of the run are those of the pods.
abbrev pub has_pod : Str → List Pod → Bool
has_pod k [] = false
has_pod k (p ∷ pods) = str_eq k (pod_node p) || has_pod k pods

module _ (n : Number) where
  open n use {F, of_nat}

  -- Every entry is as new.
  abbrev IsNew : Dict (Tally F) → Type 0
  IsNew d = (k : Str) (m : Tally F) → lookup k d ≡ some m → m ≡ fresh n

  init_metrics-IsNew :
      (pods : List Pod) (d : Dict (Tally F)) → IsNew d → IsNew (init_metrics n pods d)
  unfolding init_metrics
  init_metrics-IsNew [] d h = h
  init_metrics-IsNew (p ∷ pods) d h =
      init_metrics-IsNew pods (add_new (pod_node p) (fresh n) d) (λ k m e.
        elim (lookup-add_new_inv k (pod_node p) (fresh n) d e) [
          | inl old ↦ h k m old
          | inr new ↦ new
        ])

  has_key-init_metrics :
      (pods : List Pod) (d : Dict (Tally F)) (k : Str)
      → has_key k (init_metrics n pods d) ≡ (has_key k d || has_pod k pods)
  unfolding init_metrics
  has_key-init_metrics [] d k = ground arith
  has_key-init_metrics (p ∷ pods) d k = ground (
    arith,
    has_key-init_metrics pods (add_new (pod_node p) (fresh n) d) k,
    has_key-add_new k (pod_node p) (fresh n) d,
  )

  pub has_key-init_metrics_nil :
      (pods : List Pod) (k : Str) → has_key k (init_metrics n pods []) ≡ has_pod k pods
  unfolding has_key lookup
  has_key-init_metrics_nil pods k = has_key-init_metrics pods [] k

  finalize_inv :
      (topology : Topology) (d : Dict (Tally F)) (k : Str) {m : NodeMetrics F}
      → lookup k (finalize_node_metrics n topology d) ≡ some m
      → (m0 : Tally F) × (lookup k d ≡ some m0) × (m ≡ finalize n topology k m0)
  unfolding lookup finalize_node_metrics
  finalize_inv topology [] k e = absurd (ground arith)
  finalize_inv topology ((j, m1) ∷ d) k e = elim (Bool-cases (str_eq k j)) [
    | inl q ↦ (m1, ground arith, ground (arith, str_eq_iff k j))
    | inr q ↦ let (m0, a, b) = finalize_inv topology d k (ground arith) in (m0, ground arith, b)
  ]

  has_key-finalize :
      (topology : Topology) (d : Dict (Tally F)) (k : Str)
      → has_key k (finalize_node_metrics n topology d) ≡ has_key k d
  unfolding has_key lookup finalize_node_metrics
  has_key-finalize topology [] k = refl
  has_key-finalize topology ((j, m) ∷ d) k = ground (arith, has_key-finalize topology d k)

  module _ (loads : Str → Option (Json F)) (topology : Topology) where
    -- All tests of the run, in the order in which they are counted.
    unfoldable pub all_tests : List Pod → List (PairTest F)
    all_tests [] = []
    all_tests (p ∷ pods) = pod_tests n loads topology p ++ all_tests pods

    run_tests-append :
        (ts us : List (PairTest F)) (d : Dict (Tally F))
        → run_tests n (ts ++ us) d
          ≡ elim (run_tests n ts d) [ none ↦ none | some d' ↦ run_tests n us d' ]
    unfolding run_tests
    run_tests-append [] us d = refl
    run_tests-append (t ∷ ts) us d = elim (Option-cases (run_test n t d)) [
      | inl q ↦ ground arith
      | inr (d1, q) ↦ ground (arith, run_tests-append ts us d1)
    ]

    -- The nested loops count the tests of all pods one after another.
    pub run_pods_lem :
        (pods : List Pod) (d : Dict (Tally F))
        → run_pods n loads topology pods d ≡ run_tests n (all_tests pods) d
    unfolding run_pods all_tests run_tests
    run_pods_lem [] d = refl
    run_pods_lem (p ∷ pods) d = elim (Option-cases (run_tests n (pod_tests n loads topology p) d)) [
      | inl q ↦ ground (arith, run_tests-append (pod_tests n loads topology p) (all_tests pods) d)
      | inr (d1, q) ↦ ground (
        arith,
        run_tests-append (pod_tests n loads topology p) (all_tests pods) d,
        run_pods_lem pods d1,
      )
    ]

    -- What a normal end says of the tally behind a node's metrics.
    pub aggregate_inv :
        (pods : List Pod) {d : Dict (NodeMetrics F)}
        → aggregate_bidirectional_results n loads pods topology ≡ some d
        → (d0 : Dict (Tally F)) × (run_tests n (all_tests pods) (init_metrics n pods []) ≡ some d0)
          × (d ≡ finalize_node_metrics n topology d0)
    unfolding aggregate_bidirectional_results
    aggregate_inv pods e =
        elim (Option-cases (run_tests n (all_tests pods) (init_metrics n pods []))) [
          | inl q ↦ absurd (ground (arith, run_pods_lem pods (init_metrics n pods [])))
          | inr (d0, q) ↦ (d0, q, ground (arith, run_pods_lem pods (init_metrics n pods [])))
        ]

    no_entries : IsNew []
    unfolding lookup
    no_entries k m e = cc

    -- The result has an entry for exactly the nodes of the pods.
    pub nodes_of_result :
        (pods : List Pod) {d : Dict (NodeMetrics F)} (k : Str)
        → aggregate_bidirectional_results n loads pods topology ≡ some d
        → has_key k d ≡ has_pod k pods
    unfolding has_key
    nodes_of_result pods k e =
        let (d0, run, q) = aggregate_inv pods e in
        ap (has_key k) q
        ∙ has_key-finalize topology d0 k
        ∙ has_key-run_tests n (all_tests pods) (init_metrics n pods []) run k
        ∙ has_key-init_metrics pods [] k

    -- The tally behind a node's metrics: it was new before the tests.
    tally_inv :
        (pods : List Pod) {d : Dict (NodeMetrics F)} (k : Str) {m : NodeMetrics F}
        → aggregate_bidirectional_results n loads pods topology ≡ some d
        → lookup k d ≡ some m
        → (m1 : Tally F) × (m ≡ finalize n topology k m1)
          × Credited n (λ p. has_pod p pods) (all_tests pods) k (fresh n) m1
    tally_inv pods k {m} e l =
        let d_init = init_metrics n pods [] in
        let (d0, run, q) = aggregate_inv pods e in
        let (m0, l0, f) = finalize_inv topology d0 k (sym (ap (lookup k) q) ∙ l) in
        let (mi, li) =
          lookup_of_has_key k d_init
            (sym (has_key-run_tests n (all_tests pods) d_init run k) ∙ has_key_of_lookup k d0 l0) in
        let (m1, l1, c) = run_tests_credits n (all_tests pods) d_init k run li in
        let known : ◌≡◌ {A = Str → Bool} (λ j. has_key j d_init) (λ j. has_pod j pods) =
          fun_ext (λ j. has_key-init_metrics_nil pods j) in
        let c1 : Credited n (λ p. has_pod p pods) (all_tests pods) k mi m1 =
          subst (λ g. Credited n g (all_tests pods) k mi m1) known c in
        (
          m1,
          f ∙ ap (finalize n topology k) (of_some _ _ (sym l0 ∙ l1)),
          subst (λ t. Credited n (λ p. has_pod p pods) (all_tests pods) k t m1)
              (init_metrics-IsNew pods [] no_entries k mi li) c1,
        )

    -- Each total is the sum, in the order of the tests, of what the tests credit to the node: a
    -- test credits its forward throughput as sent by the initiator and received by the peer, and
    -- its reverse throughput the other way round. The connection failures are 0.
    pub totals_are_credits :
        (pods : List Pod) {d : Dict (NodeMetrics F)} (k : Str) {m : NodeMetrics F}
        → aggregate_bidirectional_results n loads pods topology ≡ some d
        → lookup k d ≡ some m
        → let known : Str → Bool = λ p. has_pod p pods in
          let ts = all_tests pods in
          (m.total_send_mbps ≡ sum_from n (of_nat 0) (values_of n k (all_of n (sends n known) ts)))
          × (m.total_recv_mbps
              ≡ sum_from n (of_nat 0) (values_of n k (all_of n (receipts n known) ts)))
          × (m.connection_failures ≡ 0)
    unfolding finalize fresh
    totals_are_credits pods k {m} e l =
        let (m1, f, c) = tally_inv pods k e l in
        (
          ap (λ (x : NodeMetrics F). x.total_send_mbps) f ∙ c.sent,
          ap (λ (x : NodeMetrics F). x.total_recv_mbps) f ∙ c.received,
          ap (λ (x : NodeMetrics F). x.connection_failures) f ∙ c.failures,
        )
