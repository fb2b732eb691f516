-- ===== src/Bench/Aggregate/Totals.antt =====
-- The totals of the whole run: each is the sum of what the tests credit to the node.
use mathlib.Core.Path.{fun_ext, subst}
use mathlib.Core.List.{append-nil}
use supercluster.Prelude.{
  Bool, ◌≡◌, refl, ap, sym, ◌∙◌, List, [], ◌∷◌, ◌++◌, some, arith, inl, inr, Option-cases, of_some,
}
use supercluster.Prelude.Text.{Str}
use supercluster.Prelude.Dict.{Dict, lookup, has_key}
use supercluster.Python.Number.{Number}
use supercluster.Bench.Aggregate.{Tally, PairTest, run_test, run_tests, sum_from}
use supercluster.Bench.Aggregate.Credits.{
  sends, receipts, all_of, values_of, Credited, run_test_credits, has_key-run_test,
}

module _ (n : Number) where
  open n use {F, of_nat}

  values_of-append :
      (k : Str) (xs ys : List (Str × F))
      → values_of n k (xs ++ ys) ≡ values_of n k xs ++ values_of n k ys
  values_of-append k [] ys = refl
  values_of-append k ((j, x) ∷ xs) ys = ground (arith, values_of-append k xs ys)

  sum_from-append :
      (acc : F) (xs ys : List F) → sum_from n acc (xs ++ ys) ≡ sum_from n (sum_from n acc xs) ys
  unfolding sum_from
  sum_from-append acc [] ys = refl
  sum_from-append acc (x ∷ xs) ys = sum_from-append (n.add acc x) xs ys

  -- One more list of credits.
  credit-cons :
      (k : Str) (acc mid : F) (xs ys : List (Str × F))
      → mid ≡ sum_from n acc (values_of n k (xs ++ []))
      → sum_from n mid (values_of n k ys) ≡ sum_from n acc (values_of n k (xs ++ ys))
  credit-cons k acc mid xs ys e = rw (e, append-nil, values_of-append, sum_from-append)

  pub run_tests-cons :
      (t : PairTest F) (ts : List (PairTest F)) (d : Dict (Tally F)) {d' : Dict (Tally F)}
      → run_tests n (t ∷ ts) d ≡ some d'
      → (d1 : Dict (Tally F)) × (run_test n t d ≡ some d1) × (run_tests n ts d1 ≡ some d')
  unfolding run_tests
  run_tests-cons t ts d e = elim (Option-cases (run_test n t d)) [
    | inl q ↦ absurd (ground arith)
    | inr (d1, q) ↦ (d1, q, ground arith)
  ]

  pub has_key-run_tests :
      (ts : List (PairTest F)) (d : Dict (Tally F)) {d' : Dict (Tally F)}
      → run_tests n ts d ≡ some d'
      → (k : Str) → has_key k d' ≡ has_key k d
  unfolding run_tests
  has_key-run_tests [] d e k = ap (has_key k) (sym (of_some _ _ e))
  has_key-run_tests (t ∷ ts) d e k =
      let (d1, p, q) = run_tests-cons t ts d e in
      has_key-run_tests ts d1 q k ∙ has_key-run_test n t d k p

  -- After any tests, the totals of a node are those before and the credits of the tests.
  pub run_tests_credits :
      (ts : List (PairTest F)) (d : Dict (Tally F)) {d' : Dict (Tally F)} (k : Str) {m : Tally F}
      → run_tests n ts d ≡ some d'
      → lookup k d ≡ some m
      → (m' : Tally F) × (lookup k d' ≡ some m') × Credited n (λ p. has_key p d) ts k m m'
  unfolding run_tests sum_from
  run_tests_credits [] d k {m} e l = (
    m,
    ap (lookup k) (sym (of_some _ _ e)) ∙ l,
    record { sent = refl; received = refl; failures = refl; peers = refl },
  )
  run_tests_credits (t ∷ ts) d k {m} e l =
      let (d1, p, q) = run_tests-cons t ts d e in
      let (m1, l1, c1) = run_test_credits n t d k p l in
      let (m2, l2, c2) = run_tests_credits ts d1 k q l1 in
      let same : ◌≡◌ {A = Str → Bool} (λ j. has_key j d1) (λ j. has_key j d) =
        fun_ext (λ j. has_key-run_test n t d j p) in
      let c2' : Credited n (λ j. has_key j d) ts k m1 m2 =
        subst (λ known. Credited n known ts k m1 m2) same c2 in
      (
        m2,
        l2,
        record {
          sent =
              c2'.sent
              ∙ credit-cons k m.total_send_mbps m1.total_send_mbps (sends n (λ j. has_key j d) t)
                  (all_of n (sends n (λ j. has_key j d)) ts) c1.sent;
          received =
              c2'.received
              ∙ credit-cons k m.total_recv_mbps m1.total_recv_mbps (receipts n (λ j. has_key j d) t)
                  (all_of n (receipts n (λ j. has_key j d)) ts) c1.received;
          failures = c2'.failures ∙ c1.failures;
          peers = c2'.peers ∙ c1.peers;
        },
      )
