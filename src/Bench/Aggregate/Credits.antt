-- ===== src/Bench/Aggregate/Credits.antt =====
-- What the tests credit to the nodes, and what the totals are made of.
use supercluster.Prelude.{
  Bool, true, false, ◌&&◌, ◌≡◌, List, [], ◌∷◌, ◌++◌, some, arith, if◌then◌else◌, Bool-cases, inl,
  inr,
}
use supercluster.Prelude.Text.{Str, str_eq, str_eq_iff}
use supercluster.Prelude.Dict.{
  Dict, lookup, has_key, has_key_of_lookup, update, at, lookup-update-some, has_key-update,
}
use supercluster.Python.Number.{Number}
use supercluster.Python.Json.{ok, number, Result-cases}
use supercluster.Bench.Aggregate.{
  Tally, PairTest, add_send, add_recv, add_retransmits, update_rtt_metrics, reverse_throughput,
  count_test, run_test, sum_from,
}

module _ (n : Number) where
  open n use {F, of_nat, add, lt}

  -- The reverse direction counts where the peer is a node of the run and something was measured.
  abbrev pub counts_reverse : (Str → Bool) → PairTest F → Bool
  counts_reverse known t = known t.peer && lt (of_nat 0) (reverse_throughput n t.result)

  -- The sends that one test credits: forward to the initiator, reverse to the peer.
  abbrev pub sends : (Str → Bool) → PairTest F → List (Str × F)
  sends known t =
      (t.initiator, t.result.send_mbps)
      ∷ (if counts_reverse known t then (t.peer, reverse_throughput n t.result) ∷ [] else [])

  -- The receipts that one test credits: forward to the peer, reverse to the initiator.
  abbrev pub receipts : (Str → Bool) → PairTest F → List (Str × F)
  receipts known t =
      (if known t.peer then (t.peer, t.result.send_mbps) ∷ [] else [])
      ++ (if counts_reverse known t then (t.initiator, reverse_throughput n t.result) ∷ [] else [])

  abbrev pub all_of : (PairTest F → List (Str × F)) → List (PairTest F) → List (Str × F)
  all_of f [] = []
  all_of f (t ∷ ts) = f t ++ all_of f ts

  -- The values credited to one node, in order.
  abbrev pub values_of : Str → List (Str × F) → List F
  values_of k [] = []
  values_of k ((j, x) ∷ l) = let rest = values_of k l in if str_eq k j then x ∷ rest else rest

  has_key-count_test :
      (t : PairTest F) (d : Dict (Tally F)) (k : Str) → has_key k (count_test n t d) ≡ has_key k d
  unfolding count_test
  has_key-count_test t d k =
      elim (Bool-cases (
        has_key t.peer (
          update t.peer (add_recv n t.result.send_mbps)
            (update t.initiator (add_send n t.result.send_mbps) d))
        && lt (of_nat 0) (reverse_throughput n t.result))) [
          | inl e ↦ rw e (simp has_key-update)
          | inr e ↦ rw e (simp has_key-update)
        ]

  -- The totals of a node after some tests, from those before.
  pub record Credited (known : Str → Bool) (ts : List (PairTest F)) (k : Str) (m m' : Tally F)
      : Type 0 where
    pub sent :
        m'.total_send_mbps ≡ sum_from n m.total_send_mbps (values_of k (all_of (sends known) ts))
    pub received :
        m'.total_recv_mbps ≡ sum_from n m.total_recv_mbps (values_of k (all_of (receipts known) ts))
    pub failures : m'.connection_failures ≡ m.connection_failures
    pub peers : m'.peer_count ≡ m.peer_count

  -- The metrics of the node `k` after a test.
  abbrev forward : PairTest F → Str → Tally F → Tally F
  forward t k m =
      at k t.peer (add_recv n t.result.send_mbps)
        (at k t.initiator (add_send n t.result.send_mbps) m)

  abbrev both : Bool → PairTest F → Str → Tally F → Tally F
  both false t k m = forward t k m
  both true t k m =
      at k t.initiator (add_recv n (reverse_throughput n t.result))
        (at k t.peer (add_send n (reverse_throughput n t.result)) (forward t k m))

  abbrev after : Bool → PairTest F → Str → Tally F → Tally F
  after b t k m =
      at k t.peer (update_rtt_metrics n t.result)
        (at k t.initiator (update_rtt_metrics n t.result) (both b t k m))

  lookup-count_test :
      (t : PairTest F) (d : Dict (Tally F)) (k : Str) {m : Tally F}
      → lookup k d ≡ some m
      → lookup k (count_test n t d) ≡ some (after (counts_reverse (λ p. has_key p d) t) t k m)
  unfolding count_test
  lookup-count_test t d k {m} l = simp has_key-update (go (counts_reverse (λ p. has_key p d) t))
    where
      base :
          lookup k (
            update t.peer
              (add_recv n t.result.send_mbps)
              (update t.initiator (add_send n t.result.send_mbps) d))
          ≡ some (forward t k m)
      base = lookup-update-some k _ _ _ (lookup-update-some k _ _ d l)

      go :
          (b : Bool)
          → lookup k (
              update t.peer (update_rtt_metrics n t.result) (
                update t.initiator (update_rtt_metrics n t.result) (
                  if b
                  then update t.initiator (add_recv n (reverse_throughput n t.result)) (
                      update t.peer (add_send n (reverse_throughput n t.result)) (
                        update t.peer
                          (add_recv n t.result.send_mbps)
                          (update t.initiator (add_send n t.result.send_mbps) d)))
                  else (update t.peer
                      (add_recv n t.result.send_mbps)
                      (update t.initiator (add_send n t.result.send_mbps) d)))))
            ≡ some (after b t k m)
      go false = lookup-update-some k _ _ _ (lookup-update-some k _ _ _ base)
      go true = lookup-update-some k _ _ _ (
          lookup-update-some k _ _ _ (lookup-update-some k _ _ _ (lookup-update-some k _ _ _ base)))

  after-Credited :
      (known : Str → Bool) (t : PairTest F) (k : Str) (m : Tally F) (x : F)
      → known k ≡ true
      → Credited known
          (t ∷ [])
          k
          m
          (at k t.initiator (add_retransmits n x) (after (counts_reverse known t) t k m))
  unfolding add_send add_recv add_retransmits update_rtt_metrics sum_from
  after-Credited known t k m x here = record {
    sent = ground arith;
    received = ground (arith, str_eq_iff k t.peer);
    failures = ground arith;
    peers = ground arith;
  }

  -- A test that is counted has a known initiator and a number of retransmits.
  pub run_test_inv :
      (t : PairTest F) (d : Dict (Tally F)) {d' : Dict (Tally F)}
      → run_test n t d ≡ some d'
      → (x : F) × (has_key t.initiator d ≡ true)
        × (number n t.result.retransmits ≡ ok x)
        × (d' ≡ update t.initiator (add_retransmits n x) (count_test n t d))
  unfolding run_test
  run_test_inv t d e = elim (Result-cases (number n t.result.retransmits)) [
    | inl (x, r) ↦ (x, ground arith, r, ground arith)
    | inr (c, r) ↦ absurd (ground arith)
  ]

  pub has_key-run_test :
      (t : PairTest F) (d : Dict (Tally F)) {d' : Dict (Tally F)} (k : Str)
      → run_test n t d ≡ some d'
      → has_key k d' ≡ has_key k d
  has_key-run_test t d k e =
      let (x, _, _, q) = run_test_inv t d e in rw (q, has_key-update) (has_key-count_test t d k)

  pub run_test_credits :
      (t : PairTest F) (d : Dict (Tally F)) {d' : Dict (Tally F)} (k : Str) {m : Tally F}
      → run_test n t d ≡ some d'
      → lookup k d ≡ some m
      → (m' : Tally F) × (lookup k d' ≡ some m') × Credited (λ p. has_key p d) (t ∷ []) k m m'
  run_test_credits t d k {m} e l =
      let (x, _, _, q) = run_test_inv t d e in
      let known : Str → Bool = λ p. has_key p d in
      let m' = at k t.initiator (add_retransmits n x) (after (counts_reverse known t) t k m) in
      let l' : lookup k _ ≡ some m' =
        rw q
          (lookup-update-some k t.initiator (add_retransmits n x) _ (lookup-count_test t d k l)) in
      (m', l', after-Credited known t k m x (has_key_of_lookup k d l))
