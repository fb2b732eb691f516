-- ===== src/Bench/Aggregate/Defs.antt =====
-- The metrics of a node, and what one test does to those of the two nodes.
use supercluster.Prelude.{
  ℕ, Bool, true, false, ◌&&◌, ◌||◌, List, [], ◌∷◌, ◌++◌, Option, none, some, if◌then◌else◌,
}
use supercluster.Prelude.Text.{Str}
use supercluster.Prelude.Dict.{Dict, has_key, update}
use supercluster.Python.Number.{Number, min_of, max_of}
use supercluster.Python.Json.{ok, raised, number}
use supercluster.Bench.Parse.{Iperf}

-- A value of `node_metrics` while the tests are counted: the mean times are still a list.
pub record Tally (F : Type 0) : Type 0 where
  pub total_send_mbps : F
  pub total_recv_mbps : F
  pub peer_count : ℕ
  pub min_rtt_ms : Option F
  pub mean_rtts_ms : List F
  pub max_rtt_ms : Option F
  pub total_retransmits : F
  pub connection_failures : ℕ

-- A test that is matched to a peer.
pub record PairTest (F : Type 0) : Type 0 where
  pub initiator : Str
  pub peer : Str
  pub result : Iperf F

module _ (n : Number) where
  open n use {F, of_nat, add, lt, eq}

  unfoldable pub fresh : Tally F
  fresh = record {
    total_send_mbps = of_nat 0;
    total_recv_mbps = of_nat 0;
    peer_count = 0;
    min_rtt_ms = none;
    mean_rtts_ms = [];
    max_rtt_ms = none;
    total_retransmits = of_nat 0;
    connection_failures = 0;
  }

  unfoldable pub add_send : F → Tally F → Tally F
  add_send x m = record m { total_send_mbps = add m.total_send_mbps x }

  unfoldable pub add_recv : F → Tally F → Tally F
  add_recv x m = record m { total_recv_mbps = add m.total_recv_mbps x }

  unfoldable pub add_retransmits : F → Tally F → Tally F
  add_retransmits x m = record m { total_retransmits = add m.total_retransmits x }

  -- One bound: the new value where there was none, else the smaller (the larger) of the two.
  unfoldable pub bound : (F → F → F) → Option F → Option F → Option F
  bound pick old none = old
  bound pick none (some x) = some x
  bound pick (some y) (some x) = some (pick y x)

  unfoldable pub push_mean : Option F → List F → List F
  push_mean none xs = xs
  push_mean (some x) xs = xs ++ x ∷ []

  unfoldable pub update_rtt_metrics : Iperf F → Tally F → Tally F
  unfolding bound push_mean min_of max_of
  update_rtt_metrics r m = record m {
    mean_rtts_ms = push_mean r.mean_rtt_ms m.mean_rtts_ms;
    min_rtt_ms = bound (min_of n) m.min_rtt_ms r.min_rtt_ms;
    max_rtt_ms = bound (max_of n) m.max_rtt_ms r.max_rtt_ms;
  }

  -- `result.get('reverse_recv_mbps', 0) or result.get('reverse_send_mbps', 0)`
  unfoldable pub reverse_throughput : Iperf F → F
  reverse_throughput r =
      if eq r.reverse_recv_mbps (of_nat 0) then r.reverse_send_mbps else r.reverse_recv_mbps

  -- `result['send_mbps'] > 0 or result['reverse_recv_mbps'] > 0 or result['mean_rtt_ms'] is not None`
  unfoldable pub has_data : Iperf F → Bool
  has_data r =
      lt (of_nat 0) r.send_mbps
      || (lt (of_nat 0) r.reverse_recv_mbps || elim r.mean_rtt_ms [ none ↦ false | some _ ↦ true ])

  -- Both directions of a test, without the retransmits.
  unfoldable pub count_test : PairTest F → Dict (Tally F) → Dict (Tally F)
  count_test t d =
      let forward = t.result.send_mbps in
      let reverse = reverse_throughput t.result in
      let d1 = update t.initiator (add_send forward) d in
      let d2 = update t.peer (add_recv forward) d1 in
      let d3 =
        if has_key t.peer d2 && lt (of_nat 0) reverse
        then update t.initiator (add_recv reverse) (update t.peer (add_send reverse) d2)
        else d2 in
      update t.peer (update_rtt_metrics t.result)
        (update t.initiator (update_rtt_metrics t.result) d3)

  -- The body of the loop over the matched results. `none` is an exception that nothing catches:
  -- an initiator without an entry, or retransmits that are no number.
  unfoldable pub run_test : PairTest F → Dict (Tally F) → Option (Dict (Tally F))
  run_test t d =
      if has_key t.initiator d
      then elim (number n t.result.retransmits) [
        | ok x ↦ some (update t.initiator (add_retransmits x) (count_test t d))
        | raised _ ↦ none
      ]
      else none
