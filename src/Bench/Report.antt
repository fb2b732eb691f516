-- ===== src/Bench/Report.antt =====
-- The conversion to results in `main` and the figures of `format_benchmark_results` of
-- src/scripts/parse_benchmark_results.py. The text around the figures is left out.
pub mod Page
pub mod Returns
pub mod Laws
mod Tests
use supercluster.Prelude.{
  ℕ, zero, suc, ◌+◌, Bool, true, false, ◌&&◌, ◌||◌, List, [], ◌∷◌, Option, none, some, map, ltb,
  if◌then◌else◌,
}
use supercluster.Prelude.Text.{Str}
use supercluster.Prelude.Lists.{length, select}
use supercluster.Prelude.Dict.{Dict}
use supercluster.Python.Number.{Number, min?, max?, mean?}
use supercluster.Bench.Aggregate.{NodeMetrics}

pub record NodeResult (F : Type 0) : Type 0 where
  pub node_name : Str
  pub peer_count : ℕ
  pub total_send_mbps : F
  pub total_recv_mbps : F
  pub total_retransmits : F
  pub min_rtt_ms : Option F
  pub mean_rtt_ms : Option F
  pub max_rtt_ms : Option F
  pub connection_failures : ℕ

-- The figures of the head of the report.
pub record Summary (F : Type 0) : Type 0 where
  pub total_nodes : ℕ
  pub total_connections : ℕ
  pub avg_peers : F
  pub avg_send_total : F
  pub avg_recv_total : F
  pub avg_send_per_peer : F
  pub avg_recv_per_peer : F
  pub overall_min_rtt : F
  pub overall_mean_rtt : F
  pub overall_max_rtt : F
  pub total_failures : ℕ

-- The line of a node: its name alone, for "N/A", or its two totals, the same per peer, its mean
-- round-trip time and its retransmits.
pub data NodeLine (F : Type 0) : Type 0 where
  no_data : Str → NodeLine F
  figures : Str → F → F → Option (F × F) → Option F → F → NodeLine F

-- The values that are not None.
unfoldable pub present {ℓ} : {A : Type ℓ} → List (Option A) → List A
present [] = []
present (none ∷ l) = present l
present (some x ∷ l) = x ∷ present l

-- The values, if none of them has raised.
unfoldable pub all_of {ℓ} : {A : Type ℓ} → List (Option A) → Option (List A)
all_of [] = some []
all_of (none ∷ l) = none
all_of (some x ∷ l) = elim (all_of l) [ none ↦ none | some xs ↦ some (x ∷ xs) ]

unfoldable pub total : List ℕ → ℕ
total [] = 0
total (x ∷ l) = x + total l

module _ (n : Number) where
  open n use {F, of_nat, minus_one, lt, div}

  -- `x if x > 0 else -1`
  unfoldable pub shown : F → F
  shown x = if lt (of_nat 0) x then x else minus_one

  unfoldable pub to_result : Str × NodeMetrics F → NodeResult F
  unfolding shown
  to_result (name, m) = record {
    node_name = name;
    peer_count = m.peer_count;
    total_send_mbps = shown m.total_send_mbps;
    total_recv_mbps = shown m.total_recv_mbps;
    total_retransmits = m.total_retransmits;
    min_rtt_ms = m.min_rtt_ms;
    mean_rtt_ms = m.mean_rtt_ms;
    max_rtt_ms = m.max_rtt_ms;
    connection_failures = m.connection_failures;
  }

  -- The test of `valid_results`
  unfoldable pub is_valid : NodeResult F → Bool
  is_valid r = lt (of_nat 0) r.total_send_mbps || lt (of_nat 0) r.total_recv_mbps

  -- A value, or 0 where there is none.
  unfoldable pub or_zero : Option F → F
  or_zero none = of_nat 0
  or_zero (some x) = x

  -- `x / k`, which raises ZeroDivisionError for 0.
  unfoldable pub quotient : F → ℕ → Option F
  quotient x zero = none
  quotient x (suc k) = some (div x (of_nat (suc k)))

  -- The values per peer, of the results with a peer.
  unfoldable pub per_peer : (NodeResult F → F) → List (NodeResult F) → Option (List F)
  unfolding quotient all_of
  per_peer value l =
      all_of (map (λ r. quotient (value r) r.peer_count) (select (λ r. ltb 0 r.peer_count) l))

  -- The figures of the head, from the values per peer. Without valid results the averages are 0.
  unfoldable pub summary_with : List F → List F → List (NodeResult F) → Summary F
  unfolding is_valid or_zero total present min? max? mean?
  summary_with per_peer_sends per_peer_recvs results =
      let valid = select is_valid results in
      record {
        total_nodes = length results;
        total_connections = total (map (λ r. r.peer_count) results);
        avg_peers = or_zero (mean? n (map (λ r. of_nat r.peer_count) results));
        avg_send_total = or_zero (mean? n (map (λ r. r.total_send_mbps) valid));
        avg_recv_total = or_zero (mean? n (map (λ r. r.total_recv_mbps) valid));
        avg_send_per_peer = or_zero (mean? n per_peer_sends);
        avg_recv_per_peer = or_zero (mean? n per_peer_recvs);
        overall_min_rtt = or_zero (min? n (present (map (λ r. r.min_rtt_ms) valid)));
        overall_mean_rtt = or_zero (mean? n (present (map (λ r. r.mean_rtt_ms) valid)));
        overall_max_rtt = or_zero (max? n (present (map (λ r. r.max_rtt_ms) valid)));
        total_failures = total (map (λ r. r.connection_failures) results);
      }

  -- The same, where none is an exception.
  unfoldable pub summary : List (NodeResult F) → Option (Summary F)
  unfolding summary_with per_peer
  summary results = elim (per_peer (λ r. r.total_send_mbps) (select is_valid results)) [
    | none ↦ none
    | some per_peer_sends ↦ elim (per_peer (λ r. r.total_recv_mbps) (select is_valid results)) [
      | none ↦ none
      | some per_peer_recvs ↦ some (summary_with per_peer_sends per_peer_recvs results)
    ]
  ]

  -- The totals of a node per peer, for a node that has sent or received something and has a peer.
  unfoldable pub per_peer_pair : NodeResult F → Option (Option (F × F))
  unfolding is_valid quotient
  per_peer_pair r =
      if ltb 0 r.peer_count && is_valid r
      then elim (quotient r.total_send_mbps r.peer_count) [
        | none ↦ none
        | some send ↦ elim (quotient r.total_recv_mbps r.peer_count) [
          | none ↦ none
          | some recv ↦ some (some (send, recv))
        ]
      ]
      else some none

  -- An item of `node_lines`; none is an exception.
  unfoldable pub node_line : NodeResult F → Option (NodeLine F)
  unfolding per_peer_pair
  node_line r =
      if lt r.total_send_mbps (of_nat 0) && lt r.total_recv_mbps (of_nat 0)
      then some (no_data r.node_name)
      else elim (per_peer_pair r) [
        | none ↦ none
        | some pair ↦ some (
            figures r.node_name r.total_send_mbps r.total_recv_mbps pair r.mean_rtt_ms
              r.total_retransmits)
      ]

  -- `results` of `main`, from the metrics of the nodes.
  unfoldable pub results_of : Dict (NodeMetrics F) → List (NodeResult F)
  results_of d = map to_result d
