-- ===== src/Bench/Report/Returns.antt =====
-- The divisions of `format_benchmark_results`.
use supercluster.Prelude.{
  ℕ, ◌≡◌, refl, arith, Bool, true, List, [], ◌∷◌, Option, none, some, map, ltb, ◌&&◌, if◌then◌else◌,
}
use supercluster.Prelude.Text.{Str}
use supercluster.Prelude.Lists.{select}
use supercluster.Python.Number.{Number}
use supercluster.Bench.Report.{
  NodeResult, no_data, figures, all_of, quotient, per_peer, is_valid, summary_with, summary,
  per_peer_pair, node_line,
}
use supercluster.Bench.Report.Page.{Printing, page, format_benchmark_results}

all_of-map :
    {A B : Type 0} (f : A → Option B)
    → ((a : A) → (b : B) × (f a ≡ some b))
    → (l : List A) → (bs : List B) × (all_of (map f l) ≡ some bs)
unfolding all_of
all_of-map f h [] = ([], refl)
all_of-map f h (a ∷ l) =
    let (b, e) = h a in let (bs, q) = all_of-map f h l in (b ∷ bs, rw (e, q) refl)

module _ (n : Number) where
  open n use {F, of_nat, div, lt}

  -- A quotient by a positive number does not raise.
  pub quotient-some : (x : F) (k : ℕ) → ltb 0 k ≡ true → quotient n x k ≡ some (div x (of_nat k))
  unfolding quotient
  quotient-some x k h = ground arith

  abbrev quotients : (NodeResult F → F) → List (NodeResult F) → List F
  quotients value l =
      map (λ r. div (value r) (of_nat r.peer_count)) (select (λ r. ltb 0 r.peer_count) l)

  -- The values per peer are taken for the results with a peer, so that no division is by 0.
  pub per_peer-some :
      (value : NodeResult F → F) (l : List (NodeResult F))
      → per_peer n value l ≡ some (quotients value l)
  unfolding per_peer all_of select
  per_peer-some value [] = refl
  per_peer-some value (r ∷ l) =
      ground (arith, per_peer-some value l, quotient-some (value r) r.peer_count)

  pub summary-some :
      (results : List (NodeResult F))
      → (sends recvs : List F) × (summary n results ≡ some (summary_with n sends recvs results))
  unfolding summary
  summary-some results =
      let valid = select (is_valid n) results in
      let sends = per_peer-some (λ r. r.total_send_mbps) valid in
      let recvs = per_peer-some (λ r. r.total_recv_mbps) valid in
      (
        quotients (λ r. r.total_send_mbps) valid,
        quotients (λ r. r.total_recv_mbps) valid,
        ground (arith, sends, recvs),
      )

  per_peer_pair-some :
      (r : NodeResult F)
      → per_peer_pair n r
        ≡ some (
            if ltb 0 r.peer_count && is_valid n r
            then some (
              div r.total_send_mbps (of_nat r.peer_count),
              div r.total_recv_mbps (of_nat r.peer_count),
            )
            else none)
  unfolding per_peer_pair
  per_peer_pair-some r = ground (
    arith,
    quotient-some r.total_send_mbps r.peer_count,
    quotient-some r.total_recv_mbps r.peer_count,
  )

  pub node_line-some :
      (r : NodeResult F)
      → node_line n r
        ≡ some (
            if lt r.total_send_mbps (of_nat 0) && lt r.total_recv_mbps (of_nat 0)
            then no_data r.node_name
            else figures r.node_name r.total_send_mbps r.total_recv_mbps
                (if ltb 0 r.peer_count && is_valid n r
                  then some (
                    div r.total_send_mbps (of_nat r.peer_count),
                    div r.total_recv_mbps (of_nat r.peer_count),
                  )
                  else none)
                r.mean_rtt_ms
                r.total_retransmits)
  unfolding node_line
  node_line-some r = ground (arith, per_peer_pair-some r)

  -- Whatever the results, `format_benchmark_results` returns a text: it does not divide by 0.
  pub format_benchmark_results-returns :
      (p : Printing F) (timestamp : Str) (results : List (NodeResult F)) (test_id : Str)
      (network_delay_enabled : Bool) (duration_seconds : Option ℕ)
      → (text : Str) × (format_benchmark_results n p timestamp results test_id network_delay_enabled
            duration_seconds
          ≡ some text)
  unfolding format_benchmark_results
  format_benchmark_results-returns p timestamp results test_id network_delay_enabled
        duration_seconds =
      let (sends, recvs, e) = summary-some results in
      let (lines, q) = all_of-map (node_line n) (λ r. (_, node_line-some r)) results in
      (
        page p (summary_with n sends recvs results) lines timestamp test_id network_delay_enabled
            duration_seconds,
        ground (arith, e, q),
      )
