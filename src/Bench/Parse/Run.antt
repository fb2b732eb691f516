-- ===== src/Bench/Parse/Run.antt =====
-- The body of `parse_iperf3_json`: it fills the result step by step, and an exception keeps what
-- has been filled.
use supercluster.Prelude.{Bool, false, ◌&&◌, List, [], ◌∷◌, Option, none, some, if◌then◌else◌}
use supercluster.Prelude.Text.{Str, codes}
use supercluster.Python.Number.{Number, min?, max?, mean?}
use supercluster.Python.Json.{
  Json, num, arr, nil, Result, ok, raised, has, item, get, iterate, truthy, number, has_truthy,
}
use supercluster.Bench.Parse.Defs.{
  reported, bad_json, unexpected, Iperf, mega, scan, extract_rtt_from_streams,
}

-- A statement: it may change the result, and it may raise.
abbrev pub Action : Type 0 → Type 0 → Type 0
Action F A = Iperf F → Result A × Iperf F

module _ {F A : Type 0} where
  abbrev pub pure : A → Action F A
  pure a r = (ok a, r)

  abbrev pub lift : Result A → Action F A
  lift m r = (m, r)

module _ {F : Type 0} where
  infixl 5 ◌>>=◌ ◌>>◌
  abbrev pub ◌>>=◌ : {A B : Type 0} → Action F A → (A → Action F B) → Action F B
  ◌>>=◌ m f r = let (a, r') = m r in elim a [ ok x ↦ f x r' | raised e ↦ (raised e, r') ]

  abbrev pub ◌>>◌ : {B : Type 0} → Action F (Unit {0}) → Action F B → Action F B
  m >> k = m >>= λ _. k

  abbrev pub modify : (Iperf F → Iperf F) → Action F (Unit {0})
  modify f r = (ok tt, f r)

  -- `if b: m`
  abbrev pub when : Bool → Action F (Unit {0}) → Action F (Unit {0})
  when b m = if b then m else pure tt

module _ (n : Number) where
  open n use {F, of_nat, eq}

  -- `if k in v: store v[k] / 1_000_000`
  unfoldable pub rate : Json F → (F → Iperf F → Iperf F) → Action F (Unit {0})
  unfolding has item number mega
  rate v store = do
    there ← lift (has (codes "bits_per_second") v)
    when there (do
      b ← lift (item (codes "bits_per_second") v)
      x ← lift (number n b)
      modify (store (mega n x)))

  unfoldable pub set_send : F → Iperf F → Iperf F
  set_send x r = record r { send_mbps = x }

  unfoldable pub set_recv : F → Iperf F → Iperf F
  set_recv x r = record r { recv_mbps = x }

  unfoldable pub set_reverse_send : F → Iperf F → Iperf F
  set_reverse_send x r = record r { reverse_send_mbps = x }

  unfoldable pub set_reverse_recv : F → Iperf F → Iperf F
  set_reverse_recv x r = record r { reverse_recv_mbps = x }

  -- `if k in v and v[k]: body of v[k]`
  unfoldable pub section : Json F → Str → (Json F → Action F (Unit {0})) → Action F (Unit {0})
  unfolding has_truthy item
  section v k body = do there ← lift (has_truthy n k v); when there (do x ← lift (item k v); body x)

  -- `if 'retransmits' in v: result['retransmits'] = v['retransmits']`
  unfoldable pub retransmits : Json F → Action F (Unit {0})
  unfolding has item
  retransmits v = do
    there ← lift (has (codes "retransmits") v)
    when there
        (do x ← lift (item (codes "retransmits") v); modify (λ r. record r { retransmits = x }))

  -- The same from an interval, where the source reads the value by `get`.
  unfoldable pub interval_retransmits : Json F → Action F (Unit {0})
  unfolding has get
  interval_retransmits v = do
    there ← lift (has (codes "retransmits") v)
    when there (do
      x ← lift (get (codes "retransmits") (num (of_nat 0)) v)
      modify (λ r. record r { retransmits = x }))

  -- The throughput of the last interval that has one.
  unfoldable pub interval_rates : Json F → Action F (Unit {0})
  unfolding section rate interval_retransmits set_send set_reverse_recv
  interval_rates v = do
    section v (codes "sum") (λ s. rate s set_send >> interval_retransmits s)
    section v (codes "sum_bidir_reverse") (λ s. rate s set_reverse_recv)

  -- `if last_throughput_interval:`
  unfoldable pub last_rates : Option (Json F) → Action F (Unit {0})
  unfolding truthy interval_rates
  last_rates none = pure tt
  last_rates (some v) = when (truthy n v) (interval_rates v)

  -- `if all_rtt_values:`
  unfoldable pub set_rtts : List F → Iperf F → Iperf F
  unfolding mean? min? max?
  set_rtts [] r = r
  set_rtts (x ∷ xs) r = record r {
    mean_rtt_ms = mean? n (x ∷ xs);
    min_rtt_ms = min? n (x ∷ xs);
    max_rtt_ms = max? n (x ∷ xs);
  }

  unfoldable pub from_intervals : Json F → Action F (Unit {0})
  unfolding iterate scan last_rates set_rtts
  from_intervals intervals = do
    l ← lift (iterate intervals)
    found ← lift (scan n l [] none)
    last_rates found.1
    modify (set_rtts found.0)

  -- The branch of a report with an error; it tells whether the function returns there.
  unfoldable pub partial : Json F → Action F Bool
  unfolding item section from_intervals
  partial v = do
    e ← lift (item (codes "error") v)
    modify (λ r. record r { error = some (reported e) })
    section v (codes "intervals") from_intervals
    λ r. (ok (eq r.send_mbps (of_nat 0) && eq r.reverse_recv_mbps (of_nat 0)), r)

  -- `if result['mean_rtt_ms'] is None:` the times come from the streams.
  unfoldable pub end_rtts : Json F → Option F → Action F (Unit {0})
  unfolding get extract_rtt_from_streams
  end_rtts e (some _) = pure tt
  end_rtts e none = do
    streams ← lift (get (codes "streams") (arr nil) e)
    s ← lift (extract_rtt_from_streams n streams)
    modify (λ r. record r { min_rtt_ms = s.min_ms; mean_rtt_ms = s.mean_ms; max_rtt_ms = s.max_ms })

  -- The `end` section.
  unfoldable pub from_end : Json F → Action F (Unit {0})
  unfolding section rate retransmits end_rtts set_send set_recv set_reverse_send set_reverse_recv
  from_end e = do
    section e (codes "sum_sent") (λ s. rate s set_send >> retransmits s)
    section e (codes "sum_received") (λ s. rate s set_recv)
    section e (codes "sum_sent_bidir_reverse") (λ s. rate s set_reverse_send)
    section e (codes "sum_received_bidir_reverse") (λ s. rate s set_reverse_recv)
    λ r. end_rtts e r.mean_rtt_ms r

  unfoldable pub fill : Json F → Action F (Unit {0})
  unfolding has item has_truthy partial from_end
  fill v = do
    failed ← lift (has_truthy n (codes "error") v)
    returns ← if failed then partial v else pure false
    there ← if returns then pure false else lift (has (codes "end") v)
    when there (do e ← lift (item (codes "end") v); from_end e)

  unfoldable pub blank : Iperf F
  blank = record {
    send_mbps = of_nat 0;
    recv_mbps = of_nat 0;
    retransmits = num (of_nat 0);
    min_rtt_ms = none;
    mean_rtt_ms = none;
    max_rtt_ms = none;
    reverse_send_mbps = of_nat 0;
    reverse_recv_mbps = of_nat 0;
    error = none;
  }

  -- The handler `except Exception`.
  unfoldable pub caught : Result (Unit {0}) × Iperf F → Iperf F
  caught (ok _, r) = r
  caught (raised e, r) = record r { error = some (unexpected e) }

  -- `loads` is `json.loads`; without a value it has raised `JSONDecodeError`.
  unfoldable pub parse_iperf3_json : (Str → Option (Json F)) → Str → Iperf F
  unfolding blank caught fill
  parse_iperf3_json loads json_str = elim (loads json_str) [
    | none ↦ record blank { error = some bad_json }
    | some v ↦ caught (fill v blank)
  ]
