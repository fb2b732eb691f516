-- ===== src/Bench/Parse/Defs.antt =====
-- The result dict, and the round-trip times of a report.
use supercluster.Prelude.{false, List, [], ◌∷◌, ◌++◌, Option, some, if◌then◌else◌}
use supercluster.Prelude.Text.{Str, codes}
use supercluster.Python.Number.{Number, min?, max?, mean?}
use supercluster.Python.Json.{
  Json, bool, Exception, Result, ok, ◌>>=◌, has, item, get, iterate, is_some, truthy, number,
  has_truthy,
}

-- What stands under `'error'`: the report's own value, or the text of an exception.
pub data Failure (F : Type 0) : Type 0 where
  reported : Json F → Failure F
  bad_json : Failure F
  unexpected : Exception → Failure F

-- The dict `result`. `retransmits` holds whatever value the report has there.
pub record Iperf (F : Type 0) : Type 0 where
  pub send_mbps : F
  pub recv_mbps : F
  pub retransmits : Json F
  pub min_rtt_ms : Option F
  pub mean_rtt_ms : Option F
  pub max_rtt_ms : Option F
  pub reverse_send_mbps : F
  pub reverse_recv_mbps : F
  pub error : Option (Failure F)

-- The dict `rtt_stats`.
pub record RttStats (F : Type 0) : Type 0 where
  pub min_ms : Option F
  pub mean_ms : Option F
  pub max_ms : Option F

-- The dict `rtts`, three lists of samples.
pub record Samples (F : Type 0) : Type 0 where
  pub mins : List F
  pub means : List F
  pub maxs : List F

module _ (n : Number) where
  open n use {F, of_nat, div}

  -- `x / 1000.0`
  unfoldable pub thousandth : F → F
  thousandth x = div x (of_nat 1000)

  -- `x / 1_000_000`
  unfoldable pub mega : F → F
  mega x = div x (of_nat 1_000_000)

  -- `if k in sender and sender[k] is not None: rtts.append(sender[k] / 1000.0)`
  unfoldable pub sample : Str → Json F → List F → Result (List F)
  unfolding has item is_some number thousandth
  sample k sender xs = has k sender >>= λ there.
      if there
      then (item k sender >>= λ v.
          if is_some v then (number n v >>= λ x. ok (xs ++ thousandth x ∷ [])) else ok xs)
      else ok xs

  unfoldable pub add_sender : Json F → Samples F → Result (Samples F)
  unfolding sample
  add_sender sender r = do
    mins ← sample (codes "min_rtt") sender r.mins
    means ← sample (codes "mean_rtt") sender r.means
    maxs ← sample (codes "max_rtt") sender r.maxs
    ok (record { mins = mins; means = means; maxs = maxs })

  -- The body of the loop over the streams.
  unfoldable pub add_stream : Json F → Samples F → Result (Samples F)
  unfolding add_sender has_truthy item
  add_stream stream r = has_truthy n (codes "sender") stream >>= λ there.
      if there then (item (codes "sender") stream >>= λ sender. add_sender sender r) else ok r

  unfoldable pub add_streams : List (Json F) → Samples F → Result (Samples F)
  unfolding add_stream
  add_streams [] r = ok r
  add_streams (stream ∷ rest) r = do r' ← add_stream stream r; add_streams rest r'

  -- Min of mins, mean of means, max of maxs.
  unfoldable pub rtt_stats : Samples F → RttStats F
  unfolding min? mean? max?
  rtt_stats r = record { min_ms = min? n r.mins; mean_ms = mean? n r.means; max_ms = max? n r.maxs }

  unfoldable pub extract_rtt_from_streams : Json F → Result (RttStats F)
  unfolding iterate add_streams rtt_stats
  extract_rtt_from_streams streams = do
    l ← iterate streams
    r ← add_streams l (record { mins = []; means = []; maxs = [] })
    ok (rtt_stats r)

  -- The body of the loop over the streams of an interval.
  unfoldable pub add_rtt : Json F → List F → Result (List F)
  unfolding has_truthy get truthy item number thousandth
  add_rtt stream rtts = has_truthy n (codes "rtt") stream >>= λ timed.
      (if timed then get (codes "sender") (bool false) stream else ok (bool false)) >>= λ sends.
      if truthy n sends
      then (do v ← item (codes "rtt") stream; x ← number n v; ok (rtts ++ thousandth x ∷ []))
      else ok rtts

  unfoldable pub collect : List (Json F) → List F → Result (List F)
  unfolding add_rtt
  collect [] rtts = ok rtts
  collect (stream ∷ rest) rtts = do rtts' ← add_rtt stream rtts; collect rest rtts'

  -- The times of an interval, after those of the ones before it.
  unfoldable pub interval_rtts : Json F → List F → Result (List F)
  unfolding has item iterate collect
  interval_rtts interval rtts = has (codes "streams") interval >>= λ streamed.
      if streamed
      then (do v ← item (codes "streams") interval; l ← iterate v; collect l rtts)
      else ok rtts

  -- The loop over the intervals: all times, and the last interval with a throughput.
  unfoldable pub scan : List (Json F) → List F → Option (Json F) → Result (List F × Option (Json F))
  unfolding interval_rtts has_truthy
  scan [] rtts last = ok (rtts, last)
  scan (interval ∷ rest) rtts last = do
    rtts' ← interval_rtts interval rtts
    summed ← has_truthy n (codes "sum") interval
    scan rest rtts' (if summed then some interval else last)
