-- ===== src/Monitor/Pass/Consistent/Shown.antt =====
-- What holds of the published status, gauges and histograms after every pass, whatever fails.
use supercluster.Prelude.{
  ℕ, suc, ◌+◌, ◌≤◌, ◌≡◌, refl, ap, ◌∙◌, arith, List, [], ◌∷◌, ◌++◌, Option, none, some, ◌⊎◌, inr,
}
use supercluster.Prelude.Text.{Str, codes}
use supercluster.Prelude.Lists.{length, length-append}
use supercluster.Python.Number.{Number}
use supercluster.Python.Split.{split}
use supercluster.Monitor.Redis.{Redis}
use supercluster.Monitor.Redis.Keys.{metrics_key}
use supercluster.Monitor.World.{World, Reply, ok, raised, unfinished, call}
use supercluster.Monitor.Network.{Config, Network}
use supercluster.Monitor.Pass.{Status, read_status}
use supercluster.Monitor.Pass.Board.{Board, Clock, first_status, publish}
use supercluster.Monitor.Pass.Metrics.{
  rstrip, observe_full, observe_tx_apply, count_fields, count_parts, count_timing, count_timings,
  take_metrics, after_spop, after_status, pass,
}
use supercluster.Monitor.Pass.Consistent.{IsSound, Gives, read_status-IsSound}

module _ {F : Type 0} where
  -- The gauges show what the status says.
  abbrev pub Shown : Board F → Type 0
  Shown b =
      (b.gauges.remain ≡ b.status.queue_remain_count)
      × (b.gauges.succeeded ≡ b.status.queue_succeeded_count)
      × (b.gauges.failed ≡ b.status.queue_failed_count)
      × (b.gauges.in_progress ≡ b.status.queue_in_progress_count)
      × (b.gauges.up ≡ b.status.workers_up)
      × (b.gauges.down ≡ b.status.workers_down)
      × (b.gauges.refresh_duration ≡ b.workers_refresh_duration)
      × (b.gauges.mission_duration ≡ b.mission_duration)

  -- The status is the first one or a sound one, the gauges show it, and no more entries were
  -- observed than taken over, the tx_apply of none without its full duration.
  abbrev pub IsConsistent : Str → Board F → Type 0
  IsConsistent x b =
      ((b.status ≡ first_status) ⊎ IsSound x b.status)
      × Shown b
      × (length b.tx_apply_durations ≤ length b.full_durations)
      × (length b.full_durations ≤ length b.metrics)

  -- `b'` has at most `k` more full durations, and at most as many more of the others.
  abbrev Counted : ℕ → Board F → Board F → Type 0
  Counted k b b' =
      (b'.status ≡ b.status)
      × (b'.gauges ≡ b.gauges)
      × (b'.workers_refresh_duration ≡ b.workers_refresh_duration)
      × (b'.mission_duration ≡ b.mission_duration)
      × (b'.metrics ≡ b.metrics)
      × (length b'.full_durations ≤ length b.full_durations + k)
      × (length b'.tx_apply_durations + length b.full_durations
          ≤ length b.tx_apply_durations + length b'.full_durations)

  Counted-none : (k : ℕ) (b : Board F) → Counted k b b
  Counted-none k b = (refl, refl, refl, refl, refl, omega arith, omega arith)

  Counted-step :
      (m : ℕ) (b b1 b2 : Board F) → Counted 1 b b1 → Counted m b1 b2 → Counted (suc m) b b2
  Counted-step m b b1 b2 (s, g, r, d, ms, f, t) (s', g', r', d', ms', f', t') =
      (s' ∙ s, g' ∙ g, r' ∙ r, d' ∙ d, ms' ∙ ms, omega arith, omega arith)

module _ (n : Number) (float : Str → Option n.F) where
  observed-Counted :
      (full tx : Option n.F) (b : Board n.F)
      → Counted 1 b (elim full [
        | none ↦ b
        | some x ↦ elim tx [
          | none ↦ observe_full n float x b
          | some y ↦ observe_tx_apply n float (n.div y (n.of_nat 1000)) (observe_full n float x b)
        ]
      ])
  unfolding observe_full observe_tx_apply
  observed-Counted none tx b = Counted-none 1 b
  observed-Counted (some x) none b =
      let l = length-append b.full_durations (x ∷ []) in
      (refl, refl, refl, refl, refl, omega (arith, l), omega (arith, l))
  observed-Counted (some x) (some y) b =
      let l = length-append b.full_durations (x ∷ []) in
      let m = length-append b.tx_apply_durations (n.div y (n.of_nat 1000) ∷ []) in
      (refl, refl, refl, refl, refl, omega (arith, l), omega (arith, l, m))

  count_fields-Counted :
      (tx full : Str) (b : Board n.F) → Counted 1 b (count_fields n float tx full b)
  unfolding count_fields
  count_fields-Counted tx full b =
      observed-Counted (float (rstrip (codes "s") full)) (float (rstrip (codes "ms") tx)) b

  count_parts-Counted : (l : List Str) (b : Board n.F) → Counted 1 b (count_parts n float l b)
  unfolding count_parts
  count_parts-Counted [] b = Counted-none 1 b
  count_parts-Counted (_ ∷ []) b = Counted-none 1 b
  count_parts-Counted (_ ∷ _ ∷ []) b = Counted-none 1 b
  count_parts-Counted (_ ∷ _ ∷ _ ∷ []) b = Counted-none 1 b
  count_parts-Counted (_ ∷ _ ∷ tx ∷ full ∷ []) b = count_fields-Counted tx full b
  count_parts-Counted (_ ∷ _ ∷ _ ∷ _ ∷ _ ∷ _) b = Counted-none 1 b

  pub count_timings-Counted :
      (l : List Str) (b : Board n.F) → Counted (length l) b (count_timings n float l b)
  unfolding count_timings count_timing
  count_timings-Counted [] b = Counted-none 0 b
  count_timings-Counted (t ∷ ts) b =
      Counted-step (length ts) b (count_timing n float t b) _
        (count_parts-Counted (split (codes "|") t) b)
        (count_timings-Counted ts (count_timing n float t b))

  Counted-IsConsistent :
      (x : Str) (new : List Str) (b b' : Board n.F)
      → IsConsistent x b
      → Counted (length new) (record b { metrics = b.metrics ++ new }) b'
      → IsConsistent x b'
  Counted-IsConsistent x new b b' (h, g, t, f) (s, gs, r, d, ms, f', t') = (
    rw s h,
    rw (s, gs, r, d) g,
    omega arith,
    omega (arith, ap length ms, length-append b.metrics new),
  )

  take_metrics-IsConsistent :
      (x : Str) (new : List Str) (b : Board n.F)
      → IsConsistent x b
      → IsConsistent x (take_metrics n float new b)
  unfolding take_metrics
  take_metrics-IsConsistent x new b h =
      Counted-IsConsistent x new b _ h
        (count_timings-Counted new (record b { metrics = b.metrics ++ new }))

  module _ (x : Str) (r : Redis) (c : Config) (net : Network) where
    open r use {Db}

    after_spop-IsConsistent :
        (b : Board n.F) (y : Reply (List Str) × World Db)
        → IsConsistent x b
        → IsConsistent x (after_spop n float r c net b y).1.0
    after_spop-IsConsistent b (ok new, w) h = take_metrics-IsConsistent x new b h
    after_spop-IsConsistent b (raised, w) h = h
    after_spop-IsConsistent b (unfinished, w) h = h

    after_status-IsConsistent :
        (start : n.F) (clock : Clock n.F) (b : Board n.F) (y : Reply Status × World Db)
        → Gives (IsSound x) y
        → IsConsistent x b
        → IsConsistent x (after_status n float r c net start clock b y).1.0
    unfolding publish
    after_status-IsConsistent start clock b (ok s, w) g h =
        after_spop-IsConsistent (publish n start clock s b) (call r (r.spop metrics_key 1000) w)
          (inr g, (refl, refl, refl, refl, refl, refl, refl, refl), h.2, h.3)
    after_status-IsConsistent start clock b (raised, w) g h = h
    after_status-IsConsistent start clock b (unfinished, w) g h = h

    pub pass-IsConsistent :
        (start : n.F) (clock : Clock n.F) (fuel : ℕ) (b : Board n.F) (w : World Db)
        → IsConsistent x b
        → IsConsistent x (pass n float r c net start clock fuel b w).1.0
    unfolding pass
    pass-IsConsistent start clock fuel b w h =
        after_status-IsConsistent start clock b (read_status r c net fuel w)
          (read_status-IsSound x r c net fuel w) h
