-- ===== src/Monitor/Pass/Metrics/Entry.antt =====
-- What one entry `<job>|<pod>|<tx_apply>|<full_duration>` adds to the histograms.
use supercluster.Prelude.{
  ◌≡◌, refl, ap, ◌∙◌, arith, Bool, false, ◌||◌, ◌==◌, List, [], ◌∷◌, ◌++◌, Option, none, some,
}
use mathlib.Core.List.{append-nil}
use supercluster.Prelude.Text.{Str, codes, starts_with}
use supercluster.Python.Split.{split, split_from}
use supercluster.Python.Number.{Number}
use supercluster.Monitor.Pass.Board.{Board}
use supercluster.Monitor.Pass.Metrics.{
  rstrip, observe_full, observe_tx_apply, count_fields, count_parts, count_timing,
}

unfoldable pub has_bar : Str → Bool
has_bar [] = false
has_bar (c ∷ s) = c == b'|' || has_bar s

split_first :
    (a s : Str)
    → has_bar a ≡ false
    → split_from (codes "|") 0 (a ++ b'|' ∷ s) ≡ a ∷ split_from (codes "|") 0 s
unfolding has_bar split_from starts_with
split_first [] s h = refl
split_first (c ∷ a) s h = ground (arith, split_first a s)

split_last : (a : Str) → has_bar a ≡ false → split_from (codes "|") 0 a ≡ a ∷ []
unfolding has_bar split_from starts_with
split_last [] h = refl
split_last (c ∷ a) h = ground (arith, split_last a)

-- Four fields with bars between them.
abbrev pub entry : Str → Str → Str → Str → Str
entry job pod tx_apply full = job ++ b'|' ∷ (pod ++ b'|' ∷ (tx_apply ++ b'|' ∷ full))

split-entry :
    (job pod tx_apply full : Str)
    → has_bar job ≡ false
    → has_bar pod ≡ false
    → has_bar tx_apply ≡ false
    → has_bar full ≡ false
    → split (codes "|") (entry job pod tx_apply full) ≡ job ∷ pod ∷ tx_apply ∷ full ∷ []
unfolding split
split-entry job pod tx_apply full hj hp ht hf =
    split_first job _ hj
    ∙ ap (◌∷◌ job) (
        split_first pod _ hp
        ∙ ap (◌∷◌ pod) (split_first tx_apply full ht ∙ ap (◌∷◌ tx_apply) (split_last full hf)))

-- What a field adds to the values observed, if it is a number.
abbrev pub observed {ℓ} : {A : Type ℓ} → Option A → List A
observed none = []
observed (some x) = x ∷ []

module _ (n : Number) (float : Str → Option n.F) where
  open n use {F, of_nat, div}

  -- The full duration in seconds.
  abbrev pub full_seconds : Str → Option F
  full_seconds full = float (rstrip (codes "s") full)

  -- The time to apply transactions in seconds; it counts only with a full duration.
  abbrev pub tx_apply_seconds : Str → Str → Option F
  tx_apply_seconds tx_apply full = elim (full_seconds full) [
    | none ↦ none
    | some _ ↦ elim (float (rstrip (codes "ms") tx_apply)) [
      | none ↦ none
      | some x ↦ some (div x (of_nat 1000))
    ]
  ]

  count_fields-observed :
      (tx_apply full : Str) (b : Board F)
      → count_fields n float tx_apply full b ≡ record b {
        full_durations = b.full_durations ++ observed (full_seconds full);
        tx_apply_durations = b.tx_apply_durations ++ observed (tx_apply_seconds tx_apply full);
      }
  unfolding count_fields observe_full observe_tx_apply
  count_fields-observed tx_apply full b =
      ground (arith, append-nil b.full_durations, append-nil b.tx_apply_durations)

  -- An entry of four fields without bars adds its full duration to the one histogram if that is a
  -- number, and then its time to apply transactions, in seconds, to the other if that is one too.
  -- Nothing else changes.
  pub count_timing-entry :
      (job pod tx_apply full : Str) (b : Board F)
      → has_bar job ≡ false
      → has_bar pod ≡ false
      → has_bar tx_apply ≡ false
      → has_bar full ≡ false
      → count_timing n float (entry job pod tx_apply full) b ≡ record b {
        full_durations = b.full_durations ++ observed (full_seconds full);
        tx_apply_durations = b.tx_apply_durations ++ observed (tx_apply_seconds tx_apply full);
      }
  unfolding count_timing count_parts
  count_timing-entry job pod tx_apply full b hj hp ht hf =
      ap (λ l. count_parts n float l b) (split-entry job pod tx_apply full hj hp ht hf)
      ∙ count_fields-observed tx_apply full b
