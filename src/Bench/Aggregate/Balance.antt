-- ===== src/Bench/Aggregate/Balance.antt =====
-- Every megabit that is credited as sent is credited as received, or its receiver is no node of
-- the run.
use mathlib.Core.List.{Perm, perm_middle}
use mathlib.Core.List.Perm
use supercluster.Prelude.{Bool, List, [], ◌∷◌, ◌++◌, if◌then◌else◌, Bool-cases, inl, inr}
use supercluster.Prelude.Text.{Str}
use supercluster.Python.Number.{Number}
use supercluster.Bench.Aggregate.{PairTest, reverse_throughput}
use supercluster.Bench.Aggregate.Credits.{sends, receipts, all_of}

module _ (n : Number) where
  open n use {F, of_nat, lt}

  abbrev pub amounts : List (Str × F) → List F
  amounts [] = []
  amounts ((_, x) ∷ l) = x ∷ amounts l

  -- The forward throughputs of the tests whose peer has no pod.
  abbrev pub lost : (Str → Bool) → List (PairTest F) → List F
  lost known [] = []
  lost known (t ∷ ts) =
      let rest = lost known ts in if known t.peer then rest else t.result.send_mbps ∷ rest

  tests_balance :
      (known : Str → Bool) (ts : List (PairTest F))
      → Perm
          (amounts (all_of n (sends n known) ts))
          (amounts (all_of n (receipts n known) ts) ++ lost known ts)
  tests_balance known [] = Perm.refl []
  tests_balance known (t ∷ ts) = elim (Bool-cases (known t.peer)) [
    | inl q ↦ elim (Bool-cases (lt (of_nat 0) (reverse_throughput n t.result))) [
      | inl r ↦ rw (q, r) (Perm.cons _ (Perm.cons _ (tests_balance known ts)))
      | inr r ↦ rw (q, r) (Perm.cons _ (tests_balance known ts))
    ]
    | inr q ↦ rw q (Perm.trans (Perm.cons _ (tests_balance known ts)) (Perm.symm (perm_middle _ _)))
  ]
