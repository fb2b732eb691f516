-- ===== src/Bench/Names.antt =====
-- How `main` of src/scripts/parse_benchmark_results.py finds the name of a pod's node in its log:
-- `re.search(r'Node (\S+) running', logs)`.
pub mod Laws
pub mod Sound
use supercluster.Prelude.{
  ℕ, Bool, true, false, ◌&&◌, List, [], ◌∷◌, Option, none, some, if◌then◌else◌,
}
use supercluster.Prelude.Text.{Str, codes, starts_with}
use supercluster.Prelude.Lists.{drop}
use supercluster.Bench.Aggregate.{Pod}

-- A pod of the input.
pub record PodData : Type 0 where
  pub name : Option Str
  pub kubectl_output : Option Str
  pub logs : Option Str

-- `is_space` tells the characters that `\s` matches.
module _ (is_space : ℕ → Bool) where
  -- The longest start of a text without white space, and the rest of the text.
  unfoldable pub word : Str → Str
  word [] = []
  word (c ∷ s) = let rest = word s in if is_space c then [] else c ∷ rest

  unfoldable pub after_word : Str → Str
  after_word [] = []
  after_word (c ∷ s) = let rest = after_word s in if is_space c then c ∷ s else rest

  -- A match at the start of the text. What follows the group is a space, so the group is the whole
  -- word.
  unfoldable pub match_word : Str → Option Str
  unfolding word after_word starts_with
  match_word s = elim (word s) [
    | [] ↦ none
    | c ∷ w ↦ if starts_with (codes " running") (after_word s) then some (c ∷ w) else none
  ]

  unfoldable pub match_here : Str → Option Str
  unfolding match_word starts_with drop
  match_here s = if starts_with (codes "Node ") s then match_word (drop 5 s) else none

  -- The leftmost match
  unfoldable pub search : Str → Option Str
  unfolding match_here
  search [] = none
  search (c ∷ s) =
      let later = search s in elim (match_here (c ∷ s)) [ none ↦ later | some name ↦ some name ]

  unfoldable pub name_from_log : PodData → Option Str → Option Pod
  name_from_log p (some node) =
      some (record { name = p.name; node_name = some node; kubectl_output = p.kubectl_output })
  name_from_log p none = elim p.name [
    | none ↦ none
    | some name ↦
        some (record { name = some name; node_name = some name; kubectl_output = p.kubectl_output })
  ]

  -- The body of the loop over the pods: a pod without the log line has to have a name, or a
  -- `KeyError` ends the script.
  unfoldable pub name_pod : PodData → Option Pod
  unfolding search name_from_log
  name_pod p = name_from_log p (search (elim p.logs [ none ↦ [] | some logs ↦ logs ]))

  unfoldable pub name_pods : List PodData → Option (List Pod)
  unfolding name_pod
  name_pods [] = some []
  name_pods (p ∷ pods) =
      let rest = name_pods pods in
      elim (name_pod p) [
        | none ↦ none
        | some named ↦ elim rest [ none ↦ none | some l ↦ some (named ∷ l) ]
      ]
