-- ===== src/Python/Split.antt =====
-- `str.replace` and `str.split` of Python.
use supercluster.Prelude.{ℕ, zero, suc, ◌-◌, List, [], ◌∷◌, ◌++◌, if◌then◌else◌}
use supercluster.Prelude.Text.{Str, starts_with}
use supercluster.Prelude.Lists.{length}

-- The rest of a text once `skip` more characters are passed over, with `old` replaced by `new`.
unfoldable pub replace_from : Str → Str → ℕ → Str → Str
unfolding starts_with
replace_from old new skip [] = []
replace_from old new (suc skip) (c ∷ s) = replace_from old new skip s
replace_from old new zero (c ∷ s) =
    let hit = starts_with old (c ∷ s) in
    let rest = replace_from old new (if hit then length old - 1 else 0) s in
    if hit then new ++ rest else c ∷ rest

-- `s.replace(old, new)` for a text `old` that is not empty
unfoldable pub replace : Str → Str → Str → Str
unfolding replace_from
replace old new = replace_from old new 0

push : ℕ → List Str → List Str
push c [] = (c ∷ []) ∷ []
push c (s ∷ l) = (c ∷ s) ∷ l

unfoldable pub split_from : Str → ℕ → Str → List Str
unfolding starts_with push
split_from sep skip [] = [] ∷ []
split_from sep (suc skip) (c ∷ s) = split_from sep skip s
split_from sep zero (c ∷ s) =
    let hit = starts_with sep (c ∷ s) in
    let rest = split_from sep (if hit then length sep - 1 else 0) s in
    if hit then [] ∷ rest else push c rest

-- `s.split(sep)` for a separator that is not empty
unfoldable pub split : Str → Str → List Str
unfolding split_from
split sep = split_from sep 0
