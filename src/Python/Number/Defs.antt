-- ===== src/Python/Number/Defs.antt =====
-- The numbers that the scripts compute with, and Python's `min` and `max`.
use supercluster.Prelude.{
  ℕ, ◌≡◌, Bool, true, false, List, [], ◌∷◌, Option, none, some, if◌then◌else◌,
}

-- `mean` is `statistics.mean`, and `of_nat` gives the literals.
pub record Number : Type 1 where
  pub F : Type 0
  pub of_nat : ℕ → F
  pub minus_one : F
  pub add : F → F → F
  pub sub : F → F → F
  pub mul : F → F → F
  pub div : F → F → F
  pub magnitude : F → F
  pub lt : F → F → Bool
  pub eq : F → F → Bool
  pub mean : F → List F → F

module _ (num : Number) where
  open num use {F, lt, mean}

  -- `min(a, b)`: the first argument, unless the second is smaller
  unfoldable pub min_of : F → F → F
  min_of a b = if lt b a then b else a

  -- `max(a, b)`
  unfoldable pub max_of : F → F → F
  max_of a b = if lt a b then b else a

  unfoldable pub fold_min : F → List F → F
  unfolding min_of
  fold_min a [] = a
  fold_min a (x ∷ xs) = fold_min (min_of a x) xs

  unfoldable pub fold_max : F → List F → F
  unfolding max_of
  fold_max a [] = a
  fold_max a (x ∷ xs) = fold_max (max_of a x) xs

  -- `min(xs) if xs else None`, and so for `max` and `statistics.mean`
  unfoldable pub min? : List F → Option F
  unfolding fold_min
  min? [] = none
  min? (x ∷ xs) = some (fold_min x xs)

  unfoldable pub max? : List F → Option F
  unfolding fold_max
  max? [] = none
  max? (x ∷ xs) = some (fold_max x xs)

  unfoldable pub mean? : List F → Option F
  mean? [] = none
  mean? (x ∷ xs) = some (mean x xs)

  -- What `<` does on numbers other than NaN.
  pub record IsOrdered : Type 0 where
    pub irrefl : (a : F) → lt a a ≡ false
    pub trans_false : (a b c : F) → lt b a ≡ false → lt c b ≡ false → lt c a ≡ false
    pub asym : (a b : F) → lt a b ≡ true → lt b a ≡ false
