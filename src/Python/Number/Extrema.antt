-- ===== src/Python/Number/Extrema.antt =====
-- `min` and `max` of a list bound its items and are among them.
use supercluster.Prelude.{◌≡◌, refl, false, List, [], ◌∷◌, some, arith, ◌⊎◌, inl, inr, ◌∙◌, of_some}
use mathlib.Core.Path.{subst}
use supercluster.Prelude.Lists.{All}
use supercluster.Python.Number.Defs.{
  Number, IsOrdered, min_of, max_of, fold_min, fold_max, min?, max?,
}

-- Some item of the list satisfies `P`.
abbrev pub Any : {A : Type 0} → (A → Type 0) → List A → Type 0
Any P [] = ⊥
Any P (x ∷ xs) = P x ⊎ Any P xs

module _ (num : Number) (o : IsOrdered num) where
  open num use {F, lt}
  open o use {irrefl, trans_false, asym}

  min_of_below : (a x : F) → (lt a (min_of num a x) ≡ false) × (lt x (min_of num a x) ≡ false)
  unfolding min_of
  min_of_below a x = ground (arith, irrefl a, irrefl x, asym x a)

  max_of_above : (a x : F) → (lt (max_of num a x) a ≡ false) × (lt (max_of num a x) x ≡ false)
  unfolding max_of
  max_of_above a x = ground (arith, irrefl a, irrefl x, asym a x)

  fold_min_below :
      (a : F) (xs : List F)
      → (lt a (fold_min num a xs) ≡ false) × All (λ x. lt x (fold_min num a xs) ≡ false) xs
  unfolding fold_min
  fold_min_below a [] = (irrefl a, tt)
  fold_min_below a (x ∷ xs) =
      let (below, all) = fold_min_below (min_of num a x) xs in
      let (l, r) = min_of_below a x in (trans_false _ _ _ below l, (trans_false _ _ _ below r, all))

  fold_max_above :
      (a : F) (xs : List F)
      → (lt (fold_max num a xs) a ≡ false) × All (λ x. lt (fold_max num a xs) x ≡ false) xs
  unfolding fold_max
  fold_max_above a [] = (irrefl a, tt)
  fold_max_above a (x ∷ xs) =
      let (above, all) = fold_max_above (max_of num a x) xs in
      let (l, r) = max_of_above a x in (trans_false _ _ _ l above, (trans_false _ _ _ r above, all))

  -- The smallest of a list: no item is below it.
  pub min?_below : (xs : List F) {m : F} → min? num xs ≡ some m → All (λ x. lt x m ≡ false) xs
  unfolding min?
  min?_below [] e = tt
  min?_below (x ∷ xs) {m} e =
      subst (λ k. All (λ y. lt y k ≡ false) (x ∷ xs)) (of_some _ _ e) (fold_min_below x xs)

  pub max?_above : (xs : List F) {m : F} → max? num xs ≡ some m → All (λ x. lt m x ≡ false) xs
  unfolding max?
  max?_above [] e = tt
  max?_above (x ∷ xs) {m} e =
      subst (λ k. All (λ y. lt k y ≡ false) (x ∷ xs)) (of_some _ _ e) (fold_max_above x xs)

module _ (num : Number) where
  open num use {F, lt}

  min_of_mem : (a x : F) → (min_of num a x ≡ a) ⊎ (min_of num a x ≡ x)
  unfolding min_of
  min_of_mem a x = ground arith

  fold_min_mem : (a : F) (xs : List F) → Any (λ x. fold_min num a xs ≡ x) (a ∷ xs)
  unfolding fold_min
  fold_min_mem a [] = inl refl
  fold_min_mem a (x ∷ xs) = elim (fold_min_mem (min_of num a x) xs) [
    | inl first ↦ elim (min_of_mem a x) [ inl e ↦ inl (first ∙ e) | inr e ↦ inr (inl (first ∙ e)) ]
    | inr later ↦ inr (inr later)
  ]

  pub min?_mem : (xs : List F) {m : F} → min? num xs ≡ some m → Any (λ x. m ≡ x) xs
  unfolding min?
  min?_mem [] e = cc
  min?_mem (x ∷ xs) {m} e =
      subst (λ k. Any (λ y. k ≡ y) (x ∷ xs)) (of_some _ _ e) (fold_min_mem x xs)
