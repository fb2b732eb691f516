-- ===== src/Prelude/Sets.antt =====
-- Sets of texts, as lists in which the order does not count, and `sorted`.
use mathlib.Core.Path.{◌≡◌, refl, ◌∙◌}
use mathlib.Core.Logic.{∥∥₁_elim}
use mathlib.Core.Bool.{Bool, Bool-set, false, not, ◌&&◌, ◌||◌}
use mathlib.Core.List.{List, [], ◌∷◌, Perm, Permᴰ}
use supercluster.Prelude.Tests.{if◌then◌else◌}
use supercluster.Prelude.Text.{Str, str_eq, str_lt, str_eq_iff}
use native.Mathlib.Omega.{arith}

-- `x in l`
unfoldable pub elem : Str → List Str → Bool
elem x [] = false
elem x (y ∷ ys) = str_eq x y || elem x ys

-- `[x for x in l if p(x)]`
unfoldable pub keep_if : (Str → Bool) → List Str → List Str
keep_if p [] = []
keep_if p (x ∷ l) = let rest = keep_if p l in if p x then x ∷ rest else rest

-- Each text of the list once.
unfoldable pub distinct : List Str → List Str
unfolding elem
distinct [] = []
distinct (x ∷ l) = let rest = distinct l in if elem x l then rest else x ∷ rest

-- `xs - ys`
unfoldable pub minus : List Str → List Str → List Str
unfolding keep_if elem
minus xs ys = keep_if (λ x. not (elem x ys)) xs

unfoldable pub insert_sorted : Str → List Str → List Str
insert_sorted x [] = x ∷ []
insert_sorted x (y ∷ l) = let rest = insert_sorted x l in if str_lt y x then y ∷ rest else x ∷ y ∷ l

-- `sorted(l)`
unfoldable pub sorted : List Str → List Str
unfolding insert_sorted
sorted [] = []
sorted (x ∷ l) = insert_sorted x (sorted l)

pub elem-keep_if :
    (x : Str) (p : Str → Bool) (l : List Str) → elem x (keep_if p l) ≡ (elem x l && p x)
unfolding elem keep_if
elem-keep_if x p [] = refl
elem-keep_if x p (y ∷ l) = ground (arith, elem-keep_if x p l, str_eq_iff x y)

pub elem-minus :
    (x : Str) (xs ys : List Str) → elem x (minus xs ys) ≡ (elem x xs && not (elem x ys))
unfolding minus
elem-minus x xs ys = elem-keep_if x (λ y. not (elem y ys)) xs

elem-insert_sorted :
    (x y : Str) (l : List Str) → elem x (insert_sorted y l) ≡ (str_eq x y || elem x l)
unfolding elem insert_sorted
elem-insert_sorted x y [] = refl
elem-insert_sorted x y (z ∷ l) = ground (arith, elem-insert_sorted x y l)

pub elem-sorted : (x : Str) (l : List Str) → elem x (sorted l) ≡ elem x l
unfolding elem sorted
elem-sorted x [] = refl
elem-sorted x (y ∷ l) = ground (arith, elem-sorted x l, elem-insert_sorted x y (sorted l))

pub elem-distinct : (x : Str) (l : List Str) → elem x (distinct l) ≡ elem x l
unfolding elem distinct
elem-distinct x [] = refl
elem-distinct x (y ∷ l) = ground (arith, elem-distinct x l, str_eq_iff x y)

elem-Permᴰ : (x : Str) {l m : List Str} → Permᴰ l m → elem x l ≡ elem x m
unfolding elem
elem-Permᴰ x Permᴰ.nil = refl
elem-Permᴰ x (Permᴰ.cons e p) = ground (arith, elem-Permᴰ x p)
elem-Permᴰ x (Permᴰ.swap e f) = ground arith
elem-Permᴰ x (Permᴰ.trans p q) = elem-Permᴰ x p ∙ elem-Permᴰ x q

pub elem-Perm : (x : Str) {l m : List Str} → Perm l m → elem x l ≡ elem x m
elem-Perm x {l} {m} p = ∥∥₁_elim p (Bool-set (elem x l) (elem x m)) (λ d. elem-Permᴰ x d)
