-- ===== src/Monitor/Redis/Elem.antt =====
-- Membership in the lists of a view.
use supercluster.Prelude.{◌≡◌, refl, ap, ◌∙◌, arith, false, ◌||◌, List, [], ◌∷◌, ◌++◌, some}
use supercluster.Prelude.Text.{Str, str_eq, str_eq_iff}
use supercluster.Prelude.Sets.{elem}
use supercluster.Monitor.Redis.Keys.{remove_last, last?, without_last, insert_member}

pub elem-append : (x : Str) (xs ys : List Str) → elem x (xs ++ ys) ≡ (elem x xs || elem x ys)
unfolding elem
elem-append x [] ys = refl
elem-append x (y ∷ xs) ys = ground (arith, elem-append x xs ys)

pub elem-remove_last :
    (j x : Str) (l : List Str) → str_eq j x ≡ false → elem j (remove_last x l) ≡ elem j l
unfolding elem remove_last
elem-remove_last j x [] h = refl
elem-remove_last j x (y ∷ l) h =
    ground (arith, elem-remove_last j x l h, str_eq_iff j y, str_eq_iff x y, str_eq_iff j x)

pub remove_last_absent : (x : Str) (l : List Str) → elem x l ≡ false → remove_last x l ≡ l
unfolding elem remove_last
remove_last_absent x [] h = refl
remove_last_absent x (y ∷ l) h = ground arith

pub elem-insert_member :
    (j x : Str) (l : List Str) → elem j (insert_member x l) ≡ (str_eq j x || elem j l)
unfolding elem insert_member
elem-insert_member j x l = ground (arith, str_eq_iff j x)

pub split_last : (l : List Str) {x : Str} → last? l ≡ some x → l ≡ without_last l ++ x ∷ []
unfolding last? without_last
split_last [] e = cc
split_last (y ∷ []) e = cc
split_last (y ∷ z ∷ l) e = ap (◌∷◌ y) (split_last (z ∷ l) e)

pub elem-move_last :
    (j : Str) (l : List Str) {x : Str}
    → last? l ≡ some x
    → elem j l ≡ (elem j (without_last l) || str_eq j x)
unfolding elem
elem-move_last j l {x} e =
    ap (elem j) (split_last l e) ∙ ground (arith, elem-append j (without_last l) (x ∷ []))
