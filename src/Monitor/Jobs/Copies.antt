-- ===== src/Monitor/Jobs/Copies.antt =====
-- The copies of a text in the lists that the commands leave.
use supercluster.Prelude.{
  ◌+◌, ◌-◌, ◌<◌, ◌≡◌, refl, ap, ◌∙◌, arith, true, false, List, [], ◌∷◌, ◌++◌, some, if◌then◌else◌,
}
use supercluster.Prelude.Text.{Str, str_eq, str_eq_iff}
use supercluster.Prelude.Sets.{elem}
use supercluster.Monitor.Redis.Keys.{remove_last, last?, without_last}
use supercluster.Monitor.Redis.Elem.{split_last}
use supercluster.Monitor.Jobs.{copies}

pub copies-append : (j : Str) (xs ys : List Str) → copies j (xs ++ ys) ≡ copies j xs + copies j ys
unfolding copies
copies-append j [] ys = omega arith
copies-append j (x ∷ xs) ys = omega (arith, copies-append j xs ys)

pub copies-elem : (j : Str) (l : List Str) → elem j l ≡ true → 0 < copies j l
unfolding copies elem
copies-elem j [] e = absurd cc
copies-elem j (x ∷ l) e = ground (arith, copies-elem j l)

copies-absent : (j : Str) (l : List Str) → elem j l ≡ false → copies j l ≡ 0
unfolding copies elem
copies-absent j [] e = refl
copies-absent j (x ∷ l) e = ground (arith, copies-absent j l)

-- One copy of `x` goes, if there is one.
pub copies-remove_last :
    (j x : Str) (l : List Str)
    → copies j (remove_last x l) ≡ copies j l - (if str_eq j x then 1 else 0)
unfolding copies remove_last
copies-remove_last j x [] = ground arith
copies-remove_last j x (y ∷ l) = ground (
  arith,
  copies-remove_last j x l,
  copies-elem x l,
  copies-elem j l,
  copies-absent x l,
  str_eq_iff x y,
  str_eq_iff j x,
  str_eq_iff j y,
)

pub copies-move_last :
    (j : Str) (l : List Str) {x : Str}
    → last? l ≡ some x
    → copies j l ≡ copies j (without_last l) + (if str_eq j x then 1 else 0)
unfolding copies
copies-move_last j l {x} e =
    ap (copies j) (split_last l e) ∙ omega (arith, copies-append j (without_last l) (x ∷ []))
