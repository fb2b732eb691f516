-- ===== src/Prelude/Text.antt =====
-- Python's `str` as the list of its code points, which is what `ord`, `==`, `<`, `in`, `split` and
-- `replace` of the scripts work on.
use Prim.Native.Nat.{ℕ}
use Prim.Native.Char.{code}
use Prim.Native.String.{String}
use mathlib.Core.Path.{◌≡◌, refl, ap₂}
use mathlib.Core.Logic.{◌↔◌, ◌≢◌}
use mathlib.Core.Bool.{Bool, true, false, not, ◌&&◌, ◌||◌}
use mathlib.Core.List.{List, [], ◌∷◌}
use native.Mathlib.Omega.{arith}
use native.Mathlib.Decide.{ℕ_discrete}
use supercluster.Prelude.Tests.{ltb, ◌==◌}

abbrev pub Str : Type 0
Str = List ℕ

-- The code points of a literal.
abbrev pub codes : String → Str
codes String.[] = []
codes (String.◌∷◌ c s) = code c ∷ codes s

-- `s == t`
unfoldable pub str_eq : Str → Str → Bool
str_eq [] [] = true
str_eq [] (_ ∷ _) = false
str_eq (_ ∷ _) [] = false
str_eq (c ∷ s) (d ∷ t) = (c == d) && str_eq s t

-- `s < t`, by code points from the left; a proper prefix is smaller.
unfoldable pub str_lt : Str → Str → Bool
str_lt [] [] = false
str_lt [] (_ ∷ _) = true
str_lt (_ ∷ _) [] = false
str_lt (c ∷ s) (d ∷ t) = ltb c d || ((c == d) && str_lt s t)

-- `s.startswith(p)`
unfoldable pub starts_with : Str → Str → Bool
starts_with [] s = true
starts_with (_ ∷ _) [] = false
starts_with (c ∷ p) (d ∷ s) = (c == d) && starts_with p s

-- `p in s`
unfoldable pub contains : Str → Str → Bool
unfolding starts_with
contains p [] = starts_with p []
contains p (c ∷ s) = starts_with p (c ∷ s) || contains p s

pub str_eq_iff : (s t : Str) → (str_eq s t ≡ true) ↔ (s ≡ t)
unfolding str_eq
str_eq_iff [] [] = (λ _. refl, λ _. refl)
str_eq_iff [] (d ∷ t) = (λ h. cc, λ h. cc)
str_eq_iff (c ∷ s) [] = (λ h. cc, λ h. cc)
str_eq_iff (c ∷ s) (d ∷ t) =
    (λ h. ground (arith, str_eq_iff s t), λ h. ground (arith, str_eq_iff s t))

pub str_eq_refl : (s : Str) → str_eq s s ≡ true
str_eq_refl s = (str_eq_iff s s).1 refl

-- Of two different texts exactly one is the smaller.
pub str_lt-not : (s t : Str) → s ≢ t → str_lt t s ≡ not (str_lt s t)
unfolding str_lt
str_lt-not [] [] h = absurd (h refl)
str_lt-not [] (d ∷ t) h = refl
str_lt-not (c ∷ s) [] h = refl
str_lt-not (c ∷ s) (d ∷ t) h = elim (ℕ_discrete c d) [
  | yes e ↦ ground (arith, str_lt-not s t (λ p. h (ap₂ ◌∷◌ e p)))
  | no n ↦ ground arith
]

pub ne_of_str_eq : (s t : Str) → str_eq s t ≡ false → s ≢ t
ne_of_str_eq s t h e = ground (arith, str_eq_iff s t)
