-- ===== src/Prelude/Dict.antt =====
-- Python's `dict` with text keys, in the order of insertion.
use mathlib.Core.Option
use supercluster.Prelude.Tests.{if◌then◌else◌, Bool-cases}
use mathlib.Core.Logic.{◌⊎◌, inl, inr}
use supercluster.Prelude.Text.{Str, str_eq, str_eq_iff}
use mathlib.Core.Path.{◌≡◌}
use mathlib.Core.Bool.{Bool, true, false, ◌||◌}
use mathlib.Core.Option.{Option, none, some}
use mathlib.Core.List.{List, [], ◌∷◌, ◌++◌}
use native.Mathlib.Omega.{arith}

abbrev pub Dict {ℓ} : Type ℓ → Type ℓ
Dict V = List (Str × V)

module _ {ℓ} {V : Type ℓ} where
  unfoldable pub lookup : Str → Dict V → Option V
  lookup k [] = none
  lookup k ((j, v) ∷ d) = if str_eq k j then some v else lookup k d

  abbrev pub is_some : Option V → Bool
  is_some none = false
  is_some (some _) = true

  -- `k in d`
  unfoldable pub has_key : Str → Dict V → Bool
  unfolding lookup
  has_key k d = is_some (lookup k d)

  -- `d.get(k, v)`
  unfoldable pub get_or : Str → V → Dict V → V
  unfolding lookup
  get_or k v d = elim (lookup k d) [ none ↦ v | some w ↦ w ]

  -- `if k in d: d[k] = f(d[k])`
  unfoldable pub update : Str → (V → V) → Dict V → Dict V
  update k f [] = []
  update k f ((j, v) ∷ d) = if str_eq k j then (j, f v) ∷ d else (j, v) ∷ update k f d

  -- `if k not in d: d[k] = v`
  unfoldable pub add_new : Str → V → Dict V → Dict V
  add_new k v d = if has_key k d then d else d ++ (k, v) ∷ []

  pub lookup-update :
      (j k : Str) (f : V → V) (d : Dict V)
      → lookup j (update k f d) ≡ (if str_eq j k then Option.map f (lookup j d) else lookup j d)
  unfolding lookup update
  lookup-update j k f [] = ground arith
  lookup-update j k f ((i, v) ∷ d) =
      ground (arith, lookup-update j k f d, str_eq_iff j k, str_eq_iff k i, str_eq_iff j i)

  -- What `update j f` does to the value of the key `k`.
  abbrev pub at : Str → Str → (V → V) → V → V
  at k j f v = if str_eq k j then f v else v

  pub lookup-update-some :
      (k j : Str) (f : V → V) (d : Dict V) {v : V}
      → lookup k d ≡ some v
      → lookup k (update j f d) ≡ some (at k j f v)
  lookup-update-some k j f d e = ground (arith, lookup-update k j f d)

  pub has_key-update : (k j : Str) (f : V → V) (d : Dict V) → has_key k (update j f d) ≡ has_key k d
  unfolding has_key
  has_key-update k j f d = ground (arith, lookup-update k j f d)

  has_key-append :
      (k j : Str) (v : V) (d : Dict V) → has_key k (d ++ (j, v) ∷ []) ≡ (has_key k d || str_eq k j)
  unfolding has_key lookup
  has_key-append k j v [] = ground arith
  has_key-append k j v ((i, w) ∷ d) = ground (arith, has_key-append k j v d)

  pub has_key-add_new :
      (k j : Str) (v : V) (d : Dict V) → has_key k (add_new j v d) ≡ (has_key k d || str_eq k j)
  unfolding add_new
  has_key-add_new k j v d = ground (arith, has_key-append k j v d, str_eq_iff k j)

  pub lookup_of_has_key :
      (k : Str) (d : Dict V) → has_key k d ≡ true → (v : V) × (lookup k d ≡ some v)
  unfolding has_key
  lookup_of_has_key k d h = ground arith

  pub has_key_of_lookup : (k : Str) (d : Dict V) {v : V} → lookup k d ≡ some v → has_key k d ≡ true
  unfolding has_key
  has_key_of_lookup k d e = ground arith

  lookup-append_inv :
      (k j : Str) (v : V) (d : Dict V) {w : V}
      → lookup k (d ++ (j, v) ∷ []) ≡ some w
      → (lookup k d ≡ some w) ⊎ (w ≡ v)
  unfolding lookup
  lookup-append_inv k j v [] e = ground arith
  lookup-append_inv k j v ((i, x) ∷ d) {w} e = ground (arith, lookup-append_inv k j v d {w = w})

  pub lookup-add_new_inv :
      (k j : Str) (v : V) (d : Dict V) {w : V}
      → lookup k (add_new j v d) ≡ some w
      → (lookup k d ≡ some w) ⊎ (w ≡ v)
  unfolding add_new
  lookup-add_new_inv k j v d e = elim (Bool-cases (has_key j d)) [
    | inl q ↦ inl (rw q at e)
    | inr q ↦ lookup-append_inv k j v d (rw q at e)
  ]
