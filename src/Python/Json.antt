-- ===== src/Python/Json.antt =====
-- JSON values as `json.loads` gives them, and what Python's operators do on such values, errors
-- included, for src/scripts/parse_benchmark_results.py and scripts/eks-init.py. An object is read by
-- the first field of a name; `json.loads` leaves one field of each name.
use supercluster.Prelude.{
  ◌≡◌, refl, ◌⊎◌, inl, inr, Bool, true, false, not, ◌||◌, List, [], ◌∷◌, Option, none, some,
  if◌then◌else◌,
}
use supercluster.Prelude.Text.{Str, str_eq, contains}
use supercluster.Python.Number.{Number}

mutual
  pub data Json (F : Type 0) : Type 0 where
    null : Json F
    bool : Bool → Json F
    num : F → Json F
    str : Str → Json F
    arr : Items F → Json F
    obj : Fields F → Json F

  pub data Items (F : Type 0) : Type 0 where
    nil : Items F
    cons : Json F → Items F → Items F

  pub data Fields (F : Type 0) : Type 0 where
    end : Fields F
    field : Str → Json F → Fields F → Fields F

-- The exceptions that the script's expressions raise on values of other shapes.
pub data Exception : Type 0 where
  type_error key_error attribute_error index_error : Exception

pub data Result (A : Type 0) : Type 0 where
  ok : A → Result A
  raised : Exception → Result A

pub Result-cases :
    {A : Type 0} (r : Result A) → ((a : A) × (r ≡ ok a)) ⊎ ((e : Exception) × (r ≡ raised e))
Result-cases (ok a) = inl (a, refl)
Result-cases (raised e) = inr (e, refl)

infixl 5 ◌>>=◌
abbrev pub ◌>>=◌ : {A B : Type 0} → Result A → (A → Result B) → Result B
ok a >>= f = f a
raised e >>= f = raised e

module _ {F : Type 0} where
  unfoldable pub lookup : Str → Fields F → Option (Json F)
  lookup k end = none
  lookup k (field j v fs) = if str_eq k j then some v else lookup k fs

  is_str : Str → Json F → Bool
  is_str k (str s) = str_eq k s
  is_str k _ = false

  has_item : Str → Items F → Bool
  unfolding is_str
  has_item k nil = false
  has_item k (cons v vs) = is_str k v || has_item k vs

  -- `k in v`
  unfoldable pub has : Str → Json F → Result Bool
  unfolding lookup has_item contains
  has k (obj fs) = ok (elim (lookup k fs) [ none ↦ false | some _ ↦ true ])
  has k (arr vs) = ok (has_item k vs)
  has k (str s) = ok (contains k s)
  has k _ = raised type_error

  or_key_error : Option (Json F) → Result (Json F)
  or_key_error none = raised key_error
  or_key_error (some v) = ok v

  -- `v[k]`
  unfoldable pub item : Str → Json F → Result (Json F)
  unfolding lookup or_key_error
  item k (obj fs) = or_key_error (lookup k fs)
  item k _ = raised type_error

  or_default : Json F → Option (Json F) → Json F
  or_default d none = d
  or_default d (some v) = v

  -- `v.get(k, d)`
  unfoldable pub get : Str → Json F → Json F → Result (Json F)
  unfolding lookup or_default
  get k d (obj fs) = ok (or_default d (lookup k fs))
  get k d _ = raised attribute_error

  unfoldable pub items : Items F → List (Json F)
  items nil = []
  items (cons v vs) = v ∷ items vs

  names : Fields F → List (Json F)
  names end = []
  names (field k v fs) = str k ∷ names fs

  letters : Str → List (Json F)
  letters [] = []
  letters (c ∷ s) = str (c ∷ []) ∷ letters s

  -- `for x in v`
  unfoldable pub iterate : Json F → Result (List (Json F))
  unfolding items names letters
  iterate (arr vs) = ok (items vs)
  iterate (obj fs) = ok (names fs)
  iterate (str s) = ok (letters s)
  iterate _ = raised type_error

  -- `v[0]`
  unfoldable pub first : Json F → Result (Json F)
  first (arr nil) = raised index_error
  first (arr (cons v _)) = ok v
  first (str []) = raised index_error
  first (str (c ∷ _)) = ok (str (c ∷ []))
  first (obj _) = raised key_error
  first _ = raised type_error

  -- `v == s` for a text `s`
  unfoldable pub is_text : Str → Json F → Bool
  is_text s (str t) = str_eq s t
  is_text s _ = false

  -- `k in v.keys()`
  unfoldable pub in_keys : Str → Json F → Result Bool
  unfolding lookup
  in_keys k (obj fs) = ok (elim (lookup k fs) [ none ↦ false | some _ ↦ true ])
  in_keys k _ = raised attribute_error

  -- `v is not None`
  unfoldable pub is_some : Json F → Bool
  is_some null = false
  is_some _ = true

module _ (n : Number) where
  open n use {F, of_nat, eq}

  -- A value where Python tests it.
  unfoldable pub truthy : Json F → Bool
  truthy null = false
  truthy (bool b) = b
  truthy (num x) = not (eq x (of_nat 0))
  truthy (str []) = false
  truthy (str (_ ∷ _)) = true
  truthy (arr nil) = false
  truthy (arr (cons _ _)) = true
  truthy (obj end) = false
  truthy (obj (field _ _ _)) = true

  -- A value as an operand of arithmetic; `True` counts 1.
  unfoldable pub number : Json F → Result F
  number (num x) = ok x
  number (bool b) = ok (if b then of_nat 1 else of_nat 0)
  number _ = raised type_error

  -- `k in v and v[k]`, as a test
  unfoldable pub has_truthy : Str → Json F → Result Bool
  unfolding has item truthy
  has_truthy k v = do there ← has k v; if there then (do x ← item k v; ok (truthy x)) else ok false
