-- ===== src/Eks/Cluster/Answer.antt =====
-- What `aws ec2 describe-instances` lists, its JSON, and the addresses that belong to a cluster.
use mathlib.Core.Option
use supercluster.Prelude.{
  Bool, false, ◌&&◌, ◌||◌, List, [], ◌∷◌, ◌++◌, map, Option, none, some, if◌then◌else◌,
}
use supercluster.Prelude.Text.{Str, codes, str_eq}
use supercluster.Python.Json.{Json, str, arr, obj, Items, nil, cons, Fields, end, field}

-- An instance: the name of its state, its tags if it has any, and its public address if it has one.
-- A tag has a key and perhaps a value.
pub record Instance : Type 0 where
  pub state : Str
  pub tags : Option (List (Str × Option Str))
  pub ip : Option Str

unfoldable pub has_value : Str → Option Str → Bool
has_value s none = false
has_value s (some v) = str_eq s v

-- A tag of the list names the cluster.
unfoldable pub tagged : Str → List (Str × Option Str) → Bool
unfolding has_value
tagged cluster [] = false
tagged cluster ((k, v) ∷ ts) =
    (str_eq (codes "eks:cluster-name") k && has_value cluster v) || tagged cluster ts

-- The instance runs in the cluster.
unfoldable pub is_member : Str → Instance → Bool
unfolding tagged
is_member cluster i = elim i.tags [
  | none ↦ false
  | some ts ↦ str_eq (codes "running") i.state && tagged cluster ts
]

-- The addresses of the members, in their order; none if one of them has no address.
unfoldable pub addresses : Str → List Instance → Option (List Str)
unfolding is_member
addresses cluster [] = some []
addresses cluster (i ∷ is) =
    let rest = addresses cluster is in
    if is_member cluster i
    then elim i.ip [ none ↦ none | some a ↦ Option.map (◌∷◌ a) rest ]
    else rest

-- The instances of all reservations.
abbrev pub concat : List (List Instance) → List Instance
concat [] = []
concat (r ∷ rs) = r ++ concat rs

module _ {F : Type 0} where
  unfoldable pub array : List (Json F) → Items F
  array [] = nil
  array (v ∷ vs) = cons v (array vs)

  abbrev pub optional : Str → Option (Json F) → Fields F → Fields F
  optional k none fs = fs
  optional k (some v) fs = field k v fs

  -- The JSON that AWS prints.
  unfoldable pub tag_json : Str × Option Str → Json F
  tag_json (k, v) =
      obj (field (codes "Key") (str k) (optional (codes "Value") (Option.map str v) end))

  unfoldable pub tags_json : List (Str × Option Str) → Json F
  unfolding array tag_json
  tags_json ts = arr (array (map tag_json ts))

  unfoldable pub instance_json : Instance → Json F
  unfolding tags_json
  instance_json i = obj (
      optional (codes "Tags") (Option.map tags_json i.tags) (
        field (codes "State") (obj (field (codes "Name") (str i.state) end))
          (optional (codes "PublicIpAddress") (Option.map str i.ip) end)))

  unfoldable pub reservation_json : List Instance → Json F
  unfolding array instance_json
  reservation_json is = obj (field (codes "Instances") (arr (array (map instance_json is))) end)

  unfoldable pub answer : List (List Instance) → Json F
  unfolding array reservation_json
  answer rs = obj (field (codes "Reservations") (arr (array (map reservation_json rs))) end)
