-- ===== src/Eks/Cluster/Tests.antt =====
-- An answer of AWS with a running member, a stopped one, and an instance of another cluster.
use supercluster.Prelude.{ℕ, ◌≡◌, refl, List, [], ◌∷◌, map, Option, none, some}
use supercluster.Prelude.Text.{Str, codes, str_eq}
use supercluster.Python.Json.{Json, str, Result, ok, raised, key_error}
use supercluster.Eks.Cluster.{ips_of}
use supercluster.Eks.Cluster.Answer.{Instance, concat, addresses, answer}
use supercluster.Eks.Cluster.Found.{ips_of-addresses}

abbrev tag : Str → List (Str × Option Str)
tag cluster =
    (codes "eks:cluster-name", none)
    ∷ (codes "Name", some cluster)
    ∷ (codes "eks:cluster-name", some cluster)
    ∷ []

abbrev instance_of : Str → Str → Str → Instance
instance_of cluster state ip = record { state = state; tags = some (tag cluster); ip = some ip }

abbrev listed : List (List Instance)
listed =
    (instance_of (codes "ssc") (codes "running") (codes "10.0.0.1")
      ∷ instance_of (codes "ssc") (codes "terminated") (codes "10.0.0.2")
      ∷ [])
    ∷ (instance_of (codes "other") (codes "running") (codes "10.0.0.3") ∷ [])
    ∷ []

ips_of-addresses_example :
    ips_of {F = ℕ} (codes "ssc") (answer listed)
    ≡ elim (addresses (codes "ssc") (concat listed)) as (λ _. Result (List (Json ℕ))) [
      | none ↦ raised key_error
      | some l ↦ ok (map str l)
    ]
ips_of-addresses_example = ips_of-addresses ℕ (codes "ssc") listed

one_address : addresses (codes "ssc") (concat listed) ≡ some (codes "10.0.0.1" ∷ [])
unfolding addresses str_eq
one_address = refl
