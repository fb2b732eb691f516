-- ===== src/Eks/Cluster.antt =====
-- What scripts/eks-init.py reads out of the answers of `aws`, `kubectl` and `dig`:
-- `node_is_in_cluster`, the loops of `get_node_ips`, and the tests of `emit_dns_instructions` and
-- `test_dns_propagation`.
pub mod Answer
pub mod Found
mod Tests
use supercluster.Prelude.{Bool, true, false, List, [], ◌∷◌, ◌++◌, Option, none, some, if◌then◌else◌}
use supercluster.Prelude.Text.{Str, codes, contains}
use supercluster.Python.Json.{
  Json, str, first, Result, ok, raised, key_error, type_error, attribute_error, index_error, ◌>>=◌,
  item, iterate, is_text, in_keys,
}

-- `except KeyError: pass`
unfoldable pub or_pass : Result Bool → Result Bool
or_pass (ok b) = ok b
or_pass (raised key_error) = ok false
or_pass (raised type_error) = raised type_error
or_pass (raised attribute_error) = raised attribute_error
or_pass (raised index_error) = raised index_error

module _ {F : Type 0} where
  -- `tag["Key"] == "eks:cluster-name" and tag["Value"] == cluster_name`
  unfoldable pub tag_names : Str → Json F → Result Bool
  unfolding item is_text
  tag_names cluster_name tag = item (codes "Key") tag >>= λ k.
      if is_text (codes "eks:cluster-name") k
      then (item (codes "Value") tag >>= λ v. ok (is_text cluster_name v))
      else ok false

  -- The loop over the tags.
  unfoldable pub any_tag : Str → List (Json F) → Result Bool
  unfolding tag_names or_pass
  any_tag cluster_name [] = ok false
  any_tag cluster_name (tag ∷ tags) =
      let rest = any_tag cluster_name tags in
      or_pass (tag_names cluster_name tag) >>= λ found. if found then ok true else rest

  -- The state is asked for before the tags are read.
  unfoldable pub node_is_in_cluster : Str → Json F → Result Bool
  unfolding any_tag in_keys item iterate is_text
  node_is_in_cluster cluster_name node = in_keys (codes "Tags") node >>= λ tagged.
      if tagged
      then (do
        state ← item (codes "State") node
        name ← item (codes "Name") state
        if is_text (codes "running") name
            then (do tags ← item (codes "Tags") node; l ← iterate tags; any_tag cluster_name l)
            else ok false)
      else ok false

  -- The inner loop: the addresses found so far, and those of the instances of the cluster.
  unfoldable pub add_instances : Str → List (Json F) → List (Json F) → Result (List (Json F))
  unfolding node_is_in_cluster item
  add_instances cluster_name [] ips = ok ips
  add_instances cluster_name (instance' ∷ rest) ips =
      node_is_in_cluster cluster_name instance' >>= λ there.
      (if there
        then (item (codes "PublicIpAddress") instance' >>= λ ip. ok (ips ++ ip ∷ []))
        else ok ips)
      >>= λ ips'. add_instances cluster_name rest ips'

  unfoldable pub add_reservations : Str → List (Json F) → List (Json F) → Result (List (Json F))
  unfolding add_instances item iterate
  add_reservations cluster_name [] ips = ok ips
  add_reservations cluster_name (reservation ∷ rest) ips = do
    instances ← item (codes "Instances") reservation
    l ← iterate instances
    ips' ← add_instances cluster_name l ips
    add_reservations cluster_name rest ips'

  unfoldable pub ips_of : Str → Json F → Result (List (Json F))
  unfolding add_reservations item iterate
  ips_of cluster_name reservations = do
    v ← item (codes "Reservations") reservations
    l ← iterate v
    add_reservations cluster_name l []

  -- `service["status"]["loadBalancer"]["ingress"][0]["hostname"]`
  unfoldable pub hostname_of : Json F → Result (Json F)
  unfolding item first
  hostname_of service = item (codes "status") service >>= λ status.
      (item (codes "loadBalancer") status >>= λ balancer.
      (item (codes "ingress") balancer >>= λ ingress.
      (first ingress >>= λ entry. item (codes "hostname") entry)))

  -- `target in record`
  unfoldable pub is_in : Json F → Str → Result Bool
  unfolding contains
  is_in (str target) record' = ok (contains target record')
  is_in _ record' = raised type_error

  -- Whether the record of one round is the right one. An empty record is not asked.
  unfoldable pub propagated : Json F → Str → Result Bool
  unfolding is_in
  propagated target [] = ok false
  propagated target (c ∷ s) = is_in target (c ∷ s)
