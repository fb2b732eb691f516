-- ===== src/Eks/Cluster/Found.antt =====
-- `get_node_ips` against what `aws ec2 describe-instances` lists.
use mathlib.Core.List.{append_assoc, append-nil, map-append}
use mathlib.Core.Option
use supercluster.Prelude.{
  ◌≡◌, refl, ap, ap₂, sym, ◌∙◌, arith, Bool, true, false, ◌&&◌, List, [], ◌∷◌, ◌++◌, map, Option,
  none, some, if◌then◌else◌,
}
use supercluster.Prelude.Text.{Str, codes, str_eq}
use supercluster.Python.Json.{Json, str, Result, ok, raised, key_error, items, item, iterate, ◌>>=◌}
use supercluster.Eks.Cluster.{
  tag_names, or_pass, any_tag, node_is_in_cluster, add_instances, add_reservations, ips_of,
}
use supercluster.Eks.Cluster.Answer.{
  Instance, has_value, tagged, is_member, addresses, concat, array, tag_json, instance_json,
  reservation_json, answer,
}

module _ {F : Type 0} where
  items-array : (l : List (Json F)) → items (array l) ≡ l
  unfolding items array
  items-array [] = refl
  items-array (v ∷ l) = ap (◌∷◌ v) (items-array l)

module _ (F : Type 0) where
  tag_names-tag_json :
      (cluster k : Str) (v : Option Str)
      → or_pass (tag_names {F = F} cluster (tag_json (k, v)))
        ≡ ok (str_eq (codes "eks:cluster-name") k && has_value cluster v)
  unfolding tag_names or_pass tag_json has_value str_eq
  tag_names-tag_json cluster k none = ground arith
  tag_names-tag_json cluster k (some v) = ground arith

  any_tag-tags :
      (cluster : Str) (ts : List (Str × Option Str))
      → any_tag {F = F} cluster (map tag_json ts) ≡ ok (tagged cluster ts)
  unfolding any_tag tagged
  any_tag-tags cluster [] = refl
  any_tag-tags cluster ((k, v) ∷ ts) =
      ground (arith, tag_names-tag_json cluster k v, any_tag-tags cluster ts)

  node_of_parts :
      (cluster st : Str) (t : Option (List (Str × Option Str))) (ip : Option Str)
      → let i : Instance = record { state = st; tags = t; ip = ip } in
        node_is_in_cluster {F = F} cluster (instance_json i) ≡ ok (is_member cluster i)
  unfolding node_is_in_cluster instance_json is_member str_eq
  node_of_parts cluster st none none = refl
  node_of_parts cluster st none (some a) = refl
  node_of_parts cluster st (some ts) ip = rw items-array (ground (arith, any_tag-tags cluster ts))

  address_of_parts :
      (st : Str) (t : Option (List (Str × Option Str))) (ip : Option Str)
      → item
          (codes "PublicIpAddress")
          (instance_json {F = F} (record { state = st; tags = t; ip = ip }))
        ≡ elim ip [ none ↦ raised key_error | some a ↦ ok (str a) ]
  unfolding item instance_json str_eq
  address_of_parts st none none = refl
  address_of_parts st none (some a) = refl
  address_of_parts st (some ts) none = refl
  address_of_parts st (some ts) (some a) = refl

  -- What the loops make of the addresses that there should be.
  abbrev outcome : List (Json F) → Option (List Str) → Result (List (Json F))
  outcome ips none = raised key_error
  outcome ips (some l) = ok (ips ++ map str l)

  outcome-cons :
      (ips : List (Json F)) (a : Str) (l : Option (List Str))
      → outcome (ips ++ str a ∷ []) l ≡ outcome ips (Option.map (◌∷◌ a) l)
  outcome-cons ips a none = refl
  outcome-cons ips a (some l) = ap ok (append_assoc ips (str a ∷ []) (map str l))

  -- One round of the inner loop, by whether the instance is a member and what address it has.
  abbrev with_instance :
      Bool
      → Option Str
      → List (Json F)
      → (List (Json F) → Result (List (Json F)))
      → Result (List (Json F))
  with_instance there ip ips k =
      (if there
        then (elim ip as (λ _. Result (Json F)) [ none ↦ raised key_error | some a ↦ ok (str a) ]
            >>= λ v. ok (ips ++ v ∷ []))
        else ok ips)
      >>= k

  with_instance-outcome :
      (there : Bool) (ip : Option Str) (ips : List (Json F)) (rest : Option (List Str))
      (k : List (Json F) → Result (List (Json F)))
      → ((l : List (Json F)) → k l ≡ outcome l rest)
      → with_instance there ip ips k
        ≡ outcome ips
            (if there then elim ip [ none ↦ none | some a ↦ Option.map (◌∷◌ a) rest ] else rest)
  with_instance-outcome false ip ips rest k h = h ips
  with_instance-outcome true none ips rest k h = refl
  with_instance-outcome true (some a) ips rest k h = h (ips ++ str a ∷ []) ∙ outcome-cons ips a rest

  add_instances-addresses :
      (cluster : Str) (is : List Instance) (ips : List (Json F))
      → add_instances cluster (map instance_json is) ips ≡ outcome ips (addresses cluster is)
  unfolding add_instances addresses
  add_instances-addresses cluster [] ips = ap ok (sym (append-nil ips))
  add_instances-addresses cluster (i ∷ is) ips =
      ap₂
        (λ b v. b >>= λ there.
          (if there then (v >>= λ ip. ok (ips ++ ip ∷ [])) else ok ips) >>= λ ips'.
          add_instances cluster (map instance_json is) ips')
        (node_of_parts cluster i.state i.tags i.ip) (address_of_parts i.state i.tags i.ip)
      ∙ with_instance-outcome (is_member cluster i) i.ip ips (addresses cluster is)
          (add_instances cluster (map instance_json is)) (add_instances-addresses cluster is)

  -- What a list of addresses and a later one make together.
  abbrev both : Option (List Str) → Option (List Str) → Option (List Str)
  both none b = none
  both (some l) none = none
  both (some l) (some l') = some (l ++ l')

  both-map :
      (a : Str) (x y : Option (List Str))
      → both (Option.map (◌∷◌ a) x) y ≡ Option.map (◌∷◌ a) (both x y)
  both-map a none y = refl
  both-map a (some l) none = refl
  both-map a (some l) (some l') = refl

  both-nil : (y : Option (List Str)) → both (some []) y ≡ y
  both-nil none = refl
  both-nil (some l) = refl

  addresses-append :
      (cluster : Str) (is js : List Instance)
      → addresses cluster (is ++ js) ≡ both (addresses cluster is) (addresses cluster js)
  unfolding addresses
  addresses-append cluster [] js = sym (both-nil (addresses cluster js))
  addresses-append cluster (i ∷ is) js =
      step (is_member cluster i) i.ip (addresses-append cluster is js)
    where
      step :
          (there : Bool) (ip : Option Str)
          → addresses cluster (is ++ js) ≡ both (addresses cluster is) (addresses cluster js)
          → (if there
              then elim ip as (λ _. Option (List Str)) [
                | none ↦ none
                | some a ↦ Option.map (◌∷◌ a) (addresses cluster (is ++ js))
              ]
              else addresses cluster (is ++ js))
            ≡ both
                (if there
                  then elim ip [ none ↦ none | some a ↦ Option.map (◌∷◌ a) (addresses cluster is) ]
                  else addresses cluster is)
                (addresses cluster js)
      step false ip h = h
      step true none h = refl
      step true (some a) h =
          ap (Option.map (◌∷◌ a)) h ∙ sym (both-map a (addresses cluster is) (addresses cluster js))

  outcome-both :
      (ips : List (Json F)) (x y : Option (List Str)) (k : List (Json F) → Result (List (Json F)))
      → ((l : List (Json F)) → k l ≡ outcome l y)
      → (outcome ips x >>= k) ≡ outcome ips (both x y)
  outcome-both ips none y k h = refl
  outcome-both ips (some l) none k h = h (ips ++ map str l)
  outcome-both ips (some l) (some l') k h =
      h (ips ++ map str l)
      ∙ ap ok
          (append_assoc ips (map str l) (map str l') ∙ ap (◌++◌ ips) (sym (map-append str l l')))

  add_reservations-addresses :
      (cluster : Str) (rs : List (List Instance)) (ips : List (Json F))
      → add_reservations cluster (map reservation_json rs) ips
        ≡ outcome ips (addresses cluster (concat rs))
  unfolding add_reservations addresses reservation_json item str_eq iterate
  add_reservations-addresses cluster [] ips = ap ok (sym (append-nil ips))
  add_reservations-addresses cluster (r ∷ rs) ips =
      ap (λ l. add_instances cluster l ips >>= add_reservations cluster (map reservation_json rs))
        (items-array (map instance_json r))
      ∙ ap (λ o. o >>= add_reservations cluster (map reservation_json rs))
          (add_instances-addresses cluster r ips)
      ∙ outcome-both ips (addresses cluster r) (addresses cluster (concat rs))
          (add_reservations cluster (map reservation_json rs))
          (add_reservations-addresses cluster rs)
      ∙ ap (outcome ips) (sym (addresses-append cluster r (concat rs)))

  -- From an answer of AWS that lists the instances by reservation, `get_node_ips` takes the
  -- addresses of those that are running and have a tag with the name of the cluster, in their order.
  -- It raises a KeyError exactly if one of them has no public address. Instances without tags, and
  -- tags without a value, are passed over.
  pub ips_of-addresses :
      (cluster : Str) (rs : List (List Instance))
      → ips_of {F = F} cluster (answer rs)
        ≡ elim (addresses cluster (concat rs)) [ none ↦ raised key_error | some l ↦ ok (map str l) ]
  unfolding ips_of answer item str_eq iterate
  ips_of-addresses cluster rs =
      ap (λ l. add_reservations cluster l []) (items-array (map reservation_json rs))
      ∙ add_reservations-addresses cluster rs []
      ∙ by_cases (addresses cluster (concat rs))
    where
      by_cases :
          (x : Option (List Str))
          → outcome [] x ≡ elim x [ none ↦ raised key_error | some l ↦ ok (map str l) ]
      by_cases none = refl
      by_cases (some l) = refl
