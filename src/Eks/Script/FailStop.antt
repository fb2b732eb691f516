-- ===== src/Eks/Script/FailStop.antt =====
-- The script stops at the first command that fails.
use supercluster.Prelude.{
  ℕ, zero, suc, refl, Bool, true, false, inl, List, [], ◌∷◌, Option, none, some, if◌then◌else◌,
}
use supercluster.Prelude.Text.{Str, codes}
use supercluster.Prelude.Lists.{length}
use supercluster.Python.Number.{Number}
use supercluster.Python.Json.{Json}
use supercluster.Python.Split.{replace}
use supercluster.Eks.World.{
  Machine, World, exited, Action, pure, ◌>>=◌, ◌>>◌, lift, required, sleep, read_line,
  prompt_with_default, prompt_yes_no, prompt_ssh_public_key, run, run_capture_output,
}
use supercluster.Eks.Cluster.{ips_of, hostname_of, propagated}
use supercluster.Eks.Script.{
  create_cluster, get_node_ips, mount_all, mount_nvme, setup_ingress_controller,
  emit_dns_instructions, test_dns_propagation, offer_cluster, check_count, offer, prepare, expose,
  main, create_command, mount_command, shown, get_services, dig, dns_retry_interval,
}
use supercluster.Eks.World.Stops.{
  IsClean, StopsInTime, Stops, bind, return, lift-Stops, required-Stops, sleep-Stops,
  read_line-Stops, prompt_with_default-Stops, prompt_yes_no-Stops, prompt_ssh_public_key-Stops,
  run-Stops, capture-Stops, Stops-if,
}

module _ (n : Number) (m : Machine n.F) where
  open n use {F, of_nat, eq}

  get_node_ips-Stops : (region cluster : Str) → Stops (get_node_ips n m region cluster)
  unfolding get_node_ips
  get_node_ips-Stops region cluster = bind (run_capture_output m _) _ (capture-Stops m _) (λ out.
      bind (required (m.loads out)) _ (required-Stops _) (λ v. lift-Stops (ips_of cluster v)))

  mount_all-Stops : (key : Str) (ips : List (Json F)) → Stops (mount_all n m key ips)
  unfolding mount_all
  mount_all-Stops key [] = return tt
  mount_all-Stops key (ip ∷ ips) =
      bind (run m (mount_command key (shown n m ip))) _ (run-Stops m _)
        (λ _. mount_all-Stops key ips)

  mount_nvme-Stops : (ips : List (Json F)) (key : Str) → Stops (mount_nvme n m ips key)
  unfolding mount_nvme
  mount_nvme-Stops ips key =
      bind {B = Unit {0}}
        (prompt_with_default (codes "SSH private key") (replace (codes ".pub") [] key))
        (λ k. mount_all n m k ips)
        (prompt_with_default-Stops (codes "SSH private key") (replace (codes ".pub") [] key))
        (λ k. mount_all-Stops k ips)

  setup-Stops : Stops (setup_ingress_controller n m)
  unfolding setup_ingress_controller
  setup-Stops = bind (run m _) _ (run-Stops m _) (λ _. run-Stops m _)

  emit-Stops : Stops (emit_dns_instructions n m)
  unfolding emit_dns_instructions
  emit-Stops =
      bind (run_capture_output m get_services) _ (capture-Stops m get_services) (λ out.
        bind (required (m.loads out)) _ (required-Stops _) (λ v. lift-Stops (hostname_of v)))

  one_round :
      (fuel : ℕ) (domain : Str) (target : Json F) (done : Bool)
      → Stops (test_dns_propagation n m fuel domain target)
      → Stops (elim done as (λ _. Action (Unit {0})) [
        | true ↦ pure tt
        | false ↦ sleep dns_retry_interval >> test_dns_propagation n m fuel domain target
      ])
  one_round fuel domain target true h = return tt
  one_round fuel domain target false h = bind (sleep dns_retry_interval) _ (sleep-Stops _) (λ _. h)

  test_dns-Stops :
      (fuel : ℕ) (domain : Str) (target : Json F)
      → Stops (test_dns_propagation n m fuel domain target)
  unfolding test_dns_propagation
  test_dns-Stops zero domain target = λ w h. h
  test_dns-Stops (suc fuel) domain target =
      bind (run_capture_output m (dig domain)) _ (capture-Stops m (dig domain)) (λ out.
        bind (lift (propagated target out)) _ (lift-Stops _)
          (λ done. one_round fuel domain target done (test_dns-Stops fuel domain target)))

  offer_cluster-Stops : (name region key : Str) → Stops (offer_cluster n m name region key)
  unfolding offer_cluster create_cluster
  offer_cluster-Stops name region key =
      bind {B = Option Str} (prompt_yes_no m (codes "Create EKS cluster") true)
        (λ create. if create then created else pure none)
        (prompt_yes_no-Stops m (codes "Create EKS cluster") true)
        (λ create.
          Stops-if create created (pure none)
            (bind {B = Option Str} (prompt_with_default (codes "Number of nodes") (codes "10"))
              with_number (prompt_with_default-Stops (codes "Number of nodes") (codes "10"))
              (λ num_nodes.
                bind {B = Option Str}
                  (prompt_with_default (codes "Node type") (codes "m5d.4xlarge"))
                  (with_type num_nodes)
                  (prompt_with_default-Stops (codes "Node type") (codes "m5d.4xlarge"))
                  (λ node_type.
                    bind (run m (create_command name region num_nodes node_type key))
                      (λ _. pure (some num_nodes)) (run-Stops m _) (λ _ w h. h))))
            (λ w h. h))
    where
      with_type : Str → Str → Action (Option Str)
      with_type num_nodes node_type =
          run m (create_command name region num_nodes node_type key) >>= λ _. pure (some num_nodes)

      with_number : Str → Action (Option Str)
      with_number num_nodes =
          prompt_with_default (codes "Node type") (codes "m5d.4xlarge") >>= with_type num_nodes

      created : Action (Option Str)
      created = prompt_with_default (codes "Number of nodes") (codes "10") >>= with_number

  check_count-Stops : (k : Option Str) (ips : List (Json F)) → Stops (check_count n m k ips)
  unfolding check_count
  check_count-Stops none ips = return tt
  check_count-Stops (some k) ips = bind (required (m.int k)) _ (required-Stops _) (λ x.
      Stops-if (eq (of_nat (length ips)) x) (pure tt) (λ w. (exited 1, w)) (return tt)
        (λ w h. (refl, inl h)))

  offer-Stops : (p : Str) (body : Action (Unit {0})) → Stops body → Stops (offer n m p body)
  unfolding offer
  offer-Stops p body h =
      bind (prompt_yes_no m p true) _ (prompt_yes_no-Stops m p true)
        (λ accepted. Stops-if accepted body (pure tt) h (return tt))

  prepare-Stops :
      (cluster region key : Str) (k : Option Str) → Stops (prepare n m cluster region key k)
  unfolding prepare
  prepare-Stops cluster region key k =
      bind (get_node_ips n m region cluster) _ (get_node_ips-Stops region cluster) (λ ips.
        bind (check_count n m k ips) _ (check_count-Stops k ips) (λ _.
          bind (offer n m (codes "Mount NVMe drives on cluster instances") (mount_nvme n m ips key))
            _
            (offer-Stops (codes "Mount NVMe drives on cluster instances") (mount_nvme n m ips key)
              (mount_nvme-Stops ips key))
            (λ _.
              offer-Stops (codes "Install ingress controller") (setup_ingress_controller n m)
                setup-Stops)))

  expose-Stops : (fuel : ℕ) → Stops (expose n m fuel)
  unfolding expose
  expose-Stops fuel =
      bind (read_line (codes "Ingress domain: ")) _ (read_line-Stops (codes "Ingress domain: "))
        (λ domain. bind (emit_dns_instructions n m) _ emit-Stops (λ target.
          offer-Stops (codes "Test DNS propagation") (test_dns_propagation n m fuel domain target)
            (test_dns-Stops fuel domain target)))

  -- Whatever the user types and the machine answers: no command follows one that has failed. When
  -- the script ends normally all its commands have succeeded; when it calls `exit`, the code is 1.
  pub main-StopsInTime : (fuel : ℕ) (w : World) → IsClean w.log → StopsInTime (main n m fuel w)
  unfolding main
  main-StopsInTime fuel =
      bind (prompt_with_default (codes "Cluster name") (codes "ssc")) _
        (prompt_with_default-Stops (codes "Cluster name") (codes "ssc"))
        (λ cluster.
          bind (prompt_with_default (codes "Region") (codes "us-west-2")) _
            (prompt_with_default-Stops (codes "Region") (codes "us-west-2"))
            (λ region. bind (prompt_ssh_public_key m) _ (prompt_ssh_public_key-Stops m) (λ key.
              bind (offer_cluster n m cluster region key) _ (offer_cluster-Stops cluster region key)
                (λ k.
                  bind (prepare n m cluster region key k) _ (prepare-Stops cluster region key k)
                    (λ _. expose-Stops fuel)))))
