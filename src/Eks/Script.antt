-- ===== src/Eks/Script.antt =====
-- The functions of scripts/eks-init.py that run commands, and its `main`.
pub mod FailStop
pub mod Propagation
mod Tests
use supercluster.Prelude.{
  ℕ, zero, suc, Bool, true, false, not, List, [], ◌∷◌, ◌++◌, Option, none, some, if◌then◌else◌,
}
use supercluster.Prelude.Text.{Str, codes, contains}
use supercluster.Prelude.Lists.{length}
use supercluster.Python.Number.{Number}
use supercluster.Python.Json.{Json, str, Result, ok, raised, type_error, first, item}
use supercluster.Python.Split.{replace}
use supercluster.Eks.World.{
  Machine, World, Reply, unfinished, exited, Action, pure, ◌>>=◌, ◌>>◌, lift, required, sleep,
  read_line, prompt_with_default, prompt_yes_no, prompt_ssh_public_key, run, run_capture_output,
}
use supercluster.Eks.Cluster.{ips_of, hostname_of, propagated}

-- The command of `create_cluster`, with KUBERNETES_VERSION.
unfoldable pub create_command : Str → Str → Str → Str → Str → Str
create_command name region num_nodes node_type ssh_public_key =
    codes "eksctl create cluster --name "
    ++ (name
        ++ (codes " --region "
            ++ (region
                ++ (codes " --nodes "
                    ++ (num_nodes
                        ++ (codes " --node-type "
                            ++ (node_type
                                ++ (codes " --version 1.31 --ssh-access --ssh-public-key "
                                    ++ (ssh_public_key ++ codes " ")))))))))

abbrev pub describe_instances : Str → List Str
describe_instances region =
    codes "aws"
    ∷ codes "--region"
    ∷ region
    ∷ codes "ec2"
    ∷ codes "describe-instances"
    ∷ codes "--output"
    ∷ codes "json"
    ∷ codes "--no-paginate"
    ∷ []

-- The command that is sent to each node, with NVME_MOUNT_SCRIPT.
abbrev mount_script : Str
mount_script =
    codes
      "wget https://raw.githubusercontent.com/awslabs/amazon-eks-ami/86105105a83fdc80e682b850aac6f626119a6951/templates/shared/runtime/bin/setup-local-disks && sudo bash setup-local-disks raid0"

unfoldable pub mount_command : Str → Str → Str
mount_command private_key ip =
    codes "ssh -o StrictHostKeyChecking=no -i "
    ++ (private_key ++ (codes " ec2-user@" ++ (ip ++ (codes " '" ++ (mount_script ++ codes "'")))))

abbrev add_repo : Str
add_repo = codes "helm repo add ingress-nginx https://kubernetes.github.io/ingress-nginx"

abbrev install_ingress : Str
install_ingress =
    codes
      "helm upgrade --install ingress-nginx ingress-nginx --repo https://kubernetes.github.io/ingress-nginx --namespace ingress-nginx --create-namespace"

abbrev pub get_services : List Str
get_services =
    codes "kubectl"
    ∷ codes "get"
    ∷ codes "services"
    ∷ codes "ingress-nginx-controller"
    ∷ codes "-n"
    ∷ codes "ingress-nginx"
    ∷ codes "-o"
    ∷ codes "json"
    ∷ []

abbrev pub dig : Str → List Str
dig domain =
    codes "dig" ∷ codes "+noall" ∷ codes "+answer" ∷ (codes "*." ++ domain) ∷ codes "CNAME" ∷ []

-- DNS_RETRY_INTERVAL_SECONDS
abbrev pub dns_retry_interval : ℕ
dns_retry_interval = 60

module _ (n : Number) (m : Machine n.F) where
  open n use {F, of_nat, eq}

  -- A JSON value in an f-string.
  unfoldable pub shown : Json F → Str
  shown (str s) = s
  shown v = m.show v

  unfoldable pub create_cluster : Str → Str → Str → Str → Str → Action (Unit {0})
  unfolding run create_command
  create_cluster name region num_nodes node_type ssh_public_key =
      run m (create_command name region num_nodes node_type ssh_public_key)

  unfoldable pub get_node_ips : Str → Str → Action (List (Json F))
  unfolding run_capture_output ips_of
  get_node_ips region cluster_name = do
    out ← run_capture_output m (describe_instances region)
    reservations ← required (m.loads out)
    lift (ips_of cluster_name reservations)

  unfoldable pub mount_all : Str → List (Json F) → Action (Unit {0})
  unfolding run mount_command shown
  mount_all private_key [] = pure tt
  mount_all private_key (ip ∷ ips) =
      run m (mount_command private_key (shown ip)) >> mount_all private_key ips

  unfoldable pub mount_nvme : List (Json F) → Str → Action (Unit {0})
  unfolding mount_all prompt_with_default replace
  mount_nvme ips public_key = do
    private_key ←
        prompt_with_default (codes "SSH private key") (replace (codes ".pub") [] public_key)
    mount_all private_key ips

  unfoldable pub setup_ingress_controller : Action (Unit {0})
  unfolding run
  setup_ingress_controller = run m add_repo >> run m install_ingress

  -- It gives the host name; the instructions are printed.
  unfoldable pub emit_dns_instructions : Action (Json F)
  unfolding run_capture_output hostname_of
  emit_dns_instructions = do
    out ← run_capture_output m get_services
    service ← required (m.loads out)
    lift (hostname_of service)

  -- The loop, with a bound on its rounds.
  unfoldable pub test_dns_propagation : ℕ → Str → Json F → Action (Unit {0})
  unfolding run_capture_output propagated sleep
  test_dns_propagation zero domain target = λ w. (unfinished, w)
  test_dns_propagation (suc fuel) domain target = run_capture_output m (dig domain) >>= λ record'.
      (lift (propagated target record') >>= λ done. elim done [
        | true ↦ pure tt
        | false ↦ sleep dns_retry_interval >> test_dns_propagation fuel domain target
      ])

  -- `create_cluster` or not; it gives the number of nodes asked for.
  unfoldable pub offer_cluster : Str → Str → Str → Action (Option Str)
  unfolding prompt_yes_no prompt_with_default create_cluster
  offer_cluster cluster_name region ssh_public_key = do
    create ← prompt_yes_no m (codes "Create EKS cluster") true
    if create
        then (do
          num_nodes ← prompt_with_default (codes "Number of nodes") (codes "10")
          node_type ← prompt_with_default (codes "Node type") (codes "m5d.4xlarge")
          create_cluster cluster_name region num_nodes node_type ssh_public_key
          pure (some num_nodes))
        else pure none

  -- `if num_nodes is not None and len(ips) != int(num_nodes): exit(1)`
  unfoldable pub check_count : Option Str → List (Json F) → Action (Unit {0})
  check_count none ips = pure tt
  check_count (some num_nodes) ips = required (m.int num_nodes) >>= λ k.
      if eq (of_nat (length ips)) k then pure tt else λ w. (exited 1, w)

  -- `if prompt_yes_no(prompt, True): body`
  unfoldable pub offer : Str → Action (Unit {0}) → Action (Unit {0})
  unfolding prompt_yes_no
  offer prompt body = do accepted ← prompt_yes_no m prompt true; if accepted then body else pure tt

  -- The nodes of the cluster are found, counted and set up.
  unfoldable pub prepare : Str → Str → Str → Option Str → Action (Unit {0})
  unfolding get_node_ips check_count offer mount_nvme setup_ingress_controller
  prepare cluster_name region ssh_public_key num_nodes = do
    ips ← get_node_ips region cluster_name
    check_count num_nodes ips
    offer (codes "Mount NVMe drives on cluster instances") (mount_nvme ips ssh_public_key)
    offer (codes "Install ingress controller") setup_ingress_controller

  unfoldable pub expose : ℕ → Action (Unit {0})
  unfolding read_line emit_dns_instructions offer test_dns_propagation
  expose fuel = do
    ingress_domain ← read_line (codes "Ingress domain: ")
    cname_target ← emit_dns_instructions
    offer (codes "Test DNS propagation") (test_dns_propagation fuel ingress_domain cname_target)

  unfoldable pub main : ℕ → Action (Unit {0})
  unfolding prompt_with_default prompt_ssh_public_key offer_cluster prepare expose
  main fuel = do
    cluster_name ← prompt_with_default (codes "Cluster name") (codes "ssc")
    region ← prompt_with_default (codes "Region") (codes "us-west-2")
    ssh_public_key ← prompt_ssh_public_key m
    num_nodes ← offer_cluster cluster_name region ssh_public_key
    prepare cluster_name region ssh_public_key num_nodes
    expose fuel
