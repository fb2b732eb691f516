-- ===== src/Bench/Initiate/Complete.antt =====
-- How many tests run in a network where every node lists every node as a peer.
use supercluster.Prelude.{ℕ, ◌+◌, ◌*◌, ◌≡◌, refl, ap, ◌≢◌, true, List, [], ◌∷◌, ◌++◌, map, arith}
use supercluster.Prelude.Text.{Str, codes, contains}
use supercluster.Prelude.Lists.{length, All}
use supercluster.Bench.Initiate.{before_dot, peer_node, tested_peers}
use supercluster.Bench.Initiate.Laws.{one_initiator, not_self}

-- No two names are equal.
abbrev pub Distinct : List Str → Type 0
Distinct [] = Unit
Distinct (x ∷ xs) = All (λ y. x ≢ y) xs × Distinct xs

-- A name without a dot.
abbrev pub IsShort : Str → Type 0
IsShort s = All (λ c. c ≢ b'.') s

-- The name of a node within a service's domain.
abbrev pub fqdn : Str → Str → Str
fqdn domain name = name ++ b'.' ∷ domain

-- The tests that a list of nodes starts, all nodes with the same list of peers.
unfoldable pub planned : List Str → List Str → ℕ
planned [] peers = 0
planned (node ∷ nodes) peers = length (tested_peers node peers) + planned nodes peers

contains-dot : (domain name : Str) → contains (codes ".") (fqdn domain name) ≡ true
unfolding contains
contains-dot domain [] = refl
contains-dot domain (c ∷ name) = ground (arith, contains-dot domain name)

before_dot-fqdn : (domain name : Str) → IsShort name → before_dot (fqdn domain name) ≡ name
unfolding before_dot
before_dot-fqdn domain [] h = refl
before_dot-fqdn domain (c ∷ name) h = ground (arith, before_dot-fqdn domain name h.1)

-- The short name of a node is found again in its name within a domain.
pub peer_node-fqdn : (domain name : Str) → IsShort name → peer_node (fqdn domain name) ≡ name
unfolding peer_node
peer_node-fqdn domain name h =
    ground (arith, contains-dot domain name, before_dot-fqdn domain name h)

planned-cons :
    (nodes peers : List Str) (peer : Str)
    → planned nodes (peer ∷ peers) ≡ planned nodes (peer ∷ []) + planned nodes peers
unfolding planned tested_peers
planned-cons [] peers peer = refl
planned-cons (node ∷ nodes) peers peer = ground (arith, planned-cons nodes peers peer)

-- A node and each of the others: one of the two starts the test.
row_and_column :
    (domain node : Str) (nodes : List Str)
    → IsShort node
    → All IsShort nodes
    → All (λ y. node ≢ y) nodes
    → length (tested_peers node (map (fqdn domain) nodes)) + planned nodes (fqdn domain node ∷ [])
      ≡ length nodes
unfolding planned tested_peers
row_and_column domain node [] s ss h = refl
row_and_column domain node (other ∷ nodes) s ss h = ground (
  arith,
  row_and_column domain node nodes s ss.1 h.1,
  peer_node-fqdn domain node s,
  peer_node-fqdn domain other ss.0,
  one_initiator node other h.0,
)

own_test :
    (domain node : Str) (peers : List Str)
    → IsShort node
    → tested_peers node (fqdn domain node ∷ peers) ≡ tested_peers node peers
unfolding tested_peers
own_test domain node peers s = ground (arith, peer_node-fqdn domain node s, not_self node)

-- With n nodes that all list one another, and themselves, there are n (n - 1) / 2 tests: each
-- pair of nodes is tested once, and no node tests itself.
pub each_pair_once :
    (domain : Str) (nodes : List Str)
    → All IsShort nodes
    → Distinct nodes
    → 2 * planned nodes (map (fqdn domain) nodes) + length nodes ≡ length nodes * length nodes
unfolding planned
each_pair_once domain [] s h = refl
each_pair_once domain (node ∷ nodes) s h =
    let peers = map (fqdn domain) nodes in
    omega (
      arith,
      ap length (own_test domain node peers s.0),
      planned-cons nodes peers (fqdn domain node),
      row_and_column domain node nodes s.0 s.1 h.0,
      each_pair_once domain nodes s.1 h.1,
    )
