-- ===== src/Bench/Initiate.antt =====
-- Who runs the test of a pair of nodes: `should_node_initiate_test` of
-- src/scripts/parse_benchmark_results.py, and the list of peers that a node tests, from
-- `aggregate_bidirectional_results` of the same file.
pub mod Parity
pub mod Laws
pub mod Complete
mod Tests
use Prim.Native.Nat.{bit_xor}
use supercluster.Prelude.{ℕ, ◌+◌, ◌%◌, Bool, List, [], ◌∷◌, ltb, ◌==◌, if◌then◌else◌}
use supercluster.Prelude.Text.{Str, codes, str_lt, contains}

-- `sum(ord(c) for c in node)`
unfoldable pub ord_sum : Str → ℕ
ord_sum [] = 0
ord_sum (c ∷ s) = c + ord_sum s

-- The choice by hash is overridden by the order of the names where the hashes are equal.
unfoldable pub should_node_initiate_test : Str → Str → Bool
should_node_initiate_test node1 node2 =
    let node1_hash = ord_sum node1 in
    let node2_hash = ord_sum node2 in
    let combined = bit_xor node1_hash node2_hash in
    let by_hash =
      if combined % 2 == 0 then ltb node1_hash node2_hash else ltb node2_hash node1_hash in
    if node1_hash == node2_hash then str_lt node1 node2 else by_hash

-- `s.split('.')[0]`
unfoldable pub before_dot : Str → Str
before_dot [] = []
before_dot (c ∷ s) = if c == b'.' then [] else c ∷ before_dot s

-- `peer_fqdn.split('.')[0] if '.' in peer_fqdn else peer_fqdn`
unfoldable pub peer_node : Str → Str
unfolding before_dot contains
peer_node peer_fqdn = if contains (codes ".") peer_fqdn then before_dot peer_fqdn else peer_fqdn

-- The loop that fills `tested_peers`, in the order of the topology.
unfoldable pub tested_peers : Str → List Str → List Str
unfolding peer_node
tested_peers initiator_node [] = []
tested_peers initiator_node (peer_fqdn ∷ rest) =
    let later = tested_peers initiator_node rest in
    if should_node_initiate_test initiator_node (peer_node peer_fqdn)
    then peer_fqdn ∷ later
    else later
