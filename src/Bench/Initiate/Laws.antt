-- ===== src/Bench/Initiate/Laws.antt =====
-- The choice is fair to a pair: exactly one of two nodes starts the test.
use supercluster.Prelude.{◌≡◌, refl, ◌≢◌, false, not, [], ◌∷◌, arith}
use supercluster.Prelude.Text.{Str, str_lt, str_lt-not}
use supercluster.Bench.Initiate.{ord_sum, should_node_initiate_test}
use supercluster.Bench.Initiate.Parity.{bit_xor_parity}

-- Two nodes with different names: one starts the test exactly if the other does not.
pub one_initiator :
    (node1 node2 : Str)
    → node1 ≢ node2
    → should_node_initiate_test node2 node1 ≡ not (should_node_initiate_test node1 node2)
unfolding should_node_initiate_test
one_initiator node1 node2 h = ground (
  arith,
  str_lt-not node1 node2 h,
  bit_xor_parity (ord_sum node1) (ord_sum node2),
  bit_xor_parity (ord_sum node2) (ord_sum node1),
)

str_lt_irrefl : (s : Str) → str_lt s s ≡ false
unfolding str_lt
str_lt_irrefl [] = refl
str_lt_irrefl (c ∷ s) = ground (arith, str_lt_irrefl s)

pub not_self : (node : Str) → should_node_initiate_test node node ≡ false
unfolding should_node_initiate_test
not_self node = ground (arith, str_lt_irrefl node)
