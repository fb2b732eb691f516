-- ===== src/Bench/Initiate/Tests.antt =====
-- Runs at fixed inputs, and the theorems at inputs that meet their hypotheses.
use supercluster.Prelude.{◌+◌, ◌*◌, ◌≡◌, ◌≢◌, refl, false, not, List, [], ◌∷◌, map, arith}
use supercluster.Prelude.Text.{Str, codes, str_eq, ne_of_str_eq}
use supercluster.Prelude.Lists.{length, All}
use supercluster.Bench.Initiate.{should_node_initiate_test, ord_sum}
use supercluster.Bench.Initiate.Laws.{one_initiator}
use supercluster.Bench.Initiate.Complete.{Distinct, IsShort, fqdn, planned, each_pair_once}

core_a_waits : should_node_initiate_test (codes "core-a") (codes "core-b") ≡ false
unfolding should_node_initiate_test ord_sum
core_a_waits = refl

a_not_b : ◌≢◌ {A = Str} (codes "core-a") (codes "core-b")
unfolding str_eq
a_not_b = ne_of_str_eq (codes "core-a") (codes "core-b") refl

one_initiator_example :
    should_node_initiate_test (codes "core-b") (codes "core-a")
    ≡ not (should_node_initiate_test (codes "core-a") (codes "core-b"))
one_initiator_example = one_initiator (codes "core-a") (codes "core-b") a_not_b

abbrev three : List Str
three = codes "a" ∷ codes "b" ∷ codes "c" ∷ []

three-Distinct : Distinct three
unfolding str_eq
three-Distinct =
    ((ne_of_str_eq _ _ refl, (ne_of_str_eq _ _ refl, tt)), ((ne_of_str_eq _ _ refl, tt), (tt, tt)))

three-IsShort : All IsShort three
three-IsShort = omega arith

each_pair_once_example :
    2 * planned three (map (fqdn (codes "svc")) three) + length three ≡ length three * length three
each_pair_once_example = each_pair_once (codes "svc") three three-IsShort three-Distinct
