-- ===== src/Python/Number/Naturals.antt =====
-- Natural numbers in the place of Python's, to run the scripts on small inputs.
use supercluster.Prelude.{ℕ, ◌+◌, ◌-◌, ◌*◌, ◌/◌, ◌≡◌, true, false, ltb, ◌==◌, arith}
use supercluster.Python.Number.Defs.{Number, IsOrdered}

abbrev pub naturals : Number
naturals = record {
  F = ℕ;
  of_nat = λ n. n;
  minus_one = 0;
  add = λ a b. a + b;
  sub = λ a b. a - b;
  mul = λ a b. a * b;
  div = λ a b. a / b;
  magnitude = λ a. a;
  lt = ltb;
  eq = λ a b. a == b;
  mean = λ a l. a;
}

naturals_irrefl : (a : ℕ) → ltb a a ≡ false
naturals_irrefl a = ground arith

naturals_trans : (a b c : ℕ) → ltb b a ≡ false → ltb c b ≡ false → ltb c a ≡ false
naturals_trans a b c p q = ground arith

naturals_asym : (a b : ℕ) → ltb a b ≡ true → ltb b a ≡ false
naturals_asym a b p = ground arith

pub naturals-IsOrdered : IsOrdered naturals
naturals-IsOrdered = record {
  irrefl = naturals_irrefl;
  trans_false = naturals_trans;
  asym = naturals_asym;
}
