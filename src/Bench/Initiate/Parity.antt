-- ===== src/Bench/Initiate/Parity.antt =====
-- The lowest digit of an exclusive or, for the test `combined % 2 == 0`.
use Prim.Native.Nat.{bit_xor, bit_xor-bitwise, differ}
use supercluster.Prelude.{ℕ, zero, suc, ◌+◌, ◌%◌, ◌<◌, ◌≡◌, refl, arith}

differ_bits : (x y : ℕ) → x < 2 → y < 2 → differ x y ≡ (x + y) % 2
differ_bits zero zero p q = refl
differ_bits zero (suc zero) p q = refl
differ_bits (suc zero) zero p q = refl
differ_bits (suc zero) (suc zero) p q = refl
differ_bits (suc (suc x)) y p q = absurd (omega arith)
differ_bits zero (suc (suc y)) p q = absurd (omega arith)
differ_bits (suc zero) (suc (suc y)) p q = absurd (omega arith)

pub bit_xor_parity : (a b : ℕ) → bit_xor a b % 2 ≡ (a + b) % 2
bit_xor_parity zero b = omega (arith, bit_xor-bitwise zero b)
bit_xor_parity (suc a) b =
    omega (
      arith,
      bit_xor-bitwise (suc a) b,
      differ_bits (suc a % 2) (b % 2) (omega arith) (omega arith),
    )
