-- ===== src/Python/Digits.antt =====
-- `str` of Python on a natural number.
use supercluster.Prelude.{ℕ, zero, suc, ◌+◌, ◌/◌, ◌%◌, [], ◌∷◌, ◌++◌, ltb, if◌then◌else◌}
use supercluster.Prelude.Text.{Str}

-- The digits of a number, with the number itself as a bound on how many there are.
unfoldable digits_from : ℕ → ℕ → Str
digits_from zero n = []
digits_from (suc bound) n =
    let higher = digits_from bound (n / 10) in
    (if ltb n 10 then [] else higher) ++ (b'0' + n % 10) ∷ []

-- `str(i)`
unfoldable pub decimal : ℕ → Str
unfolding digits_from
decimal n = digits_from (suc n) n
