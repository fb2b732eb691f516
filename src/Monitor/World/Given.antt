-- ===== src/Monitor/World/Given.antt =====
-- Partial correctness of actions, which may raise.
use supercluster.Monitor.World.{World, Reply, ok, raised, unfinished, Action, next, ◌>>=◌}

-- If the action returned a value, `P` holds of it and of the world.
abbrev pub Given : {Db A : Type 0} → (A → World Db → Type 0) → Reply A × World Db → Type 0
Given P (ok a, w) = P a w
Given P (raised, w) = Unit
Given P (unfinished, w) = Unit

pub Given-bind :
    {Db A B : Type 0} (P : A → World Db → Type 0) (Q : B → World Db → Type 0) (m : Action Db A)
    (f : A → Action Db B) (w : World Db)
    → Given P (m w)
    → ((a : A) (w' : World Db) → P a w' → Given Q (f a w'))
    → Given Q ((m >>= f) w)
Given-bind {Db} {A} {B} P Q m f w = go (m w)
  where
    go :
        (x : Reply A × World Db)
        → Given P x
        → ((a : A) (w' : World Db) → P a w' → Given Q (f a w'))
        → Given Q (next f x)
    go (ok a, w') h k = k a w' h
    go (raised, w') h k = tt
    go (unfinished, w') h k = tt

pub Given-mono :
    {Db A : Type 0} (P Q : A → World Db → Type 0)
    → ((a : A) (w : World Db) → P a w → Q a w)
    → (x : Reply A × World Db) → Given P x
    → Given Q x
Given-mono P Q f (ok a, w) h = f a w h
Given-mono P Q f (raised, w) h = tt
Given-mono P Q f (unfinished, w) h = tt

pub Given-any : {Db A : Type 0} (x : Reply A × World Db) → Given (λ _ _. Unit {0}) x
Given-any (ok a, w) = tt
Given-any (raised, w) = tt
Given-any (unfinished, w) = tt
