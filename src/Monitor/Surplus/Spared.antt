-- ===== src/Monitor/Surplus/Spared.antt =====
-- How many workers the marking of surplus workers leaves.
use mathlib.Core.List.{Sublistᴰ}
use mathlib.Core.Path.{subst}
use supercluster.Prelude.{
  ℕ, zero, suc, ◌+◌, ◌-◌, ◌≤◌, ◌≡◌, refl, sym, ◌∙◌, arith, Bool, true, false, List, [], ◌∷◌, ◌++◌,
  ltb, if◌then◌else◌, ◌⊎◌, inl, inr,
}
use supercluster.Prelude.Text.{Str}
use supercluster.Prelude.Lists.{length, take, drop, take-append-drop}
use supercluster.Monitor.World.{World, pure, ◌>>=◌}
use supercluster.Monitor.World.Calls.{Ends, Ends-bind}
use supercluster.Monitor.Network.{Config, Network, pod_exists}
use supercluster.Monitor.Surplus.{existing, choose_to_mark}

length-drop : (n : ℕ) (l : List Str) → length (drop n l) ≡ length l - n
unfolding drop
length-drop zero l = omega arith
length-drop (suc n) [] = omega arith
length-drop (suc n) (x ∷ l) = omega (arith, length-drop n l)

nothing_sublist : (l : List Str) → Sublistᴰ [] l
nothing_sublist [] = Sublistᴰ.slnil
nothing_sublist (x ∷ l) = Sublistᴰ.cons (nothing_sublist l)

take_none : (n : ℕ) (l : List Str) → n ≡ 0 → take n l ≡ []
unfolding take
take_none zero l e = refl
take_none (suc n) l e = absurd (omega arith)

-- The number to keep is reached by the busy workers and those that are left, or none is taken.
enough_left :
    (live kept : ℕ) (l : List Str)
    → (take (live + length l - kept) l ≡ [])
      ⊎ (kept ≤ live + length (drop (live + length l - kept) l))
enough_left live kept l = elim (compare_le kept (live + length l)) [
  | inl h ↦ inr (omega (arith, length-drop (live + length l - kept) l))
  | inr h ↦ inl (take_none (live + length l - kept) l (omega arith))
]
  where
    compare_le : (a b : ℕ) → (a ≤ b) ⊎ (b ≤ a)
    compare_le a b = ground arith

keep_found :
    (b : Bool) (x : Str) {l ws : List Str}
    → Sublistᴰ l ws
    → Sublistᴰ (if b then x ∷ l else l) (x ∷ ws)
keep_found true x s = Sublistᴰ.cons-cons refl s
keep_found false x s = Sublistᴰ.cons s

abbrev pub Spares : ℕ → ℕ → List Str → List Str → Type 0
Spares live kept ws to_mark =
    (spared : List Str) × Sublistᴰ (to_mark ++ spared) ws
    × ((to_mark ≡ []) ⊎ (kept ≤ live + length spared))

module _ {Db : Type 0} (c : Config) (net : Network) where
  -- The network only is asked.
  abbrev pub SameStore : World Db → World Db → Type 0
  SameStore w w' = (w'.db ≡ w.db) × (w'.slots ≡ w.slots) × (w'.retried ≡ w.retried)

  pod_exists-SameStore :
      (x : Str) (w : World Db) → Ends (λ _ w'. SameStore w w') (pod_exists c net x w)
  unfolding pod_exists
  pod_exists-SameStore x w = (refl, refl, refl)

  existing_sublist :
      (ws : List Str) (w : World Db)
      → Ends (λ idle w'. SameStore w w' × Sublistᴰ idle ws) (existing c net ws w)
  unfolding existing
  existing_sublist [] w = ((refl, refl, refl), Sublistᴰ.slnil)
  existing_sublist (x ∷ ws) w =
      Ends-bind (λ _ w'. SameStore w w') (λ idle w'. SameStore w w' × Sublistᴰ idle (x ∷ ws))
        (pod_exists c net x) _ w (pod_exists-SameStore x w)
        (λ found w' (d, l, n).
          Ends-bind (λ rest w2. SameStore w' w2 × Sublistᴰ rest ws)
            (λ idle w2. SameStore w w2 × Sublistᴰ idle (x ∷ ws)) (existing c net ws) _ w'
            (existing_sublist ws w')
            (λ rest w2 ((d', l', n'), s). ((d' ∙ d, l' ∙ l, n' ∙ n), keep_found found x s)))

  -- The choice ends, leaves the store alone, and splits some of the candidates, in their order, into
  -- workers to mark and spared ones. Unless none is to be marked, the spared ones and the busy ones
  -- together are at least as many as are to be kept.
  pub choose_to_mark-Spares :
      (live kept : ℕ) (ws : List Str) (w : World Db)
      → Ends
          (λ to_mark w'. SameStore w w' × Spares live kept ws to_mark)
          (choose_to_mark c net live kept ws w)
  unfolding choose_to_mark
  choose_to_mark-Spares live kept ws w = go (ltb kept (live + length ws))
    where
      go :
          (b : Bool)
          → Ends
              (λ to_mark w'. SameStore w w' × Spares live kept ws to_mark)
              ((if b
                  then (existing c net ws >>= λ idle. pure (take (live + length idle - kept) idle))
                  else pure [])
                w)
      go false = ((refl, refl, refl), ([], nothing_sublist ws, inl refl))
      go true =
          Ends-bind (λ idle w'. SameStore w w' × Sublistᴰ idle ws)
            (λ to_mark w'. SameStore w w' × Spares live kept ws to_mark) (existing c net ws) _ w
            (existing_sublist ws w)
            (λ idle w' q. (
              q.0,
              (
                drop (live + length idle - kept) idle,
                subst (λ l. Sublistᴰ l ws) (sym (take-append-drop (live + length idle - kept) idle))
                    q.1,
                enough_left live kept idle,
              ),
            ))
