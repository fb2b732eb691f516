-- ===== src/Eks/Script/Propagation.antt =====
-- How the loop of `test_dns_propagation` ends, and what it accepts.
use supercluster.Prelude.{
  ℕ, zero, suc, ◌+◌, ◌≤◌, ◌≡◌, refl, ap, ◌∙◌, arith, Bool, true, false, List, [], ◌∷◌, ◌++◌,
}
use supercluster.Prelude.Text.{Str, starts_with, contains}
use supercluster.Python.Number.{Number}
use supercluster.Python.Json.{Json, str, Result}
use supercluster.Python.Json as Json
use supercluster.Eks.World.{
  Machine, Output, text, Event, captured, slept, World, Reply, ok, exited, raised, unfinished,
  Action, next, pure, ◌>>=◌, ◌>>◌, lift, sleep, run_capture_output,
}
use supercluster.Eks.Cluster.{propagated, is_in}
use supercluster.Eks.Script.{test_dns_propagation, dig, dns_retry_interval}

-- What the loop does before it ends: `k` rounds with a pause, and one without.
abbrev pub rounds : List Str → ℕ → List Event
rounds command zero = captured command true ∷ []
rounds command (suc k) = captured command true ∷ slept 60 ∷ rounds command k

module _ (n : Number) (m : Machine n.F) (domain : Str) (target : Json n.F) where
  -- The output of `dig` from call number `a` on.
  abbrev Prints : ℕ → (ℕ → Str) → ℕ → Type 0
  Prints a records k = (i : ℕ) → i ≤ k → m.output (a + i) (dig domain) ≡ text (records i)

  -- The world after one command, and after one command and a pause.
  abbrev dug : World → World
  dug w = record w { calls = w.calls + 1; log = w.log ++ captured (dig domain) true ∷ [] }

  abbrev paused : World → World
  paused w = record (dug w) { log = (w.log ++ captured (dig domain) true ∷ []) ++ slept 60 ∷ [] }

  -- What a round does, once the output of `dig` and the test on it are known.
  abbrev after_test : ℕ → Result Bool → Action (Unit {0})
  after_test fuel r = lift r >>= λ done. elim done [
    | true ↦ pure tt
    | false ↦ sleep dns_retry_interval >> test_dns_propagation n m fuel domain target
  ]

  output_at :
      (a b : ℕ) {o : Output} → a ≡ b → m.output b (dig domain) ≡ o → m.output a (dig domain) ≡ o
  output_at a b e h = ap (λ i. m.output i (dig domain)) e ∙ h

  -- Some output of `dig` has the target in it, and it is the last that was asked for.
  abbrev Found : World → World → Type 0
  Found w w' =
      (k : ℕ) × (s : Str) × (m.output (w.calls + k) (dig domain) ≡ text s)
      × (propagated target s ≡ Json.ok true)
      × (w'.calls ≡ w.calls + (k + 1))

  capture_text_inv :
      (w w1 : World) (s : Str)
      → run_capture_output m (dig domain) w ≡ (ok s, w1)
      → (m.output w.calls (dig domain) ≡ text s) × (w1.calls ≡ w.calls + 1)
  unfolding run_capture_output
  capture_text_inv w w1 s e = ground arith

  Found-later : (w w1 w' : World) → w1.calls ≡ w.calls + 1 → Found w1 w' → Found w w'
  Found-later w w1 w' e (k, s, o, p, c) =
      (k + 1, s, output_at (w.calls + (k + 1)) (w1.calls + k) (omega arith) o, p, omega arith)

  by_test :
      (fuel : ℕ) (w w1 w' : World) (s : Str) (r : Result Bool)
      → (run_capture_output m (dig domain) w ≡ (ok s, w1))
      → propagated target s ≡ r
      → after_test fuel r w1 ≡ (ok tt, w')
      → ((w2 : World) → test_dns_propagation n m fuel domain target w2 ≡ (ok tt, w') → Found w2 w')
      → Found w w'
  unfolding sleep
  by_test fuel w w1 w' s (Json.ok true) q p e ih =
      let (o, c) = capture_text_inv w w1 s q in
      (0, s, output_at (w.calls + 0) w.calls (omega arith) o, p, ground arith)
  by_test fuel w w1 w' s (Json.ok false) q p e ih =
      Found-later w (record w1 { log = w1.log ++ slept 60 ∷ [] }) w' ((capture_text_inv w w1 s q).1)
        (ih (record w1 { log = w1.log ++ slept 60 ∷ [] }) e)
  by_test fuel w w1 w' s (Json.raised x) q p e ih = cc

  by_capture :
      (fuel : ℕ) (w w' : World) (x : Reply Str × World)
      → run_capture_output m (dig domain) w ≡ x
      → next (λ record'. after_test fuel (propagated target record')) x ≡ (ok tt, w')
      → ((w2 : World) → test_dns_propagation n m fuel domain target w2 ≡ (ok tt, w') → Found w2 w')
      → Found w w'
  by_capture fuel w w' (ok s, w1) q e ih = by_test fuel w w1 w' s (propagated target s) q refl e ih
  by_capture fuel w w' (exited c, w1) q e ih = cc
  by_capture fuel w w' (raised, w1) q e ih = cc
  by_capture fuel w w' (unfinished, w1) q e ih = cc

  -- The loop ends normally only after an output of `dig` with the target in it, which is the last
  -- one that it asked for.
  pub test_dns_propagation_sound :
      (fuel : ℕ) (w : World) {w' : World}
      → test_dns_propagation n m fuel domain target w ≡ (ok tt, w')
      → (k : ℕ) × (s : Str) × (m.output (w.calls + k) (dig domain) ≡ text s)
        × (propagated target s ≡ Json.ok true)
        × (w'.calls ≡ w.calls + (k + 1))
  unfolding test_dns_propagation
  test_dns_propagation_sound zero w e = cc
  test_dns_propagation_sound (suc fuel) w {w'} e =
      by_capture fuel w w' (run_capture_output m (dig domain) w) refl e
        (λ w2 h. test_dns_propagation_sound fuel w2 h)

starts_with-append : (t b : Str) → starts_with t (t ++ b) ≡ true
unfolding starts_with
starts_with-append [] b = refl
starts_with-append (c ∷ t) b = ground (arith, starts_with-append t b)

contains-append : (a t b : Str) → contains t (a ++ (t ++ b)) ≡ true
unfolding contains starts_with
contains-append [] [] [] = refl
contains-append [] [] (c ∷ b) = refl
contains-append [] (c ∷ t) b = ground (arith, starts_with-append t b)
contains-append (c ∷ a) t b = ground (arith, contains-append a t b)

-- A record is accepted wherever the target stands in it: also in the middle of the name of another
-- host.
pub propagated-append :
    (F : Type 0) (a target b : Str) (c : ℕ)
    → propagated {F = F} (str target) (c ∷ (a ++ (target ++ b))) ≡ Json.ok true
unfolding propagated is_in
propagated-append F a target b c = ap Json.ok (contains-append (c ∷ a) target b)
