-- ===== src/Monitor/Pass/Undisturbed/Checked.antt =====
-- Phase 2 while a worker that owns a job answers.
use supercluster.Prelude.{
  ◌+◌, ◌<◌, ◌≡◌, refl, ap, sym, ◌∙◌, arith, Bool, true, List, [], ◌∷◌, Bool-cases, inl, inr,
}
use supercluster.Prelude.Text.{Str, str_eq, str_eq_iff}
use supercluster.Prelude.Lists.{length}
use supercluster.Prelude.Sets.{elem}
use supercluster.Monitor.Redis.{Redis}
use supercluster.Monitor.World.{World, pure}
use supercluster.Monitor.World.Calls.{Ends, Ends-bind}
use supercluster.Monitor.Network.{Config, Network, worker_dns, ping_worker}
use supercluster.Monitor.Network.Ping.{ping_worker-first}
use supercluster.Monitor.Pass.{WorkerStatus, with_status, check_workers}
use supercluster.Monitor.Pass.Answered.{Untouched, Answers, ping-Untouched}

module _ (r : Redis) (c : Config) (net : Network) where
  open r use {Db}

  Untouched-trans :
      (u v w : World Db) → Untouched r c net u v → Untouched r c net v w → Untouched r c net u w
  Untouched-trans u v w (d, s, t) (d', s', t') = (d' ∙ d, s' ∙ s, t' ∙ t)

  -- How many workers are up, counted for one that is known.
  up_after :
      (x : Str) (up : Bool) (l : List WorkerStatus)
      → up ≡ true
      → 0 < length (with_status true ((x, up) ∷ l))
  unfolding with_status
  up_after x up l e = ground arith

  up_before :
      (x : Str) (up : Bool) (l : List WorkerStatus)
      → 0 < length (with_status true l)
      → 0 < length (with_status true ((x, up) ∷ l))
  unfolding with_status
  up_before x up l h = ground arith

  check_workers-Untouched :
      (pods : List Str) (w : World Db)
      → Ends (λ _ w'. Untouched r c net w w') (check_workers r c net pods w)
  unfolding check_workers
  check_workers-Untouched [] w = (refl, refl, refl)
  check_workers-Untouched (x ∷ pods) w =
      Ends-bind (λ _ w1. Untouched r c net w w1) _ (ping_worker c net x 1) _ w
        (ping-Untouched r c net x 1 w w (refl, refl, refl))
        (λ up w1 u.
          Ends-bind (λ _ w2. Untouched r c net w1 w2) _ (check_workers r c net pods)
            (λ rest. pure ((x, up) ∷ rest)) w1 (check_workers-Untouched pods w1)
            (λ st w2 v. Untouched-trans w w1 w2 u v))

  ping_once-Answers :
      (pod : Str) (w : World Db)
      → Answers r c net pod
      → Ends (λ up w'. (up ≡ true) × Untouched r c net w w') (ping_worker c net pod 1 w)
  ping_once-Answers pod w h =
      rw
        (ping_worker-first c net pod 1 0 w (omega arith)
          (h (w.asked + 0), λ i l. absurd (omega arith)))
        (refl, (refl, refl, refl))

  -- A worker that answers counts as running.
  pub check_workers-Answers :
      (pod : Str) (pods : List Str) (w : World Db)
      → elem pod pods ≡ true
      → Answers r c net pod
      → Ends
          (λ st w'. (0 < length (with_status true st)) × Untouched r c net w w')
          (check_workers r c net pods w)
  unfolding check_workers elem
  check_workers-Answers pod [] w e h = cc
  check_workers-Answers pod (x ∷ pods) w e h = elim (Bool-cases (str_eq pod x)) [
    | inl q ↦
        Ends-bind (λ up w1. (up ≡ true) × Untouched r c net w w1) _ (ping_worker c net x 1) _ w
          (ping_once-Answers x w
            (λ i. ap (λ p. net.answers i (worker_dns c p)) (sym ((str_eq_iff pod x).0 q)) ∙ h i))
          (λ up w1 (t, u).
            Ends-bind (λ _ w2. Untouched r c net w1 w2) _ (check_workers r c net pods)
              (λ rest. pure ((x, up) ∷ rest)) w1 (check_workers-Untouched pods w1)
              (λ st w2 v. (up_after x up st t, Untouched-trans w w1 w2 u v)))
    | inr q ↦
        Ends-bind (λ _ w1. Untouched r c net w w1) _ (ping_worker c net x 1) _ w
          (ping-Untouched r c net x 1 w w (refl, refl, refl))
          (λ up w1 u.
            Ends-bind (λ st w2. (0 < length (with_status true st)) × Untouched r c net w1 w2) _
              (check_workers r c net pods) (λ rest. pure ((x, up) ∷ rest)) w1
              (check_workers-Answers pod pods w1 (ground arith) h)
              (λ st w2 (k, v). (up_before x up st k, Untouched-trans w w1 w2 u v)))
  ]
