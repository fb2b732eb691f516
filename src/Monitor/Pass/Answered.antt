-- ===== src/Monitor/Pass/Answered.antt =====
-- Phase 3 while a worker that owns a job answers.
use supercluster.Prelude.{
  ℕ, zero, suc, ◌+◌, ◌≡◌, refl, ap, sym, ◌∙◌, arith, Bool, true, false, List, [], ◌∷◌, ltb,
  if◌then◌else◌, Bool-cases, inl, inr,
}
use supercluster.Prelude.Text.{Str, str_eq, str_eq_iff}
use supercluster.Prelude.Dict.{Dict}
use supercluster.Prelude.Sets.{elem}
use supercluster.Monitor.Redis.{Redis}
use supercluster.Monitor.World.{World, pure, ◌>>◌, sleep}
use supercluster.Monitor.World.Calls.{Ends, Ends-bind}
use supercluster.Monitor.Network.{
  Config, Network, worker_dns, request, ping_attempts, ping_worker, ping_delay, ping_retries,
}
use supercluster.Monitor.Network.Ping.{ping_worker-first}
use supercluster.Monitor.Requeue.{retry_jobs_in_progress}
use supercluster.Monitor.Pass.{any_recovered, retry_stuck, drop_owners}

module _ (r : Redis) (c : Config) (net : Network) where
  open r use {Db}

  -- No command was sent.
  abbrev pub Untouched : World Db → World Db → Type 0
  Untouched w w' = (w'.db ≡ w.db) × (w'.slots ≡ w.slots) × (w'.retried ≡ w.retried)

  after_answer :
      (left attempt retries : ℕ) (host : Str) (w0 w1 : World Db) (up more : Bool)
      → Untouched w0 w1
      → Ends (λ _ w'. Untouched w0 w') (ping_attempts c net left (attempt + 1) retries host w1)
      → Ends
          (λ _ w'. Untouched w0 w')
          (ping_attempts c net left
            (attempt + 1)
            retries
            host
            (record w1 { slept = w1.slept + ping_delay }))
      → Ends
          (λ _ w'. Untouched w0 w')
          ((if up
              then pure true
              else if more
              then sleep ping_delay >> ping_attempts c net left (attempt + 1) retries host
              else ping_attempts c net left (attempt + 1) retries host)
            w1)
  unfolding sleep
  after_answer left attempt retries host w0 w1 true more u h k = u
  after_answer left attempt retries host w0 w1 false true u h k = k
  after_answer left attempt retries host w0 w1 false false u h k = h

  either :
      (up : Bool) (pods : List Str) (w0 w : World Db)
      → Untouched w0 w
      → Ends (λ b w'. (b ≡ true) × Untouched w0 w') (any_recovered r c net pods w)
      → Ends
          (λ b w'. (b ≡ true) × Untouched w0 w')
          ((if up then pure true else any_recovered r c net pods) w)
  either true pods w0 w u h = (refl, u)
  either false pods w0 w u h = h

  attempts-Untouched :
      (left attempt retries : ℕ) (host : Str) (w0 w : World Db)
      → Untouched w0 w
      → Ends (λ _ w'. Untouched w0 w') (ping_attempts c net left attempt retries host w)
  unfolding ping_attempts request sleep
  attempts-Untouched zero attempt retries host w0 w u = u
  attempts-Untouched (suc left) attempt retries host w0 w u =
      after_answer left attempt retries host w0 (record w { asked = w.asked + 1 })
        (net.answers w.asked host) (ltb attempt retries) u
        (attempts-Untouched left (attempt + 1) retries host w0 (record w { asked = w.asked + 1 }) u)
        (attempts-Untouched left (attempt + 1) retries host w0
          (record w { asked = w.asked + 1; slept = w.slept + ping_delay }) u)

  pub ping-Untouched :
      (pod : Str) (retries : ℕ) (w0 w : World Db)
      → Untouched w0 w
      → Ends (λ _ w'. Untouched w0 w') (ping_worker c net pod retries w)
  unfolding ping_worker
  ping-Untouched pod retries w0 w u = attempts-Untouched retries 1 retries (worker_dns c pod) w0 w u

  -- A worker that answers every request.
  abbrev pub Answers : Str → Type 0
  Answers pod = (i : ℕ) → net.answers i (worker_dns c pod) ≡ true

  ping-Answers :
      (pod : Str) (w0 w : World Db)
      → Answers pod
      → Untouched w0 w
      → Ends (λ up w'. (up ≡ true) × Untouched w0 w') (ping_worker c net pod ping_retries w)
  ping-Answers pod w0 w h u =
      rw
        (ping_worker-first c net pod ping_retries 0 w (omega arith)
          (h (w.asked + 0), λ i l. absurd (omega arith)))
        (refl, u)

  recovered-Answers :
      (pod : Str) (pods : List Str) (w0 w : World Db)
      → elem pod pods ≡ true
      → Answers pod
      → Untouched w0 w
      → Ends (λ b w'. (b ≡ true) × Untouched w0 w') (any_recovered r c net pods w)
  unfolding any_recovered elem
  recovered-Answers pod [] w0 w e h u = cc
  recovered-Answers pod (x ∷ pods) w0 w e h u = elim (Bool-cases (str_eq pod x)) [
    | inl q ↦
        Ends-bind (λ up w'. (up ≡ true) × Untouched w0 w') (λ b w'. (b ≡ true) × Untouched w0 w')
          (ping_worker c net x ping_retries)
          (λ up. if up then pure true else any_recovered r c net pods) w
          (ping-Answers x w0 w
            (λ i. ap (λ p. net.answers i (worker_dns c p)) (sym ((str_eq_iff pod x).0 q)) ∙ h i) u)
          (λ up w' (t, v). rw t (refl, v))
    | inr q ↦
        Ends-bind (λ _ w'. Untouched w0 w') (λ b w'. (b ≡ true) × Untouched w0 w')
          (ping_worker c net x ping_retries)
          (λ up. if up then pure true else any_recovered r c net pods) w
          (ping-Untouched x ping_retries w0 w u)
          (λ up w' v. either up pods w0 w' v (recovered-Answers pod pods w0 w' (ground arith) h v))
  ]

  -- If one of the active workers answers every request, phase 3 returns without a command to Redis:
  -- no job is taken from a worker, and none is counted as retried.
  pub retry_stuck-Answers :
      (fuel : ℕ) (stuck : Bool) (active : List Str) (owners : Dict Str) (pod : Str) (w : World Db)
      → elem pod active ≡ true
      → Answers pod
      → Ends (λ _ w'. Untouched w w') (retry_stuck r c net fuel stuck active owners w)
  unfolding retry_stuck
  retry_stuck-Answers fuel false active owners pod w e h = (refl, refl, refl)
  retry_stuck-Answers fuel true active owners pod w e h =
      Ends-bind (λ b w'. (b ≡ true) × Untouched w w') (λ _ w'. Untouched w w')
        (any_recovered r c net active)
        (λ b. if b then pure tt else retry_jobs_in_progress r fuel >> drop_owners r c net owners) w
        (recovered-Answers pod active w w e h (refl, refl, refl)) (λ b w' (t, v). rw t v)
