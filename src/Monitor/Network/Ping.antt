-- ===== src/Monitor/Network/Ping.antt =====
-- How often and how long `ping_worker` tries.
use supercluster.Prelude.{
  ℕ, zero, suc, ◌+◌, ◌-◌, ◌*◌, ◌<◌, ◌≡◌, refl, ap, ap₂, ◌∙◌, arith, Bool, true, false,
}
use supercluster.Prelude.Text.{Str}
use supercluster.Monitor.World.{World, ok, sleep}
use supercluster.Monitor.Network.{
  Config, Network, worker_dns, request, ping_attempts, ping_worker, ping_delay,
}

module _ (net : Network) where
  -- The first answer comes to request number `k`, counted from 0.
  abbrev pub FirstAnswer : ℕ → Str → ℕ → Type 0
  FirstAnswer asked host k =
      (net.answers (asked + k) host ≡ true)
      × ((i : ℕ) → i < k → net.answers (asked + i) host ≡ false)

  -- None of the next `retries` requests is answered.
  abbrev pub Silent : ℕ → Str → ℕ → Type 0
  Silent asked host retries = (i : ℕ) → i < retries → net.answers (asked + i) host ≡ false

  answers_at :
      (a b : ℕ) (host : Str) {x : Bool} → a ≡ b → net.answers b host ≡ x → net.answers a host ≡ x
  answers_at a b host e h = ap (λ n. net.answers n host) e ∙ h

  Silent-later :
      (a retries : ℕ) (host : Str) → Silent a host (suc retries) → Silent (a + 1) host retries
  Silent-later a retries host h i l =
      answers_at (a + 1 + i) (a + suc i) host (omega arith) (h (suc i) (omega arith))

  FirstAnswer-later :
      (a k : ℕ) (host : Str) → FirstAnswer a host (suc k) → FirstAnswer (a + 1) host k
  FirstAnswer-later a k host h =
      (answers_at (a + 1 + k) (a + suc k) host (omega arith) h.0, Silent-later a k host h.1)

  now : (a : ℕ) (host : Str) {x : Bool} → net.answers (a + 0) host ≡ x → net.answers a host ≡ x
  now a host h = answers_at a (a + 0) host (omega arith) h

module _ {Db : Type 0} (c : Config) (net : Network) where
  -- The world after some requests and some pauses.
  abbrev after : ℕ → ℕ → World Db → World Db
  after asks pauses w = record w { asked = w.asked + asks; slept = w.slept + ping_delay * pauses }

  one_failed :
      (left attempt retries : ℕ) (host : Str) (w : World Db)
      → net.answers w.asked host ≡ false
      → attempt < retries
      → ping_attempts c net (suc left) attempt retries host w
        ≡ ping_attempts c net left (attempt + 1) retries host (after 1 1 w)
  unfolding ping_attempts request sleep
  one_failed left attempt retries host w e h = ground arith

  last_failed :
      (attempt retries : ℕ) (host : Str) (w : World Db)
      → net.answers w.asked host ≡ false
      → attempt ≡ retries
      → ping_attempts c net 1 attempt retries host w ≡ (ok false, after 1 0 w)
  unfolding ping_attempts request sleep
  last_failed attempt retries host w e q = ground arith

  one_answered :
      (left attempt retries : ℕ) (host : Str) (w : World Db)
      → net.answers w.asked host ≡ true
      → ping_attempts c net (suc left) attempt retries host w ≡ (ok true, after 1 0 w)
  unfolding ping_attempts request sleep
  one_answered left attempt retries host w e = ground arith

  after-after :
      (a p b q a' p' : ℕ) (w : World Db)
      → a + b ≡ a'
      → p + q ≡ p'
      → after b q (after a p w) ≡ after a' p' w
  after-after a p b q a' p' w e f =
      ap₂ (λ m n. record w { asked = m; slept = n }) (omega arith) (omega arith)

  attempts-first :
      (left attempt retries k : ℕ) (host : Str) (w : World Db)
      → left + attempt ≡ retries + 1
      → k < left
      → FirstAnswer net w.asked host k
      → ping_attempts c net left attempt retries host w ≡ (ok true, after (k + 1) k w)
  attempts-first zero attempt retries k host w e l h = absurd (omega arith)
  attempts-first (suc left) attempt retries zero host w e l h =
      one_answered left attempt retries host w (now net w.asked host h.0)
  attempts-first (suc left) attempt retries (suc k) host w e l h =
      one_failed left attempt retries host w (now net w.asked host (h.1 0 (omega arith)))
        (omega arith)
      ∙ attempts-first left (attempt + 1) retries k host (after 1 1 w) (omega arith) (omega arith)
          (FirstAnswer-later net w.asked k host h)
      ∙ ap (λ v. (ok true, v))
          (after-after 1 1 (k + 1) k (suc k + 1) (suc k) w (omega arith) (omega arith))

  attempts-Silent :
      (left attempt : ℕ) (host : Str) (w : World Db)
      → Silent net w.asked host (suc left)
      → ping_attempts c net (suc left) attempt (left + attempt) host w
        ≡ (ok false, after (suc left) left w)
  attempts-Silent zero attempt host w h =
      last_failed attempt (0 + attempt) host w (now net w.asked host (h 0 (omega arith)))
        (omega arith)
  attempts-Silent (suc left) attempt host w h =
      one_failed (suc left) attempt (suc left + attempt) host w
        (now net w.asked host (h 0 (omega arith))) (omega arith)
      ∙ ap (λ r. ping_attempts c net (suc left) (attempt + 1) r host (after 1 1 w)) (omega arith)
      ∙ attempts-Silent left (attempt + 1) host (after 1 1 w)
          (Silent-later net w.asked (suc left) host h)
      ∙ ap (λ v. (ok false, v))
          (after-after 1 1 (suc left) left (suc (suc left)) (suc left) w (omega arith)
            (omega arith))

  -- If the first answer comes to attempt number `k`, counted from 0, and `k` is below the number of
  -- attempts, the worker counts as reachable after `k + 1` requests and `k` pauses of 30 seconds.
  pub ping_worker-first :
      (pod : Str) (retries k : ℕ) (w : World Db)
      → k < retries
      → FirstAnswer net w.asked (worker_dns c pod) k
      → ping_worker c net pod retries w
        ≡ (ok true, record w { asked = w.asked + (k + 1); slept = w.slept + 30 * k })
  unfolding ping_worker
  ping_worker-first pod retries k w l h =
      attempts-first retries 1 retries k (worker_dns c pod) w refl l h

  -- If none of the attempts is answered, of which there is at least one, the worker counts as
  -- unreachable after all of them, with a pause of 30 seconds between two but none after the last.
  pub ping_worker-Silent :
      (pod : Str) (retries : ℕ) (w : World Db)
      → 0 < retries
      → Silent net w.asked (worker_dns c pod) retries
      → ping_worker c net pod retries w
        ≡ (ok false, record w { asked = w.asked + retries; slept = w.slept + 30 * (retries - 1) })
  unfolding ping_worker
  ping_worker-Silent pod zero w l h = absurd (omega arith)
  ping_worker-Silent pod (suc left) w l h =
      ap (λ r. ping_attempts c net (suc left) 1 r (worker_dns c pod) w) (omega arith)
      ∙ attempts-Silent left 1 (worker_dns c pod) w h
      ∙ ap (λ n. (ok false, record w { asked = w.asked + suc left; slept = w.slept + 30 * n }))
          (omega arith)
