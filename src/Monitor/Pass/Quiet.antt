-- ===== src/Monitor/Pass/Quiet.antt =====
-- The phases of a pass with no worker at the queues, where no worker answers.
use supercluster.Prelude.{
  ℕ, ◌+◌, ◌<◌, ◌≡◌, refl, ap, ◌∙◌, arith, true, false, List, [], ◌∷◌, if◌then◌else◌,
}
use supercluster.Prelude.Text.{Str}
use supercluster.Prelude.Lists.{length}
use supercluster.Prelude.Sets.{minus}
use supercluster.Monitor.Redis.{Redis}
use supercluster.Monitor.Redis.Keys.{View, retiring_key}
use supercluster.Monitor.World.{World, ok, pure, ask}
use supercluster.Monitor.World.Calls.{Ends, Ends-mono, Ends-bind, call_quiet}
use supercluster.Monitor.Network.{Config, Network, worker_dns, ping_worker, ping_retries}
use supercluster.Monitor.Network.Ping.{ping_worker-Silent}
use supercluster.Monitor.Surplus.{
  candidates, keep, choose_to_mark, sadd_all, send_marks, mark_surplus,
}
use supercluster.Monitor.Surplus.Spared.{SameStore, Spares, choose_to_mark-Spares}
use supercluster.Monitor.Pass.{with_status, check_workers, any_recovered}

module _ (r : Redis) where
  open r use {Db, view}

  -- No worker will act, and the queues, the owners and the failed jobs are as before.
  abbrev pub SameQueues : World Db → World Db → Type 0
  SameQueues w w' =
      (w'.slots ≡ [])
      × ((view w'.db).jobs ≡ (view w.db).jobs)
      × ((view w'.db).progress ≡ (view w.db).progress)
      × ((view w'.db).owners ≡ (view w.db).owners)
      × (w'.retried ≡ w.retried)
      × ((view w'.db).failed ≡ (view w.db).failed)

  pub SameQueues-trans : (u v w : World Db) → SameQueues u v → SameQueues v w → SameQueues u w
  SameQueues-trans u v w (s, j, p, o, n, f) (s', j', p', o', n', f') =
      (s', j' ∙ j, p' ∙ p, o' ∙ o, n' ∙ n, f' ∙ f)

  pub ask_quiet :
      {A : Type 0} (f : Db → A) (w : World Db) → w.slots ≡ [] → ask r f w ≡ (ok (f w.db), w)
  ask_quiet f w e = call_quiet r (λ db. (f db, db)) w e

  sadd_all-queues :
      (ws : List Str) (db : Db)
      → ((view (sadd_all r ws db)).jobs ≡ (view db).jobs)
        × ((view (sadd_all r ws db)).progress ≡ (view db).progress)
        × ((view (sadd_all r ws db)).owners ≡ (view db).owners)
        × ((view (sadd_all r ws db)).failed ≡ (view db).failed)
  unfolding sadd_all
  sadd_all-queues [] db = (refl, refl, refl, refl)
  sadd_all-queues (x ∷ ws) db =
      let (j, p, o, f) = sadd_all-queues ws (r.sadd retiring_key x db) in
      let e = r.sadd_view retiring_key x db in
      (
        j ∙ ap (λ (v : View). v.jobs) e,
        p ∙ ap (λ (v : View). v.progress) e,
        o ∙ ap (λ (v : View). v.owners) e,
        f ∙ ap (λ (v : View). v.failed) e,
      )

  send_marks_quiet :
      (ws : List Str) (w : World Db)
      → w.slots ≡ []
      → Ends (λ _ w'. SameQueues w w') (send_marks r ws w)
  unfolding send_marks
  send_marks_quiet [] w e = (e, refl, refl, refl, refl, refl)
  send_marks_quiet (x ∷ ws) w e =
      let (j, p, o, f) = sadd_all-queues (x ∷ ws) w.db in
      rw (call_quiet r (λ db. (tt, sadd_all r (x ∷ ws) db)) w e) (e, j, p, o, refl, f)

module _ (r : Redis) (c : Config) (net : Network) where
  open r use {Db, view, smembers}

  same_store :
      (w w1 w2 : World Db) → w.slots ≡ [] → w1 ≡ w → SameStore c net w1 w2 → SameQueues r w w2
  same_store w w1 w2 e q (d, s, t) = (
    s ∙ ap (λ (u : World Db). u.slots) q ∙ e,
    ap (λ db. (view db).jobs) d ∙ ap (λ (u : World Db). (view u.db).jobs) q,
    ap (λ db. (view db).progress) d ∙ ap (λ (u : World Db). (view u.db).progress) q,
    ap (λ db. (view db).owners) d ∙ ap (λ (u : World Db). (view u.db).owners) q,
    t ∙ ap (λ (u : World Db). u.retried) q,
    ap (λ db. (view db).failed) d ∙ ap (λ (u : World Db). (view u.db).failed) q,
  )

  pub mark_surplus_quiet :
      (active down : List Str) (n : ℕ) (w : World Db)
      → w.slots ≡ []
      → Ends (λ _ w'. SameQueues r w w') (mark_surplus r c net active down n w)
  unfolding mark_surplus
  mark_surplus_quiet active down n w e =
      Ends-bind (λ retiring w1. w1 ≡ w) (λ _ w'. SameQueues r w w') (ask r (smembers retiring_key))
        _ w (rw (ask_quiet r (smembers retiring_key) w e) refl)
        (λ retiring w1 q.
          Ends-bind (λ _ w2. SameQueues r w w2) (λ _ w'. SameQueues r w w')
            (choose_to_mark c net (length (minus (minus active retiring) down)) (keep c n)
              (candidates c active retiring))
            _ w1 (chosen retiring w1 q)
            (λ to_mark w2 q2.
              Ends-bind (λ _ w3. SameQueues r w2 w3) (λ _ w'. SameQueues r w w')
                (send_marks r to_mark) _ w2 (send_marks_quiet r to_mark w2 q2.0)
                (λ _ w3 q3. SameQueues-trans r w w2 w3 q2 q3)))
    where
      chosen :
          (retiring : List Str) (w1 : World Db)
          → w1 ≡ w
          → Ends
              (λ _ w2. SameQueues r w w2)
              (choose_to_mark c net
                (length (minus (minus active retiring) down))
                (keep c n)
                (candidates c active retiring)
                w1)
      chosen retiring w1 q =
          let l = length (minus (minus active retiring) down) in
          let ws = candidates c active retiring in
          Ends-mono (λ to_mark w2. SameStore c net w1 w2 × Spares l (keep c n) ws to_mark)
            (λ _ w2. SameQueues r w w2) (λ _ w2 h. same_store w w1 w2 e q h.0)
            (choose_to_mark c net l (keep c n) ws w1)
            (choose_to_mark-Spares c net l (keep c n) ws w1)

  -- No request to a worker is answered.
  abbrev pub AllSilent : Type 0
  AllSilent = (i : ℕ) (host : Str) → net.answers i host ≡ false

  ping_silent :
      (pod : Str) (retries : ℕ) (w : World Db)
      → 0 < retries
      → AllSilent
      → w.slots ≡ []
      → Ends (λ up w'. (up ≡ false) × SameQueues r w w') (ping_worker c net pod retries w)
  ping_silent pod retries w l silent e =
      rw (ping_worker-Silent c net pod retries w l (λ i _. silent (w.asked + i) (worker_dns c pod)))
        (refl, (e, refl, refl, refl, refl, refl))

  pub check_silent :
      (pods : List Str) (w : World Db)
      → AllSilent
      → w.slots ≡ []
      → Ends
          (λ st w'.
            ((with_status true st ≡ []) × (length (with_status false st) ≡ length pods))
            × SameQueues r w w')
          (check_workers r c net pods w)
  unfolding check_workers with_status
  check_silent [] w silent e = ((refl, refl), (e, refl, refl, refl, refl, refl))
  check_silent (pod ∷ pods) w silent e =
      Ends-bind (λ up w'. (up ≡ false) × SameQueues r w w') _ (ping_worker c net pod 1) _ w
        (ping_silent pod 1 w (omega arith) silent e)
        (λ up w1 (t, q1).
          Ends-bind
            (λ st w2.
              ((with_status true st ≡ []) × (length (with_status false st) ≡ length pods))
              × SameQueues r w1 w2)
            _ (check_workers r c net pods) (λ rest. pure ((pod, up) ∷ rest)) w1
            (check_silent pods w1 silent q1.0)
            (λ st w2 ((u, d), q2).
              ((ground arith, ground arith), SameQueues-trans r w w1 w2 q1 q2)))

  pub recovered_silent :
      (pods : List Str) (w : World Db)
      → AllSilent
      → w.slots ≡ []
      → Ends (λ b w'. (b ≡ false) × SameQueues r w w') (any_recovered r c net pods w)
  unfolding any_recovered
  recovered_silent [] w silent e = (refl, (e, refl, refl, refl, refl, refl))
  recovered_silent (pod ∷ pods) w silent e =
      Ends-bind (λ up w'. (up ≡ false) × SameQueues r w w')
        (λ b w'. (b ≡ false) × SameQueues r w w') (ping_worker c net pod ping_retries)
        (λ up. if up then pure true else any_recovered r c net pods) w
        (ping_silent pod ping_retries w (omega arith) silent e)
        (λ up w1 (t, q1). rw t (
          Ends-mono (λ b w'. (b ≡ false) × SameQueues r w1 w')
            (λ b w'. (b ≡ false) × SameQueues r w w')
            (λ b w2 (s, q2). (s, SameQueues-trans r w w1 w2 q1 q2)) (any_recovered r c net pods w1)
            (recovered_silent pods w1 silent q1.0)))
