-- ===== src/Monitor/Pass/Finished.antt =====
-- What the two counts of phase 1 say about the jobs. The driver ends the mission when the status
-- has no remaining job and none in progress.
use mathlib.Core.Path.{subst}
use supercluster.Prelude.{
  ℕ, ◌+◌, ◌<◌, ◌≡◌, ap, sym, arith, true, ◌⊎◌, inl, inr, List, [], ◌∷◌, Bool-cases,
}
use supercluster.Prelude.Text.{Str}
use supercluster.Prelude.Lists.{length}
use supercluster.Prelude.Sets.{elem}
use supercluster.Monitor.Redis.{Redis}
use supercluster.Monitor.Redis.Keys.{View, job_queue, progress_queue, success_queue, failed_queue}
use supercluster.Monitor.Worker.{WorkerStep, worker_steps}
use supercluster.Monitor.Worker.Kept.{tracked, worker_steps-tracked}
use supercluster.Monitor.Worker.Started.{started, ended, worker_steps-ended, worker_steps-started}
use supercluster.Monitor.World.{World, ask}
use supercluster.Monitor.World.Calls.{IsUp, Ends, Ends-bind, call-Ends}
use supercluster.Monitor.Network.{Config, Network}
use supercluster.Monitor.Pass.{read_queues}

length_pos : (j : Str) (l : List Str) → elem j l ≡ true → 0 < length l
unfolding elem
length_pos j [] h = cc
length_pos j (x ∷ l) h = omega arith

waiting_or_started :
    (j : Str) (v : View) → tracked j v ≡ true → (0 < length v.jobs) ⊎ (started j v ≡ true)
unfolding tracked started ended
waiting_or_started j v h = elim (Bool-cases (elem j v.jobs)) [
  | inl e ↦ inl (length_pos j v.jobs e)
  | inr e ↦ inr (ground arith)
]

running_or_ended :
    (j : Str) (v : View) → started j v ≡ true → (0 < length v.progress) ⊎ (ended j v ≡ true)
unfolding started
running_or_ended j v h = elim (Bool-cases (elem j v.progress)) [
  | inl e ↦ inl (length_pos j v.progress e)
  | inr e ↦ inr (ground arith)
]

module _ (r : Redis) (c : Config) (net : Network) (j : Str) where
  open r use {Db, view, llen, scard, smembers, lrange, hgetall}

  -- The count `n` is not 0, or the job has been claimed; the same with ended.
  abbrev CountedOrStarted : ℕ → Db → Type 0
  CountedOrStarted n db = (0 < n) ⊎ (started j (view db) ≡ true)

  abbrev CountedOrEnded : ℕ → Db → Type 0
  CountedOrEnded n db = (0 < n) ⊎ (ended j (view db) ≡ true)

  started_stays :
      (n : ℕ) (ss : List WorkerStep) (db : Db)
      → CountedOrStarted n db
      → CountedOrStarted n (worker_steps r ss db)
  started_stays n ss db (inl h) = inl h
  started_stays n ss db (inr h) = inr (worker_steps-started r j ss db h)

  ended_stays :
      (n : ℕ) (ss : List WorkerStep) (db : Db)
      → CountedOrEnded n db
      → CountedOrEnded n (worker_steps r ss db)
  ended_stays n ss db (inl h) = inl h
  ended_stays n ss db (inr h) = inr (worker_steps-ended r j ss db h)

  -- A command that changes nothing, between two facts about the store.
  asked :
      {A : Type 0} (f : Db → A) (P : Db → Type 0) (Q : A → Db → Type 0)
      → ((ss : List WorkerStep) (db : Db) → P db → P (worker_steps r ss db))
      → ((db : Db) → P db → Q (f db) db)
      → (w : World Db) → IsUp w
      → P w.db
      → Ends (λ a w'. IsUp w' × Q a w'.db) (ask r f w)
  asked f P Q stable step = call-Ends r (λ db. (f db, db)) P Q stable step

  count_waiting : (db : Db) → tracked j (view db) ≡ true → CountedOrStarted (llen job_queue db) db
  count_waiting db h =
      subst (λ n. CountedOrStarted n db) (sym (r.llen_reply job_queue db))
        (waiting_or_started j (view db) h)

  count_running :
      (n : ℕ) (db : Db)
      → CountedOrStarted n db
      → CountedOrEnded (n + length (lrange progress_queue db)) db
  count_running n db (inl h) = inl (omega arith)
  count_running n db (inr h) = elim (running_or_ended j (view db) h) [
    | inl p ↦ inl (omega (arith, ap length (r.lrange_reply progress_queue db)))
    | inr e ↦ inr e
  ]

  -- While Redis answers every command the first time, phase 1 returns, whatever the workers do
  -- meanwhile. A job that was tracked before has ended at the end of it, unless one of the two
  -- counts, of the jobs that remain and of those in progress, is above 0.
  pub read_queues-ended :
      (w : World Db)
      → IsUp w
      → tracked j (view w.db) ≡ true
      → Ends
          (λ q w'.
            IsUp w' × ((0 < q.remain + length q.in_progress) ⊎ (ended j (view w'.db) ≡ true)))
          (read_queues r c net w)
  unfolding read_queues
  read_queues-ended w up h =
      Ends-bind (λ n w1. IsUp w1 × CountedOrStarted n w1.db) _ (ask r (llen job_queue)) _ w
        (asked (llen job_queue) (λ db. tracked j (view db) ≡ true) CountedOrStarted
          (λ ss db. worker_steps-tracked r ss j db) count_waiting w up h)
        (λ n w1 (up1, h1).
          Ends-bind (λ _ w2. IsUp w2 × CountedOrStarted n w2.db) _ (ask r (scard success_queue)) _
            w1
            (asked (scard success_queue) (CountedOrStarted n) (λ _. CountedOrStarted n)
              (started_stays n) (λ db p. p) w1 up1 h1)
            (λ _ w2 (up2, h2).
              Ends-bind (λ _ w3. IsUp w3 × CountedOrStarted n w3.db) _
                (ask r (smembers failed_queue)) _ w2
                (asked (smembers failed_queue) (CountedOrStarted n) (λ _. CountedOrStarted n)
                  (started_stays n) (λ db p. p) w2 up2 h2)
                (λ _ w3 (up3, h3).
                  Ends-bind (λ l w4. IsUp w4 × CountedOrEnded (n + length l) w4.db) _
                    (ask r (lrange progress_queue)) _ w3
                    (asked (lrange progress_queue) (CountedOrStarted n)
                      (λ l. CountedOrEnded (n + length l)) (started_stays n) (count_running n) w3
                      up3 h3)
                    (λ l w4 (up4, h4).
                      Ends-bind (λ _ w5. IsUp w5 × CountedOrEnded (n + length l) w5.db) _
                        (ask r hgetall) _ w4
                        (asked hgetall (CountedOrEnded (n + length l))
                          (λ _. CountedOrEnded (n + length l)) (ended_stays (n + length l))
                          (λ db p. p) w4 up4 h4)
                        (λ _ w5 h5. h5)))))
