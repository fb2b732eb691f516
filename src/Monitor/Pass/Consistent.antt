-- ===== src/Monitor/Pass/Consistent.antt =====
-- What holds of the status that a pass computes, whatever fails.
pub mod Shown
use mathlib.Core.Path.{subst}
use supercluster.Prelude.{
  ℕ, zero, suc, ◌+◌, ◌≤◌, ◌≡◌, refl, ap, sym, ◌∙◌, arith, Bool, true, false, not, ◌&&◌, List, [],
  ◌∷◌, ◌++◌, map, Option, none, some, Option-cases, ◌⊎◌, inl, inr,
}
use supercluster.Prelude.Text.{Str, codes}
use supercluster.Prelude.Lists.{length, length-append}
use supercluster.Prelude.Sets.{elem, minus, sorted, elem-sorted, elem-minus}
use supercluster.Python.Number.{Number}
use supercluster.Python.Split.{split}
use supercluster.Monitor.Redis.{Redis}
use supercluster.Monitor.Redis.Keys.{retiring_key, metrics_key}
use supercluster.Monitor.World.{
  World, Reply, ok, raised, unfinished, Action, next, pure, ◌>>=◌, ◌>>◌, call, ask,
}
use supercluster.Monitor.World.Given.{Given, Given-bind, Given-any}
use supercluster.Monitor.Network.{Config, Network, ping_worker}
use supercluster.Monitor.Surplus.{choose_to_mark, keep, candidates, send_marks, mark_surplus}
use supercluster.Monitor.Pass.{
  Queues, Status, WorkerStatus, with_status, active_workers, read_queues, requeue_orphans,
  check_workers, looks_stuck, retry_stuck, status_of, check_and_retry, read_status,
}

-- If the action returned a value, `P` holds of it.
abbrev pub Gives : {Db A : Type 0} → (A → Type 0) → Reply A × World Db → Type 0
Gives P x = Given (λ a _. P a) x

Gives-bind :
    {Db A B : Type 0} (P : A → Type 0) (Q : B → Type 0) (m : Action Db A) (f : A → Action Db B)
    (w : World Db)
    → Gives P (m w)
    → ((a : A) (w' : World Db) → P a → Gives Q (f a w'))
    → Gives Q ((m >>= f) w)
Gives-bind P Q m f w = Given-bind (λ a _. P a) (λ b _. Q b) m f w

-- What follows any value.
Gives-then :
    {Db A B : Type 0} (Q : B → Type 0) (m : Action Db A) (f : A → Action Db B) (w : World Db)
    → ((a : A) (w' : World Db) → Gives Q (f a w'))
    → Gives Q ((m >>= f) w)
Gives-then Q m f w k = Gives-bind (λ _. Unit {0}) Q m f w (Given-any (m w)) (λ a w' _. k a w')

with_status-length :
    (l : List WorkerStatus) → length (with_status true l) + length (with_status false l) ≡ length l
unfolding with_status
with_status-length [] = refl
with_status-length ((p, true) ∷ l) = ground (arith, with_status-length l)
with_status-length ((p, false) ∷ l) = ground (arith, with_status-length l)

module _ (x : Str) where
  -- `x` is not both retirable and a worker that owns a job, and the counts are those of the lists.
  abbrev pub IsSound : Status → Type 0
  IsSound s =
      (s.num_remain ≡ s.queue_remain_count)
      × (s.queue_failed_count ≡ length s.jobs_failed)
      × (s.queue_in_progress_count ≡ length s.jobs_in_progress)
      × (s.workers_up + s.workers_down ≡ length s.workers)
      × ((elem x s.retirable && elem x (map (λ (p : WorkerStatus). p.0) s.workers)) ≡ false)

  module _ (r : Redis) (c : Config) (net : Network) where
    open r use {smembers}

    check_workers-Gives :
        (pods : List Str) (w : World r.Db)
        → Gives (λ st. map (λ (p : WorkerStatus). p.0) st ≡ pods) (check_workers r c net pods w)
    unfolding check_workers
    check_workers-Gives [] w = refl
    check_workers-Gives (pod ∷ pods) w =
        Gives-then (λ st. map (λ (p : WorkerStatus). p.0) st ≡ pod ∷ pods) (ping_worker c net pod 1)
          _ w
          (λ up w1.
            Gives-bind (λ st. map (λ (p : WorkerStatus). p.0) st ≡ pods)
              (λ st. map (λ (p : WorkerStatus). p.0) st ≡ pod ∷ pods) (check_workers r c net pods)
              (λ rest. pure ((pod, up) ∷ rest)) w1 (check_workers-Gives pods w1)
              (λ st w2 h. ap (λ l. pod ∷ l) h))

    mark_surplus-Gives :
        (active down : List Str) (outstanding : ℕ) (w : World r.Db)
        → Gives
            (λ l. (elem x l && elem x active) ≡ false)
            (mark_surplus r c net active down outstanding w)
    unfolding mark_surplus
    mark_surplus-Gives active down outstanding w =
        let Q : List Str → Type 0 = λ l. (elem x l && elem x active) ≡ false in
        Gives-then Q (ask r (smembers retiring_key)) _ w (λ retiring w1.
          Gives-then Q
            (choose_to_mark c net (length (minus (minus active retiring) down)) (keep c outstanding)
              (candidates c active retiring))
            _ w1
            (λ to_mark w2. Gives-then Q (send_marks r to_mark) _ w2 (λ _ w3.
              ground (arith, elem-sorted x (minus retiring active), elem-minus x retiring active))))

    pub read_status-IsSound :
        (fuel : ℕ) (w : World r.Db) → Gives IsSound (read_status r c net fuel w)
    unfolding read_status check_and_retry
    read_status-IsSound fuel w = Gives-then IsSound (read_queues r c net) _ w (λ q0 w0.
        Gives-then IsSound (requeue_orphans r c net q0) _ w0 (λ q w1.
          Gives-bind (λ st. map (λ (p : WorkerStatus). p.0) st ≡ active_workers net q.owners)
            IsSound (check_workers r c net (active_workers net q.owners)) _ w1
            (check_workers-Gives (active_workers net q.owners) w1)
            (λ st w2 e.
              Gives-bind (λ l. (elem x l && elem x (active_workers net q.owners)) ≡ false) IsSound
                (mark_surplus r c net (active_workers net q.owners) (with_status false st)
                  (q.remain + length q.in_progress))
                _ w2 (mark_surplus-Gives _ _ _ w2)
                (λ l w3 h.
                  Gives-then IsSound
                    (retry_stuck r c net fuel (looks_stuck r c net st q.in_progress)
                      (active_workers net q.owners) q.owners)
                    (λ _. pure (status_of r c net q st l)) w3
                    (λ _ w4. (refl, refl, refl, with_status-length st, rw e h))))))
