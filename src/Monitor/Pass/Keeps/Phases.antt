-- ===== src/Monitor/Pass/Keeps/Phases.antt =====
-- The phases of a pass keep what the commands on the store keep.
use supercluster.Prelude.{ℕ, zero, suc, ◌+◌, Bool, true, false, List, [], ◌∷◌, ltb, if◌then◌else◌}
use supercluster.Prelude.Text.{Str}
use supercluster.Prelude.Lists.{length}
use supercluster.Prelude.Dict.{Dict}
use supercluster.Monitor.Redis.{Redis}
use supercluster.Monitor.Redis.Keys.{
  job_queue, progress_queue, success_queue, failed_queue, retiring_key,
}
use supercluster.Monitor.World.{World, Action, pure, ◌>>=◌, ask, tell, count_retry, sleep}
use supercluster.Monitor.Network.{
  Config, Network, request, ping_attempts, ping_worker, pod_exists, ping_delay,
}
use supercluster.Monitor.Requeue.{requeue_job, retry_jobs_in_progress}
use supercluster.Monitor.Surplus.{existing, choose_to_mark, send_marks, mark_surplus}
use supercluster.Monitor.Pass.{
  Queues, orphans, active_workers, read_queues, requeue_all, requeue_rest, requeue_orphans,
  check_workers, any_recovered, drop_owners, retry_stuck, check_and_retry, read_status, looks_stuck,
  status_of,
}
use supercluster.Monitor.Pass.Keeps.{Keeps, Keeps-bind, Keeps-if, Primitives}

module _ (r : Redis) (Good Failed Stuck : World r.Db → Type 0) (fuel : ℕ)
    (p : Primitives r Good Failed Stuck fuel) (c : Config) (net : Network) where
  open r use {Db}

  abbrev Safe : {A : Type 0} → Action Db A → Type 0
  Safe m = Keeps r Good Failed Stuck m

  bind :
      {A B : Type 0} (m : Action Db A) (f : A → Action Db B)
      → Safe m
      → ((a : A) → Safe (f a))
      → Safe (m >>= f)
  bind = Keeps-bind r Good Failed Stuck

  branch : {A : Type 0} (b : Bool) (m k : Action Db A) → Safe m → Safe k → Safe (if b then m else k)
  branch = Keeps-if r Good Failed Stuck

  ask-Safe : {A : Type 0} (f : Db → A) → Safe (ask r f)
  ask-Safe = p.ask_keeps

  return : {A : Type 0} (a : A) → Safe (pure a)
  return a w h = h

  count_retry-Safe : Safe (count_retry {Db = Db})
  unfolding count_retry
  count_retry-Safe w h = p.counted w h

  sleep-Safe : (seconds : ℕ) → Safe (sleep {Db = Db} seconds)
  unfolding sleep
  sleep-Safe seconds w h = p.aside w w.asked (w.slept + seconds) h

  request-Safe : (host : Str) → Safe (request c net host)
  unfolding request
  request-Safe host w h = p.aside w (w.asked + 1) w.slept h

  pod_exists-Safe : (pod : Str) → Safe (pod_exists c net pod)
  unfolding pod_exists
  pod_exists-Safe pod w h = p.aside w (w.asked + 1) w.slept h

  attempts-Keeps :
      (left attempt retries : ℕ) (host : Str) → Safe (ping_attempts c net left attempt retries host)
  unfolding ping_attempts
  attempts-Keeps zero attempt retries host = return false
  attempts-Keeps (suc left) attempt retries host =
      bind (request c net host) _ (request-Safe host) (λ up. branch up (pure true) _ (return true) (
        branch (ltb attempt retries) _ _
          (bind (sleep ping_delay) _ (sleep-Safe ping_delay)
            (λ _. attempts-Keeps left (attempt + 1) retries host))
          (attempts-Keeps left (attempt + 1) retries host)))

  ping-Keeps : (pod : Str) (retries : ℕ) → Safe (ping_worker c net pod retries)
  unfolding ping_worker
  ping-Keeps pod retries = attempts-Keeps retries 1 retries _

  existing-Keeps : (ws : List Str) → Safe (existing c net ws)
  unfolding existing
  existing-Keeps [] = (λ w h. h)
  existing-Keeps (x ∷ ws) = bind (pod_exists c net x) _ (pod_exists-Safe x) (λ found.
      bind (existing c net ws) (λ rest. pure (if found then x ∷ rest else rest)) (existing-Keeps ws)
        (λ _ w h. h))

  choose-Keeps : (live kept : ℕ) (ws : List Str) → Safe (choose_to_mark c net live kept ws)
  unfolding choose_to_mark
  choose-Keeps live kept ws =
      branch (ltb kept (live + length ws)) _ _
        (bind (existing c net ws) _ (existing-Keeps ws) (λ _ w h. h)) ((λ w h. h))

  send_marks-Safe : (ws : List Str) → Safe (send_marks r ws)
  unfolding send_marks
  send_marks-Safe [] = return tt
  send_marks-Safe (x ∷ ws) = p.sadd_keeps (x ∷ ws)

  mark-Keeps : (active down : List Str) (n : ℕ) → Safe (mark_surplus r c net active down n)
  unfolding mark_surplus
  mark-Keeps active down n = bind (ask r (r.smembers retiring_key)) _ (ask-Safe _) (λ retiring.
      bind (choose_to_mark c net _ _ _) _ (choose-Keeps _ _ _)
        (λ to_mark. bind (send_marks r to_mark) _ (send_marks-Safe to_mark) (λ _ w h. h)))

  check-Keeps : (pods : List Str) → Safe (check_workers r c net pods)
  unfolding check_workers
  check-Keeps [] = (λ w h. h)
  check-Keeps (x ∷ pods) =
      bind (ping_worker c net x 1) _ (ping-Keeps x 1)
        (λ _. bind (check_workers r c net pods) _ (check-Keeps pods) (λ _ w h. h))

  recovered-Keeps : (pods : List Str) → Safe (any_recovered r c net pods)
  unfolding any_recovered
  recovered-Keeps [] = return false
  recovered-Keeps (x ∷ pods) =
      bind (ping_worker c net x _) _ (ping-Keeps x _)
        (λ up. branch up (pure true) _ (return true) (recovered-Keeps pods))

  drop_owners-Safe : (d : Dict Str) → Safe (drop_owners r c net d)
  unfolding drop_owners
  drop_owners-Safe [] = return tt
  drop_owners-Safe ((x, _) ∷ d) =
      bind (tell r (r.hdel x)) _ (p.hdel_keeps x) (λ _. drop_owners-Safe d)

  pub requeue_all-Safe : (l : List Str) → Safe (requeue_all r c net l)
  unfolding requeue_all
  requeue_all-Safe [] = return tt
  requeue_all-Safe (x ∷ l) =
      bind (requeue_job r x) _ (p.requeue_keeps x)
        (λ _. bind count_retry _ count_retry-Safe (λ _. requeue_all-Safe l))

  pub read_queues-Safe : Safe (read_queues r c net)
  unfolding read_queues
  read_queues-Safe = bind (ask r (r.llen job_queue)) _ (ask-Safe _) (λ _.
      bind (ask r (r.scard success_queue)) _ (ask-Safe _) (λ _.
        bind (ask r (r.smembers failed_queue)) _ (ask-Safe _) (λ _.
          bind (ask r (r.lrange progress_queue)) _ (ask-Safe _)
            (λ _. bind (ask r r.hgetall) _ (ask-Safe _) (λ _ w h. h)))))

  stuck-Keeps :
      (b : Bool) (active : List Str) (d : Dict Str) → Safe (retry_stuck r c net fuel b active d)
  unfolding retry_stuck
  stuck-Keeps false active d = return tt
  stuck-Keeps true active d = bind (any_recovered r c net active) _ (recovered-Keeps active) (λ b.
      branch b (pure tt) _ (return tt)
        (bind (retry_jobs_in_progress r fuel) _ p.retry_keeps (λ _. drop_owners-Safe d)))

  pub check_and_retry-Keeps : (q : Queues) → Safe (check_and_retry r c net fuel q)
  unfolding check_and_retry
  check_and_retry-Keeps q =
      bind (check_workers r c net _) _ (check-Keeps (active_workers net q.owners)) (λ statuses.
        bind (mark_surplus r c net _ _ _) _ (mark-Keeps _ _ _) (λ retirable.
          bind
            (retry_stuck r c net fuel (looks_stuck r c net statuses q.in_progress)
              (active_workers net q.owners) q.owners)
            (λ _. pure (status_of r c net q statuses retirable))
            (stuck-Keeps (looks_stuck r c net statuses q.in_progress) (active_workers net q.owners)
              q.owners)
            (λ _ w h. h)))

  pub reread-Keeps : (q : Queues) (l : List Str) → Safe (requeue_rest r c net q l)
  unfolding requeue_rest
  reread-Keeps q [] = λ w h. h
  reread-Keeps q (x ∷ l) = bind (requeue_all r c net (x ∷ l)) _ (requeue_all-Safe (x ∷ l)) (λ _.
      bind (ask r (r.lrange progress_queue)) _ (ask-Safe _)
        (λ _. bind (ask r (r.llen job_queue)) _ (ask-Safe _) (λ _ w h. h)))

  pub read_status-Keeps : Safe (read_status r c net fuel)
  unfolding read_status requeue_orphans
  read_status-Keeps =
      bind (read_queues r c net) _ (read_queues-Safe) (λ q.
        bind (requeue_orphans r c net q) _ (reread-Keeps q (orphans q)) (check_and_retry-Keeps))
