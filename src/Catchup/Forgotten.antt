-- ===== src/Catchup/Forgotten.antt =====
-- A claim whose answer is lost.
use supercluster.Prelude.{ℕ, ◌+◌, ◌<◌, ◌≡◌, refl, ap, ◌∙◌, arith, true, false, List, [], ◌∷◌, ◌++◌}
use supercluster.Prelude.Text.{Str, str_eq, str_eq_iff, str_eq_refl}
use supercluster.Prelude.Lists.{length, All-mono}
use supercluster.Prelude.Dict.{Dict, has_key, lookup}
use supercluster.Prelude.Sets.{elem}
use supercluster.Monitor.Redis.{Redis}
use supercluster.Monitor.Redis.Keys.{View, retiring_key, put_owner, drop_owner}
use supercluster.Monitor.Worker.{claim_job, worker_steps}
use supercluster.Monitor.Worker.Kept.{claim_view}
use supercluster.Monitor.World.{World, Slot, answered, unheard, ok, call_once, sleep}
use supercluster.Monitor.World.Calls.{Ends, Ends-mono}
use supercluster.Monitor.Network.{Config, Network}
use supercluster.Monitor.Pass.{read_status}
use supercluster.Monitor.Pass.Alone.{AllOwned}
use supercluster.Monitor.Pass.Quiet.{AllSilent}
use supercluster.Monitor.Pass.Unstuck.{Released, read_status-Released}
use supercluster.Catchup.{
  Pod, Turn, redis_cli, sismember, ask_retiring, ask_claim, process, turn, sleep_interval,
}
use supercluster.Catchup.Closed.{ExitsOnFailure}

-- The first command is answered; the second is carried out, but its answer is lost. No other worker
-- acts.
abbrev pub answer_lost : List Slot
answer_lost =
    record { steps = []; outcome = answered; resent = [] }
    ∷ record { steps = []; outcome = unheard; resent = [] }
    ∷ []

module _ (r : Redis) (p : Pod) (t : Turn) where
  open r use {Db, view}

  forgets :
      (w : World Db)
      → w.slots ≡ answer_lost
      → elem p.pod_name (view w.db).retiring ≡ false
      → ExitsOnFailure t
      → turn r p t w
        ≡ sleep sleep_interval (record w { db = claim_job r p.pod_name w.db; slots = [] })
  unfolding turn ask_retiring ask_claim redis_cli call_once sismember process claim_job worker_steps
      str_eq
  forgets w e m f = rw (e, r.smembers_reply retiring_key w.db, m, f []) refl

  turn_world :
      (w : World Db)
      → w.slots ≡ answer_lost
      → elem p.pod_name (view w.db).retiring ≡ false
      → ExitsOnFailure t
      → ((turn r p t w).1.slots ≡ []) × ((turn r p t w).1.retried ≡ w.retried)
  unfolding sleep
  turn_world w e m f = rw (forgets w e m f) (refl, refl)

  -- If the answer to the claim is lost, the round ends normally after a pause, with the first job of
  -- the queue in progress, and the worker as the owner of a job that it does not know of.
  turn_forgets_claim :
      (w : World Db) {x : Str} {xs : List Str}
      → w.slots ≡ answer_lost
      → elem p.pod_name (view w.db).retiring ≡ false
      → ExitsOnFailure t
      → (view w.db).jobs ≡ x ∷ xs
      → ((turn r p t w).0 ≡ ok tt)
        × (view (turn r p t w).1.db ≡ record (view w.db) {
          jobs = xs;
          progress = x ∷ (view w.db).progress;
          owners = put_owner x p.pod_name (view w.db).owners;
        })
  unfolding sleep
  turn_forgets_claim w e m f q =
      rw (forgets w e m f) (refl, rw (claim_view r p.pod_name w.db, q) refl)

has_key-drop_owner :
    (k x : Str) (d : Dict Str) → str_eq k x ≡ false → has_key k (drop_owner x d) ≡ has_key k d
unfolding has_key lookup drop_owner
has_key-drop_owner k x [] h = refl
has_key-drop_owner k x ((j, v) ∷ d) h =
    ground (arith, has_key-drop_owner k x d, str_eq_iff k j, str_eq_iff x j, str_eq_iff k x)

has_key-put_owner :
    (k x pod : Str) (d : Dict Str) → has_key k d ≡ true → has_key k (put_owner x pod d) ≡ true
unfolding has_key lookup put_owner
has_key-put_owner k x pod d h = ground (arith, has_key-drop_owner k x d)

put_owner-AllOwned :
    (x pod : Str) (d : Dict Str) (l : List Str)
    → AllOwned d l
    → AllOwned (put_owner x pod d) (x ∷ l)
unfolding has_key lookup put_owner
put_owner-AllOwned x pod d l h = (
  ground (arith, str_eq_refl x),
  All-mono (λ k. has_key k d ≡ true) (λ k. has_key k (put_owner x pod d) ≡ true) l
      (λ k q. has_key-put_owner k x pod d q) h,
)

-- A worker that is not marked asks for a job that waits, while every job in progress has an owner and
-- no other worker acts. The answer to its claim is lost, and redis-cli tells of failures by its exit
-- code. Then the round ends normally, and the job is in progress, in front. If then nobody acts but the
-- monitor, no request to a worker is answered, and the bound is above the number of jobs in progress,
-- a pass gives the job back: it is the first that waits, before the others that were in progress and
-- those that waited, each of the former is counted as a retry, and nothing is in progress or owned.
pub forgotten_claim_returns :
    (r : Redis) (c : Config) (net : Network) (p : Pod) (t : Turn) (fuel : ℕ) (w : World r.Db)
    {x : Str} {xs : List Str}
    → w.slots ≡ answer_lost
    → elem p.pod_name (r.view w.db).retiring ≡ false
    → ExitsOnFailure t
    → (r.view w.db).jobs ≡ x ∷ xs
    → AllOwned (r.view w.db).owners (r.view w.db).progress
    → AllSilent r c net
    → length (r.view w.db).progress + 1 < fuel
    → ((turn r p t w).0 ≡ ok tt)
      × ((r.view (turn r p t w).1.db).progress ≡ x ∷ (r.view w.db).progress)
      × Ends
          (λ _ u.
            ((r.view u.db).jobs ≡ x ∷ ((r.view w.db).progress ++ xs))
            × ((r.view u.db).progress ≡ [])
            × ((r.view u.db).owners ≡ [])
            × (u.retried ≡ w.retried + (length (r.view w.db).progress + 1)))
          (read_status r c net fuel (turn r p t w).1)
forgotten_claim_returns r c net p t fuel w {x} {xs} e m f q o silent l =
    let w' = (turn r p t w).1 in
    let (done, seen) = turn_forgets_claim r p t w e m f q in
    let (s, n) = turn_world r p t w e m f in
    let jobs = ap (λ (v : View). v.jobs) seen in
    let progress = ap (λ (v : View). v.progress) seen in
    (
      done,
      progress,
      Ends-mono (λ _ u. Released r c net w' u) _
          (λ _ u (_, j, i, d, k). (
            j
                ∙ ap (λ y. y ++ (r.view w'.db).jobs) progress
                ∙ ap (λ y. x ∷ ((r.view w.db).progress ++ y)) jobs,
            i,
            d,
            omega (arith, k, n, ap length progress),
          ))
          (read_status r c net fuel w')
          (read_status-Released r c net fuel w' silent s
            (rw seen
              (put_owner-AllOwned x p.pod_name (r.view w.db).owners (r.view w.db).progress o))
            (omega (arith, ap length progress)) (omega (arith, ap length progress))),
    )
