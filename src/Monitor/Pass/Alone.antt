-- ===== src/Monitor/Pass/Alone.antt =====
-- The phases of a pass that act on the queues, with no worker at them.
use mathlib.Core.List.Perm
use mathlib.Core.List.{Perm}
use mathlib.Core.Path.{subst}
use supercluster.Prelude.{
  ◌<◌, ◌≡◌, refl, ap, ◌∙◌, arith, true, not, List, [], ◌∷◌, map, List-cases, Bool-cases, inl, inr,
}
use supercluster.Prelude.Text.{Str, str_eq, str_eq_iff, str_eq_refl}
use supercluster.Prelude.Lists.{length, All, All-mono}
use supercluster.Prelude.Dict.{Dict, has_key, lookup}
use supercluster.Prelude.Sets.{keep_if, distinct, elem}
use supercluster.Monitor.Redis.{Redis}
use supercluster.Monitor.Redis.Keys.{
  View, job_queue, progress_queue, success_queue, failed_queue, drop_owner,
}
use supercluster.Monitor.World.{World, ok}
use supercluster.Monitor.World.Calls.{Ends, Ends-mono, call_quiet}
use supercluster.Monitor.Network.{Config, Network}
use supercluster.Monitor.Pass.{
  Queues, orphans, active_workers, read_queues, requeue_rest, requeue_orphans, drop_owners,
}
use supercluster.Monitor.Pass.Quiet.{ask_quiet}

-- Every job of the list has an owner.
abbrev pub AllOwned : Dict Str → List Str → Type 0
AllOwned owners jobs = All (λ (job : Str). has_key job owners ≡ true) jobs

no_orphan :
    (owners : Dict Str) (l : List Str)
    → AllOwned owners l
    → keep_if (λ job. not (has_key job owners)) l ≡ []
unfolding keep_if
no_orphan owners [] h = refl
no_orphan owners (x ∷ l) (o, h) = ground (arith, no_orphan owners l)

distinct_some : (x : Str) (l : List Str) → 0 < length (distinct (x ∷ l))
unfolding distinct elem
distinct_some x [] = omega arith
distinct_some x (y ∷ l) = ground (arith, distinct_some y l)

pub active_some :
    (net : Network) (x : Str) (owners : Dict Str)
    → has_key x owners ≡ true
    → 0 < length (active_workers net owners)
unfolding has_key lookup active_workers
active_some net x [] h = cc
active_some net x ((k, v) ∷ d) h =
    elim (List-cases (net.set_order (distinct (v ∷ map (λ p. p.1) d)))) [
      | inl e ↦ absurd (
          ground (
            arith,
            distinct_some v (map (λ (p : Str × Str). p.1) d),
            Perm.eq-nil (
                subst (Perm (distinct (v ∷ map (λ p. p.1) d))) e
                  (net.set_order_perm (distinct (v ∷ map (λ p. p.1) d)))),
          ))
      | inr (y, l, e) ↦ rw e (omega arith)
    ]

-- The owners after the keys of `d` were dropped one by one.
abbrev pub drop_all : Dict Str → Dict Str → Dict Str
drop_all [] o = o
drop_all ((k, v) ∷ d) o = drop_all d (drop_owner k o)

-- Every key of the second dict is one of the first.
abbrev pub Covers : Dict Str → Dict Str → Type 0
Covers d o = All (λ (e : Str × Str). has_key e.0 d ≡ true) o

drop_owner-Covers : (k v : Str) (d o : Dict Str) → Covers ((k, v) ∷ d) o → Covers d (drop_owner k o)
unfolding drop_owner has_key lookup
drop_owner-Covers k v d [] h = tt
drop_owner-Covers k v d ((j, u) ∷ o) (h, hs) = elim (Bool-cases (str_eq k j)) [
  | inl q ↦ rw q (drop_owner-Covers k v d o hs)
  | inr q ↦ rw q (ground (arith, h, str_eq_iff k j, str_eq_iff j k), drop_owner-Covers k v d o hs)
]

has_key-nil : (k : Str) → has_key {V = Str} k [] ≡ true → ⊥
unfolding has_key lookup
has_key-nil k h = cc

pub drop_all_covered : (d o : Dict Str) → Covers d o → drop_all d o ≡ []
drop_all_covered [] [] h = refl
drop_all_covered [] (e ∷ o) h = absurd (has_key-nil e.0 h.0)
drop_all_covered ((k, v) ∷ d) o h =
    drop_all_covered d (drop_owner k o) (drop_owner-Covers k v d o h)

Covers-cons : (k v : Str) (d o : Dict Str) → Covers d o → Covers ((k, v) ∷ d) o
unfolding has_key lookup
Covers-cons k v d o h =
    All-mono (λ (e : Str × Str). has_key e.0 d ≡ true)
      (λ (e : Str × Str). has_key e.0 ((k, v) ∷ d) ≡ true) o (λ e q. ground arith) h

pub Covers-refl : (d : Dict Str) → Covers d d
unfolding has_key lookup
Covers-refl [] = tt
Covers-refl ((k, v) ∷ d) = (ground (arith, str_eq_refl k), Covers-cons k v d d (Covers-refl d))

module _ (r : Redis) (c : Config) (net : Network) where
  open r use {Db, view, llen, lrange, scard, smembers, hgetall, hdel}

  -- What phase 1 reads when nobody interferes.
  abbrev pub read_now : World Db → Queues
  read_now w = record {
    remain = llen job_queue w.db;
    succeeded = scard success_queue w.db;
    failed = smembers failed_queue w.db;
    in_progress = lrange progress_queue w.db;
    owners = hgetall w.db;
  }

  pub read_alone : (w : World Db) → w.slots ≡ [] → read_queues r c net w ≡ (ok (read_now w), w)
  unfolding read_queues
  read_alone w e =
      rw
        (
          ask_quiet r (llen job_queue) w e,
          ask_quiet r (scard success_queue) w e,
          ask_quiet r (smembers failed_queue) w e,
          ask_quiet r (lrange progress_queue) w e,
          ask_quiet r hgetall w e,
        )
        refl

  pub orphans_alone :
      (q : Queues) (w : World Db)
      → AllOwned q.owners q.in_progress
      → requeue_orphans r c net q w ≡ (ok q, w)
  unfolding requeue_orphans requeue_rest orphans
  orphans_alone q w h = rw (no_orphan q.owners q.in_progress h) refl

  -- No worker will act, the lists are as before, and the keys of `d` are gone from the owners.
  abbrev pub Dropped : Dict Str → World Db → World Db → Type 0
  Dropped d w w' =
      (w'.slots ≡ [])
      × ((view w'.db).jobs ≡ (view w.db).jobs)
      × ((view w'.db).progress ≡ (view w.db).progress)
      × ((view w'.db).owners ≡ drop_all d (view w.db).owners)
      × (w'.retried ≡ w.retried)

  pub drop_owners_alone :
      (d : Dict Str) (w : World Db)
      → w.slots ≡ []
      → Ends (λ _ w'. Dropped d w w') (drop_owners r c net d w)
  unfolding drop_owners
  drop_owners_alone [] w e = (e, refl, refl, refl, refl)
  drop_owners_alone ((job, pod) ∷ d) w e =
      let w1 : World Db = record w { db = hdel job w.db } in
      let v = r.hdel_view job w.db in
      rw (call_quiet r (λ db. (tt, hdel job db)) w e) (
        Ends-mono (λ _ w'. Dropped d w1 w') (λ _ w'. Dropped ((job, pod) ∷ d) w w')
          (λ _ w2 (s, j, p, o, n). (
            s,
            j ∙ ap (λ (u : View). u.jobs) v,
            p ∙ ap (λ (u : View). u.progress) v,
            o ∙ ap (λ (u : View). drop_all d u.owners) v,
            n,
          ))
          (drop_owners r c net d w1) (drop_owners_alone d w1 e))
