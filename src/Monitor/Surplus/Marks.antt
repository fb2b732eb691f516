-- ===== src/Monitor/Surplus/Marks.antt =====
-- Which workers are marked as retiring, and which may be removed.
use mathlib.Core.List.{Sublistᴰ}
use mathlib.Core.Path.{subst}
use supercluster.Prelude.{
  ℕ, ◌≡◌, refl, ap, sym, ◌∙◌, arith, true, false, not, ◌&&◌, ◌||◌, List, [], ◌∷◌, ◌++◌, ◌⊎◌, inl,
  inr, Bool-cases,
}
use supercluster.Prelude.Text.{Str}
use supercluster.Prelude.Lists.{length, All}
use supercluster.Prelude.Sets.{elem, minus, elem-keep_if, elem-sorted, elem-minus}
use supercluster.Monitor.Redis.{Redis}
use supercluster.Monitor.Redis.Keys.{retiring_key}
use supercluster.Monitor.Redis.Elem.{elem-append, elem-insert_member}
use supercluster.Monitor.Worker.{
  WorkerStep, claim, finish, valid_job_key, worker_step, worker_steps,
}
use supercluster.Monitor.Worker.Kept.{claim_view, finish_view}
use supercluster.Monitor.World.{World, ask}
use supercluster.Monitor.World.Calls.{Ends, Ends-bind, IsAnswered, IsUp, call-Ends}
use supercluster.Monitor.Network.{Config, Network}
use supercluster.Monitor.Surplus.{
  fleet, candidates, keep, choose_to_mark, sadd_all, send_marks, mark_surplus,
}
use supercluster.Monitor.Surplus.Spared.{SameStore, Spares, choose_to_mark-Spares}

elem_of_sublist : (x : Str) {l l' : List Str} → Sublistᴰ l l' → elem x l ≡ true → elem x l' ≡ true
unfolding elem
elem_of_sublist x Sublistᴰ.slnil h = h
elem_of_sublist x (Sublistᴰ.cons {a} {l₁} {l₂} s) h = ground (arith, elem_of_sublist x s h)
elem_of_sublist x (Sublistᴰ.cons-cons {a} {b} {l₁} {l₂} e s) h = elim (Bool-cases (elem x l₁)) [
  | inl q ↦ ground (arith, elem_of_sublist x s q)
  | inr q ↦ ground arith
]

elem-candidates :
    (c : Config) (x : Str) (active retiring : List Str)
    → elem x (candidates c active retiring)
      ≡ (elem x (fleet c c.worker_count) && (not (elem x active) && not (elem x retiring)))
unfolding candidates
elem-candidates c x active retiring =
    elem-sorted x _
    ∙ elem-keep_if x (λ w. not (elem w active) && not (elem w retiring)) (fleet c c.worker_count)

module _ (r : Redis) where
  open r use {Db, view}

  -- The workers do not touch the marks.
  worker_step-retiring :
      (s : WorkerStep) (db : Db) → (view (worker_step r s db)).retiring ≡ (view db).retiring
  unfolding worker_step
  worker_step-retiring (claim pod) db = ground (arith, claim_view r pod db)
  worker_step-retiring (finish pod job entry success) db = elim (Bool-cases (valid_job_key job)) [
    | inl e ↦ rw e (rw finish_view refl)
    | inr e ↦ rw e refl
  ]

  pub worker_steps-retiring :
      (ss : List WorkerStep) (db : Db) → (view (worker_steps r ss db)).retiring ≡ (view db).retiring
  unfolding worker_steps
  worker_steps-retiring [] db = refl
  worker_steps-retiring (s ∷ ss) db =
      worker_steps-retiring ss (worker_step r s db) ∙ worker_step-retiring s db

  sadd_all-retiring :
      (x : Str) (ws : List Str) (db : Db)
      → elem x (view (sadd_all r ws db)).retiring ≡ (elem x (view db).retiring || elem x ws)
  unfolding sadd_all elem
  sadd_all-retiring x [] db = ground arith
  sadd_all-retiring x (w ∷ ws) db = ground (
    arith,
    sadd_all-retiring x ws (r.sadd retiring_key w db),
    r.sadd_view retiring_key w db,
    elem-insert_member x w (view db).retiring,
  )

module _ (r : Redis) (c : Config) (net : Network) (x : Str) where
  open r use {Db, view, smembers}

  -- `x` counts as marked only if it was, or is an idle worker of the fleet.
  abbrev pub Marked : List Str → List Str → List Str → Type 0
  Marked active before now =
      (elem x now ≡ elem x before)
      ⊎ ((elem x active ≡ false) × (elem x (fleet c c.worker_count) ≡ true))

  abbrev Had : List Str → Db → Type 0
  Had before db = (view db).retiring ≡ before

  stays :
      (before : List Str) (ss : List WorkerStep) (db : Db)
      → Had before db
      → Had before (worker_steps r ss db)
  stays before ss db h = worker_steps-retiring r ss db ∙ h

  only_idle :
      (active before spared to_mark : List Str) (db : Db)
      → Had before db
      → Sublistᴰ (to_mark ++ spared) (candidates c active before)
      → Marked active before (view (sadd_all r to_mark db)).retiring
  only_idle active before spared to_mark db h s = elim (Bool-cases (elem x to_mark)) [
    | inl e ↦ inr (
        ground (
          arith,
          elem_of_sublist x s,
          elem-append x to_mark spared,
          elem-candidates c x active before,
        ))
    | inr e ↦ inl (ground (arith, sadd_all-retiring r x to_mark db))
  ]

  mark :
      (active before spared to_mark : List Str) (w : World Db)
      → IsUp w
      → Had before w.db
      → Sublistᴰ (to_mark ++ spared) (candidates c active before)
      → Ends (λ _ w'. IsUp w' × Marked active before (view w'.db).retiring) (send_marks r to_mark w)
  unfolding send_marks
  mark active before spared [] w up h s = (up, inl (ap (elem x) h))
  mark active before spared (y ∷ ys) w up h s =
      call-Ends r (λ db. (tt, sadd_all r (y ∷ ys) db)) (Had before)
        (λ _ db. Marked active before (view db).retiring) (stays before)
        (λ db h'. only_idle active before spared (y ∷ ys) db h' s) w up h

  -- While Redis answers every command the first time, phase 2b ends. A name is marked afterwards
  -- only if it was before, or if it is one of the fleet that owned no job. A name may be removed
  -- exactly if it was marked before this pass and owned no job.
  pub mark_surplus-idle :
      (active down : List Str) (outstanding : ℕ) (w : World Db)
      → IsUp w
      → Ends
          (λ retirable w'.
            IsUp w'
            × Marked active (view w.db).retiring (view w'.db).retiring
            × (elem x retirable ≡ (elem x (view w.db).retiring && not (elem x active))))
          (mark_surplus r c net active down outstanding w)
  unfolding mark_surplus
  mark_surplus-idle active down outstanding w up =
      Ends-bind (λ retiring w1. IsUp w1 × ((retiring ≡ before) × Had before w1.db)) _
        (ask r (smembers retiring_key)) _ w
        (call-Ends r (λ db. (smembers retiring_key db, db)) (Had before)
          (λ a db. (a ≡ before) × Had before db) (stays before)
          (λ db h. (r.smembers_reply retiring_key db ∙ h, h)) w up refl)
        (λ retiring w1 (up1, (e1, h1)).
          Ends-bind
            (λ to_mark w2.
              SameStore c net w1 w2
              × Spares (live retiring) (keep c outstanding) (candidates c active retiring) to_mark)
            _
            (choose_to_mark c net (live retiring) (keep c outstanding)
              (candidates c active retiring))
            _ w1
            (choose_to_mark-Spares c net (live retiring) (keep c outstanding)
              (candidates c active retiring) w1)
            (λ to_mark w2 ((d2, l2, n2), (spared, s, _)).
              Ends-bind (λ _ w3. IsUp w3 × Marked active before (view w3.db).retiring) _
                (send_marks r to_mark) _ w2
                (mark active before spared to_mark w2 (subst (All IsAnswered) (sym l2) up1)
                  (ap (λ d. (view d).retiring) d2 ∙ h1)
                  (subst (λ l. Sublistᴰ (to_mark ++ spared) (candidates c active l)) e1 s))
                (λ _ w3 (up3, m3). (
                  up3,
                  m3,
                  elem-sorted x (minus retiring active)
                      ∙ elem-minus x retiring active
                      ∙ ap (λ l. elem x l && not (elem x active)) e1,
                ))))
    where
      before : List Str
      before = (view w.db).retiring

      live : List Str → ℕ
      live retiring = length (minus (minus active retiring) down)
