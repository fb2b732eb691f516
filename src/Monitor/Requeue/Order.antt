-- ===== src/Monitor/Requeue/Order.antt =====
-- What `retry_jobs_in_progress` does to the queues when nobody interferes.
use supercluster.Prelude.{
  ℕ, zero, suc, ◌+◌, ◌<◌, ◌≡◌, refl, ap, sym, ◌∙◌, arith, Bool, true, false, List, [], ◌∷◌, ◌++◌,
  none, some, ltb, Option-cases, List-cases, inl, inr,
}
use mathlib.Core.List.{append_assoc}
use supercluster.Prelude.Text.{Str}
use supercluster.Prelude.Lists.{length, length-append}
use supercluster.Monitor.Redis.{Redis}
use supercluster.Monitor.Redis.Keys.{View, job_queue, progress_queue, last?, without_last}
use supercluster.Monitor.Redis.Elem.{split_last}
use supercluster.Monitor.World.{World, Action, ok, pure, ◌>>=◌, ◌>>◌, call, ask, count_retry}
use supercluster.Monitor.World.Calls.{Ends-mono, Ends, run-bind, call_quiet}
use supercluster.Monitor.Requeue.{retry_jobs_in_progress}

pub last?-none : (l : List Str) → last? l ≡ none → length l ≡ 0
unfolding last?
last?-none [] e = refl
last?-none (x ∷ []) e = cc
last?-none (x ∷ y ∷ l) e = absurd (omega (arith, last?-none (y ∷ l) e))

-- A nonempty list is its first part and its last item.
pub last?-length :
    (l : List Str) {x : Str} → last? l ≡ some x → length l ≡ suc (length (without_last l))
last?-length l {x} e =
    ap length (split_last l e) ∙ omega (arith, length-append {0} (without_last l) (x ∷ []))

module _ (r : Redis) where
  open r use {Db, view, llen, lmove}

  read_waiting :
      (w : World Db)
      → w.slots ≡ []
      → ask r (llen progress_queue) w ≡ (ok (length (view w.db).progress), w)
  read_waiting w q = call_quiet r (λ db. (llen progress_queue db, db)) w q ∙ rw r.llen_reply

  -- The rest of the loop, once it is known whether a job is in progress.
  abbrev rounds : ℕ → Bool → Action Db (Unit {0})
  rounds fuel waits = elim waits [
    | true ↦ call r (lmove progress_queue job_queue) >>= λ job.
        count_retry >> retry_jobs_in_progress r fuel
    | false ↦ pure tt
  ]

  first_question :
      (fuel : ℕ) (w : World Db) (waits : Bool)
      → w.slots ≡ []
      → ltb 0 (length (view w.db).progress) ≡ waits
      → retry_jobs_in_progress r (suc fuel) w ≡ rounds fuel waits w
  unfolding retry_jobs_in_progress
  first_question fuel w waits q e =
      run-bind (ask r (llen progress_queue)) (λ waiting. rounds fuel (ltb 0 waiting)) w
        (read_waiting w q)
      ∙ ap (λ b. rounds fuel b w) e

  retry_done :
      (fuel : ℕ) (w : World Db)
      → w.slots ≡ []
      → length (view w.db).progress ≡ 0
      → retry_jobs_in_progress r (suc fuel) w ≡ (ok tt, w)
  retry_done fuel w q e = first_question fuel w false q (ground arith)

  abbrev moved : World Db → World Db
  moved w = record w { db = (lmove progress_queue job_queue w.db).1; retried = w.retried + 1 }

  retry_step :
      (fuel m : ℕ) (w : World Db)
      → w.slots ≡ []
      → length (view w.db).progress ≡ suc m
      → retry_jobs_in_progress r (suc fuel) w ≡ retry_jobs_in_progress r fuel (moved w)
  unfolding count_retry
  retry_step fuel m w q e =
      first_question fuel w true q (ground arith)
      ∙ run-bind (call r (lmove progress_queue job_queue))
          (λ job. count_retry >> retry_jobs_in_progress r fuel) w
          (call_quiet r (lmove progress_queue job_queue) w q)

  view-moved :
      (w : World Db) (x : Str)
      → last? (view w.db).progress ≡ some x
      → view (moved w).db ≡ record (view w.db) {
        jobs = x ∷ (view w.db).jobs;
        progress = without_last (view w.db).progress;
      }
  view-moved w x e = ground (arith, r.lmove_view progress_queue job_queue w.db)

  -- The end of the loop: the jobs in progress in front of the others, each counted once.
  abbrev pub AllMoved : World Db → World Db → Type 0
  AllMoved w w' =
      (view w'.db
        ≡ record (view w.db) { jobs = (view w.db).progress ++ (view w.db).jobs; progress = [] })
      × (w'.retried ≡ w.retried + length (view w.db).progress)
      × (w'.slots ≡ [])

  none_left : (w : World Db) → w.slots ≡ [] → length (view w.db).progress ≡ 0 → AllMoved w w
  none_left w q e = elim (List-cases (view w.db).progress) [
    | inl n ↦ (ground arith, omega arith, q)
    | inr (x, l, n) ↦ absurd (ground arith)
  ]

  abbrev emptied : View → View
  emptied v = record v { jobs = v.progress ++ v.jobs; progress = [] }

  one_moved :
      (w w' : World Db) (x : Str)
      → last? (view w.db).progress ≡ some x
      → AllMoved (moved w) w'
      → AllMoved w w'
  one_moved w w' x e (v, n, q) = (
    v
        ∙ ap emptied (view-moved w x e)
        ∙ ap (λ l. record (view w.db) { jobs = l; progress = [] })
            (sym (append_assoc (without_last (view w.db).progress) (x ∷ []) (view w.db).jobs)
              ∙ ap (λ l. l ++ (view w.db).jobs) (sym (split_last (view w.db).progress e))),
    omega (
      arith,
      ap (λ (u : View). length u.progress) (view-moved w x e),
      last?-length (view w.db).progress e,
    ),
    q,
  )

  -- With nobody else at the queues the loop ends: all jobs in progress go to the front of the job
  -- queue, in the order that they had, each counted as one retry, and nothing else changes.
  pub retry_jobs_in_progress-order :
      (fuel : ℕ) (w : World Db)
      → w.slots ≡ []
      → length (view w.db).progress < fuel
      → Ends (λ _ w'. AllMoved w w') (retry_jobs_in_progress r fuel w)
  retry_jobs_in_progress-order zero w q h = absurd (omega arith)
  retry_jobs_in_progress-order (suc fuel) w q h = elim (Option-cases (last? (view w.db).progress)) [
    | inl e ↦ rw (retry_done fuel w q (last?-none _ e)) (none_left w q (last?-none _ e))
    | inr (x, e) ↦
        rw (retry_step fuel (length (without_last (view w.db).progress)) w q (last?-length _ e)) (
          Ends-mono (λ _. AllMoved (moved w)) (λ _. AllMoved w) (λ _ w'. one_moved w w' x e)
            (retry_jobs_in_progress r fuel (moved w))
            (retry_jobs_in_progress-order fuel (moved w) q (
              omega (
                arith,
                ap (λ (u : View). length u.progress) (view-moved w x e),
                last?-length (view w.db).progress e,
              ))))
  ]
