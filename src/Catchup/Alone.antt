-- ===== src/Catchup/Alone.antt =====
-- A worker that is alone with the queues.
use mathlib.Core.Path.{subst}
use supercluster.Prelude.{◌≡◌, refl, sym, ◌∙◌, arith, true, false, List, [], ◌∷◌, ◌++◌, some}
use supercluster.Prelude.Text.{Str, str_eq, str_eq_refl}
use supercluster.Prelude.Lists.{All, length}
use supercluster.Prelude.Sets.{elem}
use supercluster.Monitor.Redis.{Redis}
use supercluster.Monitor.Redis.Keys.{job_queue, progress_queue, retiring_key}
use supercluster.Monitor.Redis.Elem.{elem-insert_member}
use supercluster.Monitor.Worker.{key_char, key_chars, valid_job_key, claim_script, claim_job}
use supercluster.Monitor.Worker.Kept.{
  claim_view, finish_view, before_bar_key, failed_has-insert_member, valid_job_key_chars,
}
use supercluster.Monitor.Worker.Started.{ended, worker_steps-ended}
use supercluster.Monitor.World.{World, Reply, ok, call_once}
use supercluster.Catchup.{
  Pod, Turn, strip_newlines, redis_cli, sismember, ask_retiring, ask_claim, ask_close, close_script,
  close_job, process, turn, worker_loop,
}
use supercluster.Catchup.Served.{worker_loop-Serves}

strip_key : (s : Str) → key_chars s ≡ true → strip_newlines s ≡ s
unfolding strip_newlines key_chars key_char str_eq
strip_key [] h = refl
strip_key (c ∷ s) h = ground (arith, strip_key s)

module _ (r : Redis) (p : Pod) (t : Turn) where
  open r use {Db, view}

  claim_reply :
      (db : Db) {x : Str} {xs : List Str}
      → (view db).jobs ≡ x ∷ xs
      → (claim_script r p.pod_name db).0 ≡ some x
  unfolding claim_script
  claim_reply db e = r.lmove_left_reply job_queue progress_queue db ∙ rw e refl

  turn_alone :
      (w : World Db) {x : Str} {xs : List Str}
      → w.slots ≡ []
      → elem p.pod_name (view w.db).retiring ≡ false
      → (view w.db).jobs ≡ x ∷ xs
      → valid_job_key x ≡ true
      → turn r p t w
        ≡ (ok tt, record w { db = (close_script r p t x (claim_job r p.pod_name w.db)).1 })
  unfolding turn ask_retiring ask_claim redis_cli call_once sismember process claim_job close_job
      ask_close str_eq
  turn_alone w {x} e m q v =
      rw
        (
          e,
          r.smembers_reply retiring_key w.db,
          m,
          claim_reply w.db q,
          strip_key x (valid_job_key_chars x v),
          v,
        )
        refl

  -- The store after such a round.
  abbrev after_round : Str → Db → Db
  after_round x db = (close_script r p t x (claim_job r p.pod_name db)).1

  round-jobs :
      (x : Str) (db : Db) {xs : List Str}
      → (view db).jobs ≡ x ∷ xs
      → ((view (after_round x db)).jobs ≡ xs)
        × ((view (after_round x db)).retiring ≡ (view db).retiring)
  unfolding close_script
  round-jobs x db q = rw (finish_view r, claim_view r p.pod_name db, q) (refl, refl)

  round-ended :
      (x : Str) (db : Db) → valid_job_key x ≡ true → ended x (view (after_round x db)) ≡ true
  unfolding close_script ended
  round-ended x db v =
      let d = claim_job r p.pod_name db in
      rw (finish_view r) (
        ground (
          arith,
          elem-insert_member x x (view d).succeeded,
          failed_has-insert_member x (x ++ b'|' ∷ p.pod_name) (view d).failed,
          before_bar_key x p.pod_name (valid_job_key_chars x v),
          str_eq_refl x,
        ))

module _ (r : Redis) (p : Pod) where
  open r use {Db, view}

  stays-ended :
      (j : Str) (ts : List Turn) (w : World Db)
      → w.slots ≡ []
      → ended j (view w.db) ≡ true
      → ended j (view (worker_loop r p ts w).1.db) ≡ true
  stays-ended j ts w e h =
      let (ss, _, q) = worker_loop-Serves r (λ _. true) p ts w refl (rw e tt) in
      rw q (worker_steps-ended r j ss w.db h)

  first_round :
      (t : Turn) (ts : List Turn) (w : World Db) {x : Str} {xs : List Str}
      → w.slots ≡ []
      → elem p.pod_name (view w.db).retiring ≡ false
      → (view w.db).jobs ≡ x ∷ xs
      → valid_job_key x ≡ true
      → worker_loop r p (t ∷ ts) w ≡ worker_loop r p ts (record w { db = after_round r p t x w.db })
  unfolding worker_loop
  first_round t ts w e m q v = rw (turn_alone r p t w e m q v) refl

  -- All is well, no job waits, and these jobs have ended.
  abbrev Drained : List Str → Reply (Unit {0}) × World Db → Type 0
  Drained js x =
      (x.0 ≡ ok tt) × ((view x.1.db).jobs ≡ []) × All (λ j. ended j (view x.1.db) ≡ true) js

  drains :
      (ts : List Turn) (js : List Str) (w : World Db)
      → (view w.db).jobs ≡ js
      → w.slots ≡ []
      → elem p.pod_name (view w.db).retiring ≡ false
      → All (λ j. valid_job_key j ≡ true) js
      → length ts ≡ length js
      → Drained js (worker_loop r p ts w)
  unfolding worker_loop
  drains [] [] w q e m v l = (refl, q, tt)
  drains [] (x ∷ xs) w q e m v l = absurd (omega (arith, l))
  drains (t ∷ ts) [] w q e m v l = absurd (omega (arith, l))
  drains (t ∷ ts) (x ∷ xs) w q e m (vx, vs) l =
      let w' : World Db = record w { db = after_round r p t x w.db } in
      let (j, k) = round-jobs r p t x w.db q in
      let (a, b, c) = drains ts xs w' j e (rw k m) vs (omega (arith, l)) in
      subst (Drained (x ∷ xs)) (sym (first_round t ts w e m q vx))
        (a, b, (stays-ended x ts w' e (round-ended r p t x w.db vx), c))

  -- A worker that is not marked, with nobody else at the queues and no failures: after as many
  -- rounds as jobs wait, if these have the form of job keys, the job queue is empty and each of them
  -- has ended, successfully or not. All the rounds end normally.
  pub worker_loop-ended :
      (ts : List Turn) (w : World Db)
      → w.slots ≡ []
      → elem p.pod_name (view w.db).retiring ≡ false
      → All (λ j. valid_job_key j ≡ true) (view w.db).jobs
      → length ts ≡ length (view w.db).jobs
      → let w' = (worker_loop r p ts w).1 in
        ((worker_loop r p ts w).0 ≡ ok tt)
        × ((view w'.db).jobs ≡ [])
        × All (λ j. ended j (view w'.db) ≡ true) (view w.db).jobs
  worker_loop-ended ts w e m v l = drains ts (view w.db).jobs w refl e m v l
