-- ===== src/Monitor/Jobs/Moves.antt =====
-- The commands of the monitor that move a job are steps of the machine.
use mathlib.Core.Path.{subst}
use supercluster.Prelude.{
  ◌≤◌, ℕ, ◌+◌, ◌-◌, ◌≡◌, refl, arith, true, ◌==◌, Option-cases, if◌then◌else◌, Bool-cases, inl, inr,
}
use supercluster.Prelude.Text.{Str, str_eq, str_eq_iff}
use supercluster.Prelude.Sets.{elem}
use supercluster.Monitor.Redis.{Redis}
use supercluster.Monitor.Redis.Keys.{View, job_queue, progress_queue, last?, without_last}
use supercluster.Monitor.Worker.Started.{ended}
use supercluster.Monitor.Jobs.{copies, JobState, Step, Reach, here, Reach-eq, state_of}
use supercluster.Monitor.Jobs.Copies.{copies-remove_last, copies-move_last, copies-elem}
use supercluster.Monitor.Jobs.Calls.{Resends}
use supercluster.Monitor.Redis.Elem.{remove_last_absent}

module _ (r : Redis) (j : Str) where
  open r use {Db, view}

  -- How many copies of the job a removal of `x` takes that replies `n`.
  abbrev pub taken : Str → ℕ → ℕ
  taken x n = if n == 1 then (if str_eq j x then 1 else 0) else 0

  pub lrem-Reach :
      (x : Str) (db : Db) (h a : ℕ)
      → Reach (state_of j (view db) (h + 0) a) (
          state_of j
            (view (r.lrem progress_queue x db).1)
            (h + taken x (r.lrem progress_queue x db).0)
            a)
  unfolding ended
  lrem-Reach x db h a =
      let reply = r.lrem_reply progress_queue x db in
      let v = r.lrem_view progress_queue x db in
      elim (Bool-cases (elem x (view db).progress)) [
        | inl e ↦ elim (Bool-cases (str_eq j x)) [
          | inl q ↦ Reach.next here (
              Step.take (copies j (view db).progress - 1)
                (ground (arith, copies-elem x (view db).progress, str_eq_iff j x))
                (ground (arith, reply, v, copies-remove_last j x (view db).progress)))
          | inr q ↦ Reach-eq (ground (arith, reply, v, copies-remove_last j x (view db).progress))
        ]
        | inr e ↦ Reach-eq (ground (arith, reply, v, remove_last_absent x (view db).progress e))
      ]

  pub lpush-Reach :
      (x : Str) (n : ℕ) (db : Db) (h a : ℕ)
      → (n == 1) ≡ true
      → Reach
          (state_of j (view db) (h + taken x n) a)
          (state_of j (view (r.lpush job_queue x db)) (h + 0) a)
  unfolding copies ended
  lpush-Reach x n db h a e = elim (Bool-cases (str_eq j x)) [
    | inl q ↦
        Reach.next here (Step.put h (ground arith) (ground (arith, r.lpush_view job_queue x db)))
    | inr q ↦ Reach-eq (ground (arith, r.lpush_view job_queue x db))
  ]

  -- Sent again, LREM takes another copy, if there is one.
  pub lrem-Resends : (x : Str) → Resends r j (r.lrem progress_queue x) 0
  lrem-Resends x db h a =
      let g = taken x (r.lrem progress_queue x db).0 in
      let e : h + g ≡ h + g + 0 = omega arith in
      let l : g ≤ 1 = ground arith in
      (
        h + g,
        a,
        subst
            (λ m.
              Reach (state_of j (view db) (h + 0) a)
                (state_of j (view (r.lrem progress_queue x db).1) m a))
            e (lrem-Reach x db h a),
        omega (arith, l),
        omega arith,
      )

  -- Sent again, LPUSH adds a copy.
  pub lpush-Resends :
      (x : Str) (n : ℕ) → Resends r j (λ db. (tt, r.lpush job_queue x db)) (taken x n)
  unfolding copies ended
  lpush-Resends x n db h a = elim (Bool-cases (str_eq j x)) [
    | inl q ↦ (
      h,
      a + 1,
      Reach.next here (Step.again (ground (arith, r.lpush_view job_queue x db))),
      omega arith,
      omega arith,
    )
    | inr q ↦
        (h, a, Reach-eq (ground (arith, r.lpush_view job_queue x db)), omega arith, omega arith)
  ]

  -- One copy of the last job in progress is in hand.
  abbrev moving : View → ℕ → ℕ → JobState
  moving v h a = record (state_of j v h a) {
    running = copies j (without_last v.progress);
    held = h + 1;
  }

  pub lmove-Reach :
      (db : Db) (h a : ℕ)
      → Reach
          (state_of j (view db) h a)
          (state_of j (view (r.lmove progress_queue job_queue db).1) h a)
  unfolding copies ended
  lmove-Reach db h a = elim (Option-cases (last? (view db).progress)) [
    | inl e ↦ Reach-eq (ground (arith, r.lmove_view progress_queue job_queue db))
    | inr (x, e) ↦
        let m = copies-move_last j (view db).progress e in
        let v = r.lmove_view progress_queue job_queue db in
        elim (Bool-cases (str_eq j x)) [
          | inl q ↦
              let p : Reach (state_of j (view db) h a) (moving (view db) h a) =
                Reach.next here (
                  Step.take (copies j (without_last (view db).progress)) (ground (arith, m))
                    refl) in
              Reach.next p (Step.put h (omega arith) (ground (arith, v, m)))
          | inr q ↦ Reach-eq (ground (arith, v, m))
        ]
  ]
