-- ===== src/Driver/Verdicts.antt =====
-- When the driver ends the mission, and how.
use supercluster.Prelude.{
  ℕ, suc, ◌+◌, ◌-◌, ◌*◌, ◌<◌, ◌≡◌, refl, ◌∙◌, arith, Bool, true, false, not, ◌&&◌, List, [], ◌∷◌,
  Option, none, some, ltb, leb, ◌==◌, if◌then◌else◌, Bool-cases, inl, inr,
}
use supercluster.Prelude.Text.{Str}
use supercluster.Prelude.Lists.{length}
use supercluster.Driver.{
  Polled, Driver, Verdict, running, complete, catch_up_failed, stalled, not_reachable, retire,
  delete_pods, to_retire, check_advance, ask_metrics, after_deletes, no_live_workers, all_finished,
  check_stall, on_status, poll, poll_loop, go_on, first_driver,
}

-- What the answers say of the mission, by two counters: how many answers in a row are missing, and
-- how many statuses in a row, missing answers aside, show jobs in progress and no live worker.
abbrev pub verdict_of : {F : Type 0} → ℕ → ℕ → List (Option (Polled F)) → Verdict
verdict_of missing stuck [] = running
verdict_of missing stuck (none ∷ l) =
    let rest = verdict_of (suc missing) stuck l in if suc missing == 10 then not_reachable else rest
verdict_of missing stuck (some s ∷ l) =
    let stay = verdict_of 0 (suc stuck) l in
    let rest = verdict_of 0 0 l in
    if not (length s.jobs_failed == 0)
    then catch_up_failed
    else if ltb 0 (length s.jobs_in_progress) && s.workers_up == 0
    then (if suc stuck == 30 then stalled else stay)
    else if s.num_remain == 0 && length s.jobs_in_progress == 0
    then complete
    else rest

module _ {F : Type 0} (eq : F → F → Bool) (deletes : ℕ → Str → Bool) where
  -- The variables count what the two counters count.
  abbrev Counts : ℕ → ℕ → Driver F → Type 0
  Counts missing stuck d =
      (d.timeout_left + 60 * missing ≡ 600)
      × (d.stalled_for ≡ 60 * stuck)
      × (missing < 10)
      × (stuck < 30)

  delete_pods-stalled :
      (pods : List Str) (d : Driver F)
      → ((delete_pods eq deletes pods d).1.stalled_for ≡ d.stalled_for)
        × ((delete_pods eq deletes pods d).1.timeout_left ≡ d.timeout_left)
  unfolding delete_pods
  delete_pods-stalled [] d = (refl, refl)
  delete_pods-stalled (p ∷ pods) d = elim (Bool-cases (deletes (length d.requested) p)) [
    | inl e ↦ rw e (delete_pods-stalled pods _)
    | inr e ↦ rw e (refl, refl)
  ]

  retire-stalled :
      (s : Polled F) (d : Driver F)
      → ((retire eq deletes s d).stalled_for ≡ d.stalled_for)
        × ((retire eq deletes s d).timeout_left ≡ d.timeout_left)
  unfolding retire
  retire-stalled s d =
      go (delete_pods eq deletes (to_retire eq deletes s d) d)
        (delete_pods-stalled (to_retire eq deletes s d) d)
    where
      go :
          (x : Bool × Driver F)
          → (x.1.stalled_for ≡ d.stalled_for) × (x.1.timeout_left ≡ d.timeout_left)
          → ((after_deletes eq deletes (to_retire eq deletes s d) x).stalled_for ≡ d.stalled_for)
            × ((after_deletes eq deletes (to_retire eq deletes s d) x).timeout_left
                ≡ d.timeout_left)
      go (true, d') h = h
      go (false, d') h = h

  -- A continuation gives `v` from every state with these counts.
  abbrev Gives : Verdict → ℕ → ℕ → (Driver F → Verdict × Driver F) → Type 0
  Gives v missing stuck k = (d : Driver F) → Counts missing stuck d → (k d).0 ≡ v

  ask_metrics-Counts :
      (finished : Bool) (missing stuck : ℕ) (d : Driver F)
      → Counts missing stuck d
      → Counts missing stuck (ask_metrics eq deletes finished d)
  unfolding ask_metrics
  ask_metrics-Counts finished missing stuck d h = elim (Bool-cases (d.until_metrics - 60 == 0)) [
    | inl e ↦ rw e h
    | inr e ↦ rw e h
  ]

  check_advance-Counts :
      (last : F) (s : Polled F) (missing stuck : ℕ) (d : Driver F)
      → Counts missing stuck d
      → Counts missing stuck (check_advance eq deletes last s d)
  unfolding check_advance
  check_advance-Counts last s missing stuck d h = h

  advanced :
      (s : Polled F) (d : Driver F) (k : Driver F → Verdict × Driver F) (waited stuck : ℕ)
      (v : Verdict)
      → Gives v 0 stuck k
      → Counts 0 stuck (record d { stalled_for = waited })
      → (k (
          ask_metrics eq deletes false (
            check_advance eq deletes d.last_duration s
              (record d { stalled_for = waited; last_duration = s.mission_duration })))).0
        ≡ v
  advanced s d k waited stuck v g h =
      let d' : Driver F = record d { stalled_for = waited; last_duration = s.mission_duration } in
      g _ (
        ask_metrics-Counts false 0 stuck (check_advance eq deletes d.last_duration s d')
          (check_advance-Counts d.last_duration s 0 stuck d' h))

  check_stall-verdict :
      (s : Polled F) (stuck : ℕ) (d : Driver F) (k : Driver F → Verdict × Driver F)
      (stay rest : Verdict)
      → Counts 0 stuck d
      → (suc stuck < 30 → Gives stay 0 (suc stuck) k)
      → Gives rest 0 0 k
      → (go_on eq deletes k (check_stall eq deletes s d)).0 ≡ (
          if ltb 0 (length s.jobs_in_progress) && s.workers_up == 0
          then (if suc stuck == 30 then stalled else stay)
          else if s.num_remain == 0 && length s.jobs_in_progress == 0
          then complete
          else rest)
  unfolding check_stall no_live_workers all_finished ask_metrics check_advance
  check_stall-verdict s stuck d k stay rest h f g =
      elim (Bool-cases (ltb 0 (length s.jobs_in_progress) && s.workers_up == 0)) [
        | inl e ↦
            let u : (s.num_remain == 0 && length s.jobs_in_progress == 0) ≡ false = ground arith in
            elim (Bool-cases (suc stuck == 30)) [
              | inl q ↦
                  let o : leb 1800 (d.stalled_for + 60) ≡ true = ground arith in rw (e, o, q) refl
              | inr q ↦
                  let o : leb 1800 (d.stalled_for + 60) ≡ false = ground arith in
                  rw (e, o, q, u)
                    (advanced s d k (d.stalled_for + 60) (suc stuck) stay (f (ground arith))
                      (h.0, omega (arith, h.1), omega arith, ground arith))
            ]
        | inr e ↦ elim (Bool-cases (s.num_remain == 0 && length s.jobs_in_progress == 0)) [
          | inl q ↦ rw (e, q) refl
          | inr q ↦ rw (e, q) (advanced s d k 0 0 rest g (h.0, refl, omega arith, omega arith))
        ]
      ]

  poll_loop-counted :
      (l : List (Option (Polled F))) (missing stuck : ℕ) (d : Driver F)
      → Counts missing stuck d
      → (poll_loop eq deletes l d).0 ≡ verdict_of missing stuck l
  unfolding poll_loop poll on_status
  poll_loop-counted [] missing stuck d h = refl
  poll_loop-counted (none ∷ l) missing stuck d (t, w, m, k) =
      elim (Bool-cases (suc missing == 10)) [
        | inl e ↦ let o : (d.timeout_left - 60 == 0) ≡ true = ground arith in rw (o, e) refl
        | inr e ↦
            let o : (d.timeout_left - 60 == 0) ≡ false = ground arith in
            rw (o, e) (poll_loop-counted l (suc missing) stuck _ (omega arith, w, ground arith, k))
      ]
  poll_loop-counted (some s ∷ l) missing stuck d (t, w, m, k) =
      let d' : Driver F = record d { timeout_left = 600 } in
      let (x, y) = retire-stalled s d' in
      elim (Bool-cases (length s.jobs_failed == 0)) [
        | inl e ↦ rw e (
            check_stall-verdict s stuck (retire eq deletes s d') (poll_loop eq deletes l)
              (verdict_of 0 (suc stuck) l) (verdict_of 0 0 l)
              (omega (arith, y), x ∙ w, omega arith, k)
              (λ b u c. poll_loop-counted l 0 (suc stuck) u c) (λ u c. poll_loop-counted l 0 0 u c))
        | inr e ↦ rw e refl
      ]

-- The verdict of the driver depends only on the answers of the monitor, and is the one of the two
-- counters: unless it has ended before, the mission fails at the tenth missing answer in a row,
-- at the thirtieth status in a row that shows jobs in progress and no live worker, and at the
-- first that shows a failed job; it is complete at the first status that shows no failed job,
-- none that remains and none in progress.
pub poll_loop-verdict :
    {F : Type 0} (eq : F → F → Bool) (deletes : ℕ → Str → Bool) (minus_one : F) (pods : List Str)
    (l : List (Option (Polled F)))
    → (poll_loop eq deletes l (first_driver minus_one pods)).0 ≡ verdict_of 0 0 l
unfolding first_driver
poll_loop-verdict eq deletes minus_one pods l =
    poll_loop-counted eq deletes l 0 0 (first_driver minus_one pods)
      (refl, refl, omega arith, omega arith)
