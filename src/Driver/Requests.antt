-- ===== src/Driver/Requests.antt =====
-- Which pods the driver has deleted.
use mathlib.Core.List.{append-nil, append_assoc}
use supercluster.Prelude.{
  ℕ, zero, suc, ◌+◌, ◌-◌, leb, ◌≡◌, refl, ap, sym, ◌∙◌, arith, Bool, true, false, ◌&&◌, ◌||◌, List,
  [], ◌∷◌, ◌++◌, Option, none, some, ◌==◌, Bool-cases, inl, inr, if◌then◌else◌,
}
use supercluster.Prelude.Text.{Str, str_eq_iff}
use supercluster.Prelude.Lists.{length, take, All, All-mono, All-append}
use supercluster.Prelude.Sets.{elem, keep_if, minus, elem-minus}
use supercluster.Driver.{
  Polled, Driver, Verdict, running, complete, catch_up_failed, stalled, not_reachable, retire,
  delete_pods, to_retire, after_deletes, ask_metrics, check_advance, check_stall, on_status, poll,
  poll_loop, go_on, max_retired, no_live_workers, all_finished,
}

-- Some status lists the pod as one that may be removed.
unfoldable pub is_listed : {F : Type 0} → Str → List (Option (Polled F)) → Bool
unfolding elem
is_listed pod [] = false
is_listed pod (none ∷ l) = is_listed pod l
is_listed pod (some s ∷ l) = elem pod s.retirable || is_listed pod l

module _ {F : Type 0} (eq : F → F → Bool) (deletes : ℕ → Str → Bool) where
  -- The pods of `new` were asked for in between, `ok` holds of each, and no pod has become live.
  abbrev pub Asks : (Str → Bool) → Driver F → Driver F → Type 0
  Asks ok d d' =
      (new : List Str) × (d'.requested ≡ d.requested ++ new)
      × All (λ p. (elem p d.live_pods ≡ true) × (ok p ≡ true)) new
      × ((p : Str) → elem p d'.live_pods ≡ true → elem p d.live_pods ≡ true)

  take-All : (P : Str → Type 0) (n : ℕ) (l : List Str) → All P l → All P (take n l)
  unfolding take
  take-All P zero l h = tt
  take-All P (suc n) [] h = tt
  take-All P (suc n) (x ∷ l) h = (h.0, take-All P n l h.1)

  elem_kept :
      (live : List Str) (l : List Str)
      → All (λ p. (elem p live ≡ true) × (elem p l ≡ true)) (keep_if (λ p. elem p live) l)
  unfolding keep_if elem
  elem_kept live [] = tt
  elem_kept live (x ∷ l) =
      let rest =
        All-mono (λ p. (elem p live ≡ true) × (elem p l ≡ true))
          (λ p. (elem p live ≡ true) × (elem p (x ∷ l) ≡ true)) (keep_if (λ p. elem p live) l)
          (λ p (a, b). (a, ground arith)) (elem_kept live l) in
      elim (Bool-cases (elem x live)) [
        | inl e ↦ rw e ((e, ground (arith, str_eq_iff x x)), rest)
        | inr e ↦ rw e rest
      ]

  deleted :
      (P : Str → Type 0) (pods : List Str) (d : Driver F)
      → All P pods
      → (new : List Str) × ((delete_pods eq deletes pods d).1.requested ≡ d.requested ++ new)
        × All P new
        × ((delete_pods eq deletes pods d).1.live_pods ≡ d.live_pods)
  unfolding delete_pods
  deleted P [] d h = ([], sym (append-nil d.requested), tt, refl)
  deleted P (p ∷ pods) d h =
      let d' : Driver F = record d { requested = d.requested ++ p ∷ [] } in
      let (new, q, a, v) = deleted P pods d' h.1 in
      elim (Bool-cases (deletes (length d.requested) p)) [
        | inl e ↦ rw e (p ∷ new, q ∙ append_assoc d.requested (p ∷ []) new, (h.0, a), v)
        | inr e ↦ rw e (p ∷ [], refl, (h.0, tt), refl)
      ]

  Asks-same :
      (ok : Str → Bool) (d d' : Driver F)
      → d'.requested ≡ d.requested
      → d'.live_pods ≡ d.live_pods
      → Asks ok d d'
  Asks-same ok d d' q v = ([], q ∙ sym (append-nil d.requested), tt, λ p h. ap (elem p) (sym v) ∙ h)

  Asks-mono :
      (f g : Str → Bool) (d d' : Driver F)
      → ((p : Str) → f p ≡ true → g p ≡ true)
      → Asks f d d'
      → Asks g d d'
  Asks-mono f g d d' k (new, q, a, v) = (
    new,
    q,
    All-mono (λ p. (elem p d.live_pods ≡ true) × (f p ≡ true))
        (λ p. (elem p d.live_pods ≡ true) × (g p ≡ true)) new (λ p (x, y). (x, k p y)) a,
    v,
  )

  Asks-trans : (ok : Str → Bool) (a b c : Driver F) → Asks ok a b → Asks ok b c → Asks ok a c
  Asks-trans ok a b c (new, q, h, v) (new', q', h', v') = (
    new ++ new',
    q' ∙ ap (λ l. l ++ new') q ∙ append_assoc a.requested new new',
    All-append (λ p. (elem p a.live_pods ≡ true) × (ok p ≡ true)) new new' h
        (All-mono (λ p. (elem p b.live_pods ≡ true) × (ok p ≡ true))
          (λ p. (elem p a.live_pods ≡ true) × (ok p ≡ true)) new' (λ p (x, y). (v p x, y)) h'),
    λ p k. v p (v' p k),
  )

  retire-Asks :
      (s : Polled F) (d : Driver F) → Asks (λ p. elem p s.retirable) d (retire eq deletes s d)
  unfolding retire to_retire
  retire-Asks s d =
      let pods = to_retire eq deletes s d in
      let P : Str → Type 0 = λ p. (elem p d.live_pods ≡ true) × (elem p s.retirable ≡ true) in
      let (new, q, a, v) = deleted P pods d (
        take-All P max_retired (keep_if (λ p. elem p d.live_pods) s.retirable)
          (elem_kept d.live_pods s.retirable)) in
      go new (delete_pods eq deletes pods d) q a v
    where
      live_before :
          (d' : Driver F)
          → d'.live_pods ≡ d.live_pods
          → (p : Str) (pods : List Str) → elem p (minus d'.live_pods pods) ≡ true
          → elem p d.live_pods ≡ true
      live_before d' v p pods k =
          ap (elem p) (sym v) ∙ ground (arith, elem-minus p d'.live_pods pods)

      go :
          (new : List Str) (x : Bool × Driver F)
          → x.1.requested ≡ d.requested ++ new
          → All (λ p. (elem p d.live_pods ≡ true) × (elem p s.retirable ≡ true)) new
          → x.1.live_pods ≡ d.live_pods
          → Asks (λ p. elem p s.retirable) d (after_deletes eq deletes (to_retire eq deletes s d) x)
      go new (true, d') q a v = (new, q, a, λ p k. live_before d' v p (to_retire eq deletes s d) k)
      go new (false, d') q a v = (new, q, a, λ p k. ap (elem p) (sym v) ∙ k)

  -- The pods and the requests are as before.
  abbrev Spares : Driver F → Driver F → Type 0
  Spares d d' = (d'.requested ≡ d.requested) × (d'.live_pods ≡ d.live_pods)

  ask_metrics-Spares :
      (finished : Bool) (d : Driver F) → Spares d (ask_metrics eq deletes finished d)
  unfolding ask_metrics
  ask_metrics-Spares finished d = elim (Bool-cases (d.until_metrics - 60 == 0)) [
    | inl e ↦ rw e (refl, refl)
    | inr e ↦ rw e (refl, refl)
  ]

  check_stall-Spares : (s : Polled F) (d : Driver F) → Spares d (check_stall eq deletes s d).1
  unfolding check_stall check_advance
  check_stall-Spares s d =
      let waited = if no_live_workers eq deletes s then d.stalled_for + 60 else 0 in
      let d' : Driver F = record d { stalled_for = waited; last_duration = s.mission_duration } in
      elim (Bool-cases (no_live_workers eq deletes s && leb 1800 waited)) [
        | inl e ↦ rw e (refl, refl)
        | inr e ↦ rw e (
            ask_metrics-Spares (all_finished eq deletes s)
              (check_advance eq deletes d.last_duration s d'))
      ]

  on_status-Asks :
      (s : Polled F) (d : Driver F) → Asks (λ p. elem p s.retirable) d (on_status eq deletes s d).1
  unfolding on_status
  on_status-Asks s d =
      let ok : Str → Bool = λ p. elem p s.retirable in
      let d1 : Driver F = record d { timeout_left = 600 } in
      let d2 = retire eq deletes s d1 in
      elim (Bool-cases (length s.jobs_failed == 0)) [
        | inl e ↦
            let c = check_stall-Spares s d2 in
            rw e (
              Asks-trans ok d d2 (check_stall eq deletes s d2).1 (retire-Asks s d1)
                (Asks-same ok d2 (check_stall eq deletes s d2).1 c.0 c.1))
        | inr e ↦ rw e (Asks-same ok d d1 refl refl)
      ]

  go_on-Asks :
      (ok : Str → Bool) (l : List (Option (Polled F))) (d : Driver F) (x : Verdict × Driver F)
      → Asks ok d x.1
      → ((d' : Driver F) → Asks ok d' (poll_loop eq deletes l d').1)
      → Asks ok d (go_on eq deletes (poll_loop eq deletes l) x).1
  go_on-Asks ok l d (running, d') h k = Asks-trans ok d d' (poll_loop eq deletes l d').1 h (k d')
  go_on-Asks ok l d (complete, d') h k = h
  go_on-Asks ok l d (catch_up_failed, d') h k = h
  go_on-Asks ok l d (stalled, d') h k = h
  go_on-Asks ok l d (not_reachable, d') h k = h

  -- Each pod that the loop asks Kubernetes to delete was live before and is listed as retirable in
  -- one of the statuses that it got, and no pod becomes live again, whichever requests fail.
  pub poll_loop-Asks :
      (l : List (Option (Polled F))) (d : Driver F)
      → Asks (λ p. is_listed p l) d (poll_loop eq deletes l d).1
  unfolding poll_loop poll is_listed
  poll_loop-Asks [] d = Asks-same (λ _. false) d d refl refl
  poll_loop-Asks (none ∷ l) d =
      let d' : Driver F = record d { timeout_left = d.timeout_left - 60 } in
      go_on-Asks (λ p. is_listed p l) l d (poll eq deletes none d)
        (Asks-same (λ p. is_listed p l) d d' refl refl) (λ u. poll_loop-Asks l u)
  poll_loop-Asks (some s ∷ l) d =
      let ok : Str → Bool = λ p. elem p s.retirable || is_listed p l in
      go_on-Asks ok l d (on_status eq deletes s d)
        (Asks-mono (λ p. elem p s.retirable) ok d (on_status eq deletes s d).1 (λ p h. ground arith)
          (on_status-Asks s d))
        (λ u.
          Asks-mono (λ p. is_listed p l) ok u (poll_loop eq deletes l u).1 (λ p h. ground arith)
            (poll_loop-Asks l u))
