-- ===== src/Driver/Tests.antt =====
-- Some rounds of the driver.
use supercluster.Prelude.{ℕ, ◌≡◌, refl, List, [], ◌∷◌, Option, none, some, Bool, ◌==◌, leb}
use supercluster.Prelude.Text.{Str, codes, str_eq}
use supercluster.Driver.{Polled, Driver, Verdict, complete, not_reachable, poll_loop, first_driver}
use supercluster.Driver.Verdicts.{verdict_of, poll_loop-verdict}
use supercluster.Driver.Requests.{Asks, is_listed, poll_loop-Asks}

abbrev working : Polled ℕ
working = record {
  num_remain = 3;
  jobs_failed = [];
  jobs_in_progress = codes "64/128" ∷ [];
  retirable = codes "core-2" ∷ codes "core-7" ∷ [];
  workers_up = 1;
  mission_duration = 30;
}

abbrev dead : Polled ℕ
dead = record working { workers_up = 0; retirable = [] }

abbrev finished : Polled ℕ
finished = record working { num_remain = 0; jobs_in_progress = []; workers_up = 0 }

abbrev pods : List Str
pods = codes "core-0" ∷ codes "core-1" ∷ codes "core-2" ∷ []

abbrev answers : List (Option (Polled ℕ))
answers = some working ∷ none ∷ some dead ∷ some finished ∷ none ∷ []

-- Kubernetes refuses the first request.
abbrev deletes : ℕ → Str → Bool
deletes i pod = leb 1 i

abbrev after : Verdict × Driver ℕ
after = poll_loop ◌==◌ deletes answers (first_driver 0 pods)

asked_twice : (after.1.requested ≡ codes "core-2" ∷ codes "core-2" ∷ []) × (after.0 ≡ complete)
unfolding poll_loop first_driver str_eq
asked_twice = (refl, refl)

nine_missing : List (Option (Polled ℕ)) → List (Option (Polled ℕ))
nine_missing l = none ∷ none ∷ none ∷ none ∷ none ∷ none ∷ none ∷ none ∷ none ∷ l

tenth : (poll_loop ◌==◌ deletes (nine_missing (none ∷ [])) (first_driver 0 pods)).0 ≡ not_reachable
unfolding poll_loop first_driver nine_missing
tenth = refl

poll_loop-verdict_example :
    (poll_loop ◌==◌ deletes answers (first_driver 0 pods)).0 ≡ verdict_of 0 0 answers
poll_loop-verdict_example = poll_loop-verdict ◌==◌ deletes 0 pods answers

poll_loop-Asks_example :
    Asks ◌==◌ deletes
      (λ p. is_listed p answers)
      (first_driver 0 pods)
      (poll_loop ◌==◌ deletes answers (first_driver 0 pods)).1
poll_loop-Asks_example = poll_loop-Asks ◌==◌ deletes answers (first_driver 0 pods)
