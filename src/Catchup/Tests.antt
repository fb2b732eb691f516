-- ===== src/Catchup/Tests.antt =====
-- Rounds of a worker on small queues.
use supercluster.Prelude.{◌≡◌, refl, Bool, true, false, arith, [], ◌∷◌}
use supercluster.Prelude.Text.{Str, codes, str_eq}
use supercluster.Prelude.Lists.{All}
use supercluster.Prelude.Sets.{elem}
use supercluster.Monitor.Redis.Keys.{View, insert_member, remove_last}
use supercluster.Monitor.Redis.Memory.{memory}
use supercluster.Monitor.Worker.{claim, finish, valid_job_key}
use supercluster.Monitor.Worker.Started.{ended}
use supercluster.Monitor.World.{World, answered, refused, unheard, ok}
use supercluster.Monitor.World.Calls.{Ends}
use supercluster.Prelude.Dict.{has_key, lookup}
use supercluster.Monitor.Network.{Network}
use supercluster.Monitor.Network.Tests.{config, answers_from}
use supercluster.Monitor.Pass.{read_status}
use supercluster.Catchup.Forgotten.{answer_lost, forgotten_claim_returns}
use supercluster.Catchup.{turn, Pod, Turn, Printed, entry_of, worker_loop}
use supercluster.Catchup.Served.{Serves, worker_loop-Serves}
use supercluster.Catchup.Marked.{worker_loop-IsMarked}
use supercluster.Catchup.Alone.{worker_loop-ended}

abbrev pod : Pod
pod = record { pod_name = codes "core-1"; worker_index = codes "1" }

abbrev good : Turn
good = record {
  on_failure = λ _. record { exit_zero = false; output = [] };
  new_db = true;
  catchup = true;
  log_file = codes "/data/stellar-core.log";
  apply_sum = codes "250";
  start_time = 100;
  end_time = 130;
}

-- The catchup fails, and there is no log.
abbrev bad : Turn
bad = record good { catchup = false; log_file = [] }

good_entry : entry_of pod good (codes "64/128") ≡ codes "64/128|1|250|30s"
unfolding entry_of str_eq
good_entry = refl

bad_entry : entry_of pod bad (codes "64/128") ≡ codes "64/128|1|N/A|30s"
unfolding entry_of str_eq
bad_entry = refl

abbrev two_jobs : View
two_jobs = record {
  jobs = codes "64/128" ∷ codes "192/128" ∷ [];
  progress = codes "256/128" ∷ [];
  owners = (codes "256/128", codes "core-2") ∷ [];
  succeeded = [];
  failed = [];
  metrics = [];
  retiring = codes "core-3" ∷ [];
}

abbrev quiet : World View
quiet = record { db = two_jobs; slots = []; retried = 0; asked = 0; slept = 0 }

abbrev after_two : View
after_two = (worker_loop memory pod (good ∷ bad ∷ []) quiet).1.db

both_recorded :
    (after_two.succeeded ≡ codes "64/128" ∷ [])
    × (after_two.failed ≡ codes "192/128|core-1" ∷ [])
    × (after_two.progress ≡ codes "256/128" ∷ [])
unfolding worker_loop str_eq insert_member remove_last
both_recorded = (refl, refl, refl)

worker_loop-ended_example :
    ((worker_loop memory pod (good ∷ bad ∷ []) quiet).0 ≡ ok tt)
    × (after_two.jobs ≡ [])
    × All (λ j. ended j after_two ≡ true) two_jobs.jobs
unfolding elem valid_job_key str_eq
worker_loop-ended_example =
    worker_loop-ended memory pod (good ∷ bad ∷ []) quiet refl refl (refl, (refl, tt)) refl

-- The other worker finishes its job before the claim, whose answer comes; the closing transaction
-- fails once.
abbrev busy : World View
busy = record quiet {
  slots =
      record { steps = []; outcome = answered; resent = [] }
      ∷ record {
        steps = finish (codes "core-2") (codes "256/128") (codes "256/128|2|N/A|9s") true ∷ [];
        outcome = answered;
        resent = [];
      }
      ∷ record { steps = claim (codes "core-2") ∷ []; outcome = unheard; resent = [] }
      ∷ [];
}

abbrev fleet : Str → Bool
unfolding elem
fleet s = elem s (codes "core-1" ∷ codes "core-2" ∷ [])

worker_loop-Serves_example :
    Serves memory fleet two_jobs (worker_loop memory pod (good ∷ bad ∷ []) busy).1.db
unfolding elem str_eq
worker_loop-Serves_example =
    worker_loop-Serves memory fleet pod (good ∷ bad ∷ []) busy refl
      (tt, ((refl, tt), ((refl, tt), tt)))

abbrev marked_pod : Pod
marked_pod = record { pod_name = codes "core-3"; worker_index = codes "3" }

worker_loop-IsMarked_example :
    ((worker_loop memory marked_pod (good ∷ bad ∷ []) busy).0 ≡ ok tt)
    × Serves memory fleet two_jobs (worker_loop memory marked_pod (good ∷ bad ∷ []) busy).1.db
unfolding elem str_eq
worker_loop-IsMarked_example =
    worker_loop-IsMarked memory marked_pod fleet (good ∷ bad ∷ []) busy refl
      ((λ _. refl), ((λ _. refl), tt)) (tt, ((refl, tt), ((refl, tt), tt)))

abbrev claimed : Printed
claimed = record { exit_zero = true; output = codes "256/128" }

abbrev failing : World View
failing = record quiet {
  slots =
      record { steps = claim (codes "core-2") ∷ []; outcome = refused; resent = [] }
      ∷ record { steps = []; outcome = unheard; resent = [] }
      ∷ [];
}

abbrev losing : World View
losing = record quiet { slots = answer_lost }

-- No request is answered.
abbrev silent : Network
silent = record (answers_from 0) { answers = λ i host. false }

forgotten_claim_returns_example :
    ((turn memory pod good losing).0 ≡ ok tt)
    × ((turn memory pod good losing).1.db.progress ≡ codes "64/128" ∷ codes "256/128" ∷ [])
    × Ends
        (λ _ u.
          (u.db.jobs ≡ codes "64/128" ∷ codes "256/128" ∷ codes "192/128" ∷ [])
          × (u.db.progress ≡ [])
          × (u.db.owners ≡ [])
          × (u.retried ≡ 2))
        (read_status memory config silent 3 (turn memory pod good losing).1)
unfolding elem has_key lookup str_eq
forgotten_claim_returns_example =
    forgotten_claim_returns memory config silent pod good 3 losing refl refl (λ _. refl) refl
      (refl, tt) (λ _ _. refl) (omega arith)
