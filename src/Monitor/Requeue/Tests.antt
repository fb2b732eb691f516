-- ===== src/Monitor/Requeue/Tests.antt =====
-- The theorems on requeuing, at a store with one job in progress.
use supercluster.Prelude.{◌≡◌, refl, true, false, List, [], ◌∷◌, arith}
use supercluster.Prelude.Text.{Str, codes, str_eq}
use supercluster.Prelude.Sets.{elem}
use supercluster.Monitor.Redis.Keys.{View, remove_last}
use supercluster.Monitor.Redis.Memory.{memory}
use supercluster.Monitor.Worker.{claim, finish}
use supercluster.Monitor.Worker.Kept.{tracked, failed_has}
use supercluster.Monitor.World.{World, Slot, answered, raised, ok}
use supercluster.Monitor.World.Calls.{Ends}
use supercluster.Monitor.Requeue.{requeue_job, retry_jobs_in_progress}
use supercluster.Monitor.Requeue.Order.{AllMoved, retry_jobs_in_progress-order}
use supercluster.Monitor.Requeue.Loss.{alone, repeated, requeue_job_loses, requeue_job_drops}

abbrev job : Str
job = codes "64/128"

abbrev other_job : Str
other_job = codes "128/128"

abbrev store : View
store = record {
  jobs = other_job ∷ [];
  progress = job ∷ [];
  owners = [];
  succeeded = [];
  failed = [];
  metrics = [];
  retiring = [];
}

abbrev world : List Slot → World View
world slots = record { db = store; slots = slots; retried = 0; asked = 0; slept = 0 }

-- A worker claims the job between the push and the removal of its owner.
abbrev interference : List Slot
interference =
    record { steps = []; outcome = answered; resent = [] }
    ∷ record { steps = claim (codes "pod-1") ∷ []; outcome = answered; resent = [] }
    ∷ record {
      steps = claim (codes "pod-2") ∷ finish (codes "pod-1") other_job (codes "m") false ∷ [];
      outcome = answered;
      resent = [];
    }
    ∷ []

retry_jobs_in_progress-order_example :
    Ends (λ _ w. AllMoved memory (world []) w) (retry_jobs_in_progress memory 2 (world []))
retry_jobs_in_progress-order_example =
    retry_jobs_in_progress-order memory 2 (world []) refl (omega arith)

requeue_job_loses_example :
    ((requeue_job memory job (world (alone true ∷ alone false ∷ []))).0 ≡ raised)
    × (tracked job (requeue_job memory job (world (alone true ∷ alone false ∷ []))).1.db ≡ false)
unfolding elem remove_last str_eq failed_has
requeue_job_loses_example =
    requeue_job_loses memory job (world (alone true ∷ alone false ∷ [])) [] refl (record {
      not_waiting = refl;
      in_progress = refl;
      once = refl;
      not_succeeded = refl;
      not_failed = refl;
    })

requeue_job_drops_example :
    ((requeue_job memory job (world repeated)).0 ≡ ok tt)
    × (tracked job (requeue_job memory job (world repeated)).1.db ≡ false)
unfolding elem remove_last str_eq failed_has
requeue_job_drops_example = requeue_job_drops memory job (world repeated) refl (record {
  not_waiting = refl;
  in_progress = refl;
  once = refl;
  not_succeeded = refl;
  not_failed = refl;
})
