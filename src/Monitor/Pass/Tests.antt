-- ===== src/Monitor/Pass/Tests.antt =====
-- A pass over a store with an orphan, and an entry whose time to apply is not known.
use supercluster.Prelude.{ℕ, true, List, ◌≡◌, refl, [], ◌∷◌, ◌++◌, Option, none, some}
use supercluster.Prelude.Text.{Str, codes, str_eq}
use supercluster.Python.Number.Naturals.{naturals}
use supercluster.Monitor.Worker.{claim}
use supercluster.Monitor.Network.Tests.{config, answers_from}
use supercluster.Monitor.World.{World, Slot, answered}
use supercluster.Monitor.Redis.Keys.{View}
use supercluster.Monitor.Redis.Memory.{memory}
use supercluster.Monitor.Worker.Kept.{tracked}
use supercluster.Prelude.Sets.{elem}
use supercluster.Prelude.{arith}
use supercluster.Monitor.World.Calls.{Ends}
use supercluster.Prelude.{◌+◌, ◌<◌, ◌⊎◌}
use supercluster.Prelude.Lists.{length}
use supercluster.Monitor.Worker.{finish}
use supercluster.Monitor.Worker.Started.{ended}
use supercluster.Monitor.World.{ok}
use supercluster.Monitor.World.Calls.{IsUp}
use supercluster.Monitor.Requeue.Loss.{alone}
use supercluster.Monitor.Pass.{Queues, read_queues, requeue_orphans}
use supercluster.Monitor.Pass.Finished.{read_queues-ended}
use supercluster.Monitor.Pass.EarlyEnd.{claimed_by, requeue_orphans_early_end}
use supercluster.Monitor.Pass.Answered.{Untouched, retry_stuck-Answers}
use supercluster.Monitor.Pass.{Status, retry_stuck}
use supercluster.Monitor.Pass.Board.{Board, Clock, first_board}
use supercluster.Monitor.Pass.Metrics.{count_timing, pass}
use supercluster.Monitor.Pass.Metrics.Entry.{
  entry, observed, full_seconds, tx_apply_seconds, count_timing-entry,
}

-- `float` of the texts of one digit.
abbrev one_digit : Str → Option ℕ
one_digit (c ∷ []) = some c
one_digit _ = none

abbrev board : Board ℕ
board = first_board naturals

abbrev clock : Clock ℕ
clock = record { refresh_start = 5; refresh_end = 6; status_time = 8 }

count_timing-entry_example :
    count_timing naturals one_digit
      (entry (codes "64/128") (codes "0") (codes "N/A") (codes "9s"))
      board
    ≡ record board {
      full_durations = [] ++ observed (full_seconds naturals one_digit (codes "9s"));
      tx_apply_durations =
          [] ++ observed (tx_apply_seconds naturals one_digit (codes "N/A") (codes "9s"));
    }
unfolding supercluster.Monitor.Pass.Metrics.Entry.has_bar
count_timing-entry_example =
    count_timing-entry naturals one_digit (codes "64/128") (codes "0") (codes "N/A") (codes "9s")
      board refl refl refl refl

abbrev job : Str
job = codes "64/128"

-- The job is in progress, and nobody owns it.
abbrev orphaned : View
orphaned = record {
  jobs = [];
  progress = job ∷ [];
  owners = [];
  succeeded = [];
  failed = [];
  metrics = [];
  retiring = [];
}

-- A worker claims the job after it was requeued.
abbrev slots : List Slot
slots =
    quiet
    ∷ quiet
    ∷ quiet
    ∷ quiet
    ∷ quiet
    ∷ quiet
    ∷ quiet
    ∷ record { steps = claim (codes "core-1") ∷ []; outcome = answered; resent = [] }
    ∷ []
  where
    quiet : Slot
    quiet = record { steps = []; outcome = answered; resent = [] }

abbrev world : World View
world = record { db = orphaned; slots = slots; retried = 0; asked = 0; slept = 0 }

retry_stuck-Answers_example :
    Ends
      (λ _ w. Untouched memory config (answers_from 0) world w)
      (retry_stuck memory config
        (answers_from 0)
        3
        true
        (codes "core-2" ∷ codes "core-1" ∷ [])
        ((job, codes "core-1") ∷ [])
        world)
unfolding elem str_eq
retry_stuck-Answers_example =
    retry_stuck-Answers memory config (answers_from 0) 3 true (codes "core-2" ∷ codes "core-1" ∷ [])
      ((job, codes "core-1") ∷ []) (codes "core-1") world refl (λ i. ground arith)

-- A worker finishes the job in progress while phase 1 reads.
abbrev finishing : World View
finishing = record world {
  slots =
      record { steps = claim (codes "core-1") ∷ []; outcome = answered; resent = [] }
      ∷ record {
        steps = finish (codes "core-1") job (codes "m") true ∷ [];
        outcome = answered;
        resent = [];
      }
      ∷ [];
}

read_queues-ended_example :
    Ends
      (λ q w. IsUp w × ((0 < q.remain + length q.in_progress) ⊎ (ended job w.db ≡ true)))
      (read_queues memory config (answers_from 0) finishing)
unfolding tracked elem str_eq
read_queues-ended_example =
    read_queues-ended memory config (answers_from 0) job finishing
      ((refl, refl), ((refl, refl), tt)) refl

abbrev orphan_queues : Queues
orphan_queues = record {
  remain = 0;
  succeeded = 0;
  failed = [];
  in_progress = job ∷ [];
  owners = [];
}

abbrev racing : World View
racing = record world {
  slots = alone true ∷ alone true ∷ alone true ∷ alone true ∷ claimed_by (codes "core-1") ∷ [];
}

requeue_orphans_early_end_example :
    (q : Queues) × (w : World View) × (requeue_orphans memory config
        (answers_from 0)
        orphan_queues
        racing
      ≡ (ok q, w))
    × (q.remain ≡ 0)
    × (q.in_progress ≡ [])
    × (w.db.progress ≡ job ∷ [])
requeue_orphans_early_end_example =
    requeue_orphans_early_end memory config (answers_from 0) job (codes "core-1") orphan_queues
      racing [] refl (record { none_waits = refl; in_progress = refl; no_owner = refl }) refl refl
