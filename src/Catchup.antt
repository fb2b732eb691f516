-- ===== src/Catchup.antt =====
-- The program of a worker pod: src/MissionParallelCatchup/parallel_catchup_helm/files/worker.sh.
pub mod Served
pub mod Marked
pub mod Closed
pub mod Forgotten
pub mod Alone
mod Tests
use supercluster.Prelude.{
  ℕ, zero, suc, ◌-◌, Bool, true, false, not, ◌&&◌, List, [], ◌∷◌, ◌++◌, Option, none, some, leb,
  ◌==◌, if◌then◌else◌,
}
use supercluster.Prelude.Text.{Str, codes, str_eq}
use supercluster.Prelude.Sets.{elem}
use supercluster.Python.Digits.{decimal}
use supercluster.Monitor.Redis.{Redis}
use supercluster.Monitor.Redis.Keys.{retiring_key}
use supercluster.Monitor.Worker.{claim_script, finish_job, valid_job_key}
use supercluster.Monitor.World.{
  World, Slot, Reply, ok, raised, unfinished, Action, pure, ◌>>=◌, ◌>>◌, call_once, sleep,
}

-- The environment of the pod: POD_NAME and WORKER_INDEX.
pub record Pod : Type 0 where
  pub pod_name : Str
  pub worker_index : Str

-- What redis-cli leaves: whether its exit code is 0, and its output as `$(...)` takes it.
pub record Printed : Type 0 where
  pub exit_zero : Bool
  pub output : Str

-- What one round meets outside the store: how redis-cli ends for a command that has failed, which
-- may be another way each time; whether both calls of stellar-core succeed; the newest log file and
-- what the pipeline finds in it; and the clock before and after the catchup.
pub record Turn : Type 0 where
  pub on_failure : List Slot → Printed
  pub new_db : Bool
  pub catchup : Bool
  pub log_file : Str
  pub apply_sum : Str
  pub start_time : ℕ
  pub end_time : ℕ

-- `$(...)` drops the line ends at the end of an output.
unfoldable pub strip_newlines : Str → Str
strip_newlines [] = []
strip_newlines (c ∷ s) =
    let rest = strip_newlines s in if c == 10 && str_eq rest [] then [] else c ∷ rest

-- `$((END_TIME - START_TIME))s`
unfoldable pub duration : Turn → Str
unfolding decimal
duration t =
    (if leb t.start_time t.end_time
      then decimal (t.end_time - t.start_time)
      else b'-' ∷ decimal (t.start_time - t.end_time))
    ++ codes "s"

-- The text, or N/A for the empty one.
unfoldable pub or_missing : Str → Str
or_missing [] = codes "N/A"
or_missing (c ∷ s) = c ∷ s

-- `$JOB_KEY|$core_id|$tx_apply_ms|$DURATION`
unfoldable pub entry_of : Pod → Turn → Str → Str
unfolding duration or_missing
entry_of p t job =
    let tx_apply = if str_eq t.log_file [] then codes "N/A" else or_missing t.apply_sum in
    job ++ b'|' ∷ or_missing p.worker_index ++ b'|' ∷ tx_apply ++ b'|' ∷ duration t

-- SLEEP_INTERVAL, and the attempts at the closing transaction
abbrev pub sleep_interval : ℕ
sleep_interval = 10

abbrev pub close_attempts : ℕ
close_attempts = 30

-- The output for a reply of 0 or 1
abbrev pub bit_text : Bool → Str
bit_text b = if b then codes "1" else codes "0"

-- An empty reply is an empty line.
abbrev pub reply_text : Option Str → Str
reply_text none = []
reply_text (some s) = strip_newlines s

module _ (r : Redis) (p : Pod) (t : Turn) where
  open r use {Db, smembers}

  -- redis-cli never ends the script, unlike a command of the monitor.
  abbrev pub printed : {A : Type 0} → (A → Str) → Reply A × World Db → Reply Printed × World Db
  printed show (ok a, w) = (ok (record { exit_zero = true; output = show a }), w)
  printed show (raised, w) = (ok (t.on_failure w.slots), w)
  printed show (unfinished, w) = (unfinished, w)

  unfoldable pub redis_cli : {A : Type 0} → (A → Str) → (Db → A × Db) → Action Db Printed
  unfolding call_once
  redis_cli show op w = printed show (call_once r op w)

  -- SISMEMBER RETIRING POD_NAME
  unfoldable pub sismember : Db → Bool × Db
  unfolding elem
  sismember db = (elem p.pod_name (smembers retiring_key db), db)

  unfoldable pub ask_retiring : Action Db Printed
  unfolding redis_cli sismember
  ask_retiring = redis_cli bit_text sismember

  -- The EVAL of the claim script
  unfoldable pub ask_claim : Action Db Printed
  unfolding redis_cli strip_newlines claim_script
  ask_claim = redis_cli reply_text (claim_script r p.pod_name)

  -- The closing transaction
  unfoldable pub close_script : Str → Db → Unit {0} × Db
  unfolding entry_of finish_job
  close_script job db =
      (tt, finish_job r p.pod_name job (entry_of p t job) (t.new_db && t.catchup) db)

  unfoldable pub ask_close : Str → Action Db Printed
  unfolding redis_cli close_script
  ask_close job = redis_cli (λ _. []) (close_script job)

  -- The attempts that are left: whether one has come through.
  unfoldable pub close_job : ℕ → Str → Action Db Bool
  unfolding ask_close sleep
  close_job zero job = pure false
  close_job (suc left) job =
      let again = close_job left job in
      ask_close job >>= λ result. if result.exit_zero then pure true else sleep 10 >> again

  -- `exit 1`, which ends the pod's program
  abbrev pub exit_failure : Action Db (Unit {0})
  exit_failure w = (raised, w)

  -- From the reply to the claim to the end of the round
  unfoldable pub process : Printed → Action Db (Unit {0})
  unfolding close_job valid_job_key sleep
  process reply =
      if reply.exit_zero && valid_job_key reply.output
      then (close_job close_attempts reply.output >>= λ closed.
          if closed then pure tt else exit_failure)
      else sleep sleep_interval

  -- One round of the loop
  unfoldable pub turn : Action Db (Unit {0})
  unfolding ask_retiring ask_claim process sleep
  turn = ask_retiring >>= λ retiring.
      if not (str_eq retiring.output (codes "0"))
      then sleep sleep_interval
      else ask_claim >>= process

-- The loop, for the rounds that are given.
unfoldable pub worker_loop : (r : Redis) → Pod → List Turn → Action r.Db (Unit {0})
unfolding turn
worker_loop r p [] = pure tt
worker_loop r p (t ∷ ts) = turn r p t >> worker_loop r p ts
