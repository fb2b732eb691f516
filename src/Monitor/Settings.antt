-- ===== src/Monitor/Settings.antt =====
-- The settings of src/MissionParallelCatchup/job_monitor.py: what it takes from the environment,
-- and `get_logging_level`.
mod Tests
use supercluster.Prelude.{ℕ, Option, none, some, List, [], ◌∷◌}
use supercluster.Prelude.Text.{Str, codes}
use supercluster.Prelude.Dict.{Dict, lookup, get_or}
use supercluster.Monitor.Network.{Config}

-- The constants of the module `logging`, which documents these numbers.
abbrev pub Level : Type 0
Level = ℕ

abbrev pub info_level : Level
info_level = 20

-- `name_to_level`
abbrev pub name_to_level : Dict Level
name_to_level =
    (codes "CRITICAL", 50)
    ∷ (codes "ERROR", 40)
    ∷ (codes "WARNING", 30)
    ∷ (codes "INFO", info_level)
    ∷ (codes "DEBUG", 10)
    ∷ []

-- The environment is a dict, and `os.getenv(name, default)` is its `get`.
unfoldable pub get_logging_level : Dict Str → Level
unfolding lookup get_or
get_logging_level env =
    elim (lookup (get_or (codes "LOGGING_LEVEL") (codes "INFO") env) name_to_level) [
      | none ↦ info_level
      | some level ↦ level
    ]

-- The names of the keys, where the server is, and what the loop needs.
pub record Settings : Type 0 where
  pub redis_host : Str
  pub redis_port : ℕ
  pub job_queue_name : Str
  pub success_queue_name : Str
  pub failed_queue_name : Str
  pub progress_queue_name : Str
  pub metrics_name : Str
  pub job_owners_name : Str
  pub retiring_name : Str
  pub config : Config
  pub logging_interval_seconds : ℕ

infixl 5 ◌>>=◌
abbrev ◌>>=◌ : {A B : Type 0} → Option A → (A → Option B) → Option B
none >>= f = none
some a >>= f = f a

-- `int` is Python's, which raises for a text that is no number.
module _ (int : Str → Option ℕ) where
  -- `int(os.getenv(name, default))`
  unfoldable pub int_env : Str → Str → Dict Str → Option ℕ
  unfolding get_or
  int_env name default env = int (get_or name default env)

  -- An exception here ends the program before it starts its threads.
  unfoldable pub read_settings : Dict Str → Option Settings
  unfolding get_or int_env
  read_settings env = do
    redis_port ← int_env (codes "REDIS_PORT") (codes "6379") env
    min_unmarked_workers ← int_env (codes "MIN_UNMARKED_WORKERS") (codes "8") env
    worker_count ← int_env (codes "WORKER_COUNT") (codes "3") env
    logging_interval_seconds ← int_env (codes "LOGGING_INTERVAL_SECONDS") (codes "10") env
    some (record {
      redis_host = get_or (codes "REDIS_HOST") (codes "redis") env;
      redis_port = redis_port;
      job_queue_name = get_or (codes "JOB_QUEUE") (codes "ranges") env;
      success_queue_name = get_or (codes "SUCCESS_QUEUE") (codes "succeeded") env;
      failed_queue_name = get_or (codes "FAILED_QUEUE") (codes "failed") env;
      progress_queue_name = get_or (codes "PROGRESS_QUEUE") (codes "in_progress") env;
      metrics_name = get_or (codes "METRICS") (codes "metrics") env;
      job_owners_name = get_or (codes "JOB_OWNERS") (codes "job_owners") env;
      retiring_name = get_or (codes "RETIRING") (codes "retiring") env;
      config = record {
        worker_prefix = get_or (codes "WORKER_PREFIX") (codes "stellar-core") env;
        namespace = get_or (codes "NAMESPACE") (codes "default") env;
        worker_count = worker_count;
        min_unmarked_workers = min_unmarked_workers;
      };
      logging_interval_seconds = logging_interval_seconds;
    })
