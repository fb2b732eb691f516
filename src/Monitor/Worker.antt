-- ===== src/Monitor/Worker.antt =====
-- What a worker does to the queues: the claim and the closing transaction of
-- src/MissionParallelCatchup/parallel_catchup_helm/files/worker.sh.
pub mod Kept
pub mod Started
use supercluster.Prelude.{
  ℕ, ◌+◌, Bool, true, false, not, ◌&&◌, ◌||◌, List, [], ◌∷◌, ◌++◌, Option, none, some, leb, ◌==◌,
  if◌then◌else◌,
}
use supercluster.Prelude.Text.{Str, codes}
use supercluster.Monitor.Redis.{Redis}
use supercluster.Monitor.Redis.Keys.{
  job_queue, progress_queue, success_queue, failed_queue, metrics_key,
}

-- A digit or a slash.
unfoldable pub key_char : ℕ → Bool
key_char c = (leb b'0' c && leb c b'9') || c == b'/'

unfoldable pub key_chars : Str → Bool
unfolding key_char
key_chars [] = true
key_chars (c ∷ s) = key_char c && key_chars s

unfoldable pub slashes : Str → ℕ
slashes [] = 0
slashes (c ∷ s) = (if c == b'/' then 1 else 0) + slashes s

unfoldable pub ends_in_slash : Str → Bool
ends_in_slash [] = false
ends_in_slash (c ∷ []) = c == b'/'
ends_in_slash (c ∷ d ∷ s) = ends_in_slash (d ∷ s)

unfoldable pub starts_in_slash : Str → Bool
starts_in_slash [] = false
starts_in_slash (c ∷ s) = c == b'/'

-- CLAIM_VALID: a reply of the form <ledger>/<count>
unfoldable pub valid_job_key : Str → Bool
unfolding key_chars slashes ends_in_slash starts_in_slash
valid_job_key s =
    key_chars s && (slashes s == 1 && (not (starts_in_slash s) && not (ends_in_slash s)))

-- What a worker does to the store. A claim names the pod; a finish names the pod, the job, the
-- entry for the metrics, and whether the catchup succeeded.
pub data WorkerStep : Type 0 where
  claim : Str → WorkerStep
  finish : Str → Str → Str → Bool → WorkerStep

module _ (r : Redis) where
  open r use {Db, lmove_left, hset, hdel, sadd, lrem}

  -- CLAIM_SCRIPT, which the server runs as one command: its reply, and the store after it
  unfoldable pub claim_script : Str → Db → Option Str × Db
  claim_script pod db =
      let (job, db') = lmove_left job_queue progress_queue db in
      (job, elim job [ none ↦ db' | some j ↦ hset j pod db' ])

  unfoldable pub claim_job : Str → Db → Db
  unfolding claim_script
  claim_job pod db = (claim_script pod db).1

  -- The transaction from MULTI to EXEC
  unfoldable pub finish_job : Str → Str → Str → Bool → Db → Db
  finish_job pod job entry success db =
      let db1 =
        if success then sadd success_queue job db else sadd failed_queue (job ++ b'|' ∷ pod) db in
      let db2 = (lrem progress_queue job db1).1 in hdel job (sadd metrics_key entry db2)

  -- A worker processes only a valid key.
  unfoldable pub worker_step : WorkerStep → Db → Db
  worker_step (claim pod) db = claim_job pod db
  worker_step (finish pod job entry success) db =
      if valid_job_key job then finish_job pod job entry success db else db

  unfoldable pub worker_steps : List WorkerStep → Db → Db
  worker_steps [] db = db
  worker_steps (s ∷ ss) db = worker_steps ss (worker_step s db)
