-- ===== src/Monitor/Http/Laws.antt =====
-- What the server answers, and what a client reads back.
use supercluster.Prelude.{
  ℕ, ◌≡◌, refl, ap, arith, ◌||◌, List, [], ◌∷◌, map, Option, some, if◌then◌else◌,
}
use supercluster.Prelude.Text.{Str, codes, str_eq}
use supercluster.Prelude.Lists.{length}
use supercluster.Python.Number.{Number}
use supercluster.Python.Json.{Json, str, lookup, ok, item, items, iterate, number}
use supercluster.Monitor.Pass.Board.{Board}
use supercluster.Monitor.Http.{Formats, texts, status_json, do_get, read_count, read_list}

items-texts : {F : Type 0} (l : List Str) → items (texts {F = F} l) ≡ map (λ s. str s) l
unfolding texts items
items-texts [] = refl
items-texts (s ∷ l) = ap (λ rest. str s ∷ rest) (items-texts l)

length-texts : (F : Type 0) (l : List Str) → length (items (texts {F = F} l)) ≡ length l
unfolding texts items
length-texts F [] = refl
length-texts F (s ∷ l) = omega (arith, length-texts F l)

module _ (n : Number) where
  open n use {F, of_nat, eq}

  -- A client that reads the body of /status with a function that undoes `json.dumps` on it gets the
  -- counts and the lists of the status that is published.
  pub do_get_status :
      (fs : Formats F) (loads : Str → Option (Json F)) (b : Board F) (retries : ℕ)
      → loads (fs.dumps (status_json n b)) ≡ some (status_json n b)
      → (v : Json F) × (loads (do_get n fs (codes "/status") b retries).body ≡ some v)
        × (read_count n (codes "num_remain") v ≡ ok (of_nat b.status.num_remain))
        × (read_count n (codes "queue_remain_count") v ≡ ok (of_nat b.status.queue_remain_count))
        × (read_list n (codes "jobs_failed") v ≡ ok (map (λ s. str s) b.status.jobs_failed))
        × (read_list n (codes "jobs_in_progress") v
            ≡ ok (map (λ s. str s) b.status.jobs_in_progress))
        × (read_list n (codes "retirable") v ≡ ok (map (λ s. str s) b.status.retirable))
  unfolding do_get status_json read_count read_list item lookup iterate number str_eq
  do_get_status fs loads b retries inverse = (
    status_json n b,
    inverse,
    refl,
    refl,
    ap ok (items-texts b.status.jobs_failed),
    ap ok (items-texts b.status.jobs_in_progress),
    ap ok (items-texts b.status.retirable),
  )

  -- A request for one of the three paths gets the code 200, and for any other 404.
  pub do_get-code :
      (fs : Formats F) (path : Str) (b : Board F) (retries : ℕ)
      → (do_get n fs path b retries).code ≡ (
          if str_eq path (codes "/status")
            || (str_eq path (codes "/prometheus") || str_eq path (codes "/metrics"))
          then 200
          else 404)
  unfolding do_get
  do_get-code fs path b retries = ground arith
