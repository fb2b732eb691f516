-- ===== src/Monitor/Http/Tests.antt =====
-- The status before the first pass.
use supercluster.Prelude.{ℕ, ◌≡◌, refl, [], map, Option, some}
use supercluster.Prelude.Text.{Str, codes}
use supercluster.Python.Number.Naturals.{naturals}
use supercluster.Python.Json.{Json, str, ok}
use supercluster.Monitor.Pass.Board.{Board, first_board}
use supercluster.Monitor.Http.{Formats, status_json, do_get, read_count, read_list}
use supercluster.Monitor.Http.Laws.{do_get_status}

abbrev board : Board ℕ
board = first_board naturals

abbrev formats : Formats ℕ
formats = record {
  dumps = λ v. codes "{}";
  generate_latest = λ g. codes "ssc_parallel_catchup_queues 0";
  content_type_latest = codes "text/plain";
}

abbrev loads : Str → Option (Json ℕ)
loads s = some (status_json naturals board)

do_get_status_example :
    (v : Json ℕ) × (loads (do_get naturals formats (codes "/status") board 0).body ≡ some v)
    × (read_count naturals (codes "num_remain") v ≡ ok 1)
    × (read_count naturals (codes "queue_remain_count") v ≡ ok 0)
    × (read_list naturals (codes "jobs_failed") v ≡ ok (map (λ s. str s) []))
    × (read_list naturals (codes "jobs_in_progress") v ≡ ok (map (λ s. str s) []))
    × (read_list naturals (codes "retirable") v ≡ ok (map (λ s. str s) []))
do_get_status_example = do_get_status naturals formats loads board 0 refl
