-- ===== src/Monitor/Surplus/Tests.antt =====
-- Marking in a fleet of twelve workers, of which one is busy.
use supercluster.Prelude.{◌≡◌, ◌&&◌, not, [], ◌∷◌}
use supercluster.Prelude.Text.{Str, codes}
use supercluster.Prelude.Sets.{elem}
use supercluster.Monitor.Redis.Keys.{View}
use supercluster.Monitor.Redis.Memory.{memory}
use supercluster.Monitor.World.{World}
use supercluster.Monitor.World.Calls.{Ends, IsUp}
use supercluster.Monitor.Network.Tests.{config, answers_from}
use supercluster.Monitor.Surplus.{choose_to_mark, mark_surplus}
use supercluster.Monitor.Surplus.Spared.{SameStore, Spares, choose_to_mark-Spares}
use supercluster.Monitor.Surplus.Marks.{Marked, mark_surplus-idle}

abbrev busy : Str
busy = codes "core-3"

abbrev idle : Str
idle = codes "core-11"

abbrev store : View
store = record {
  jobs = [];
  progress = codes "64/128" ∷ [];
  owners = (codes "64/128", busy) ∷ [];
  succeeded = [];
  failed = [];
  metrics = [];
  retiring = codes "core-5" ∷ [];
}

abbrev world : World View
world = record { db = store; slots = []; retried = 0; asked = 0; slept = 0 }

choose_to_mark-Spares_example :
    Ends
      (λ to_mark w.
        SameStore config (answers_from 0) world w × Spares 1 2 (idle ∷ codes "core-2" ∷ []) to_mark)
      (choose_to_mark config (answers_from 0) 1 2 (idle ∷ codes "core-2" ∷ []) world)
choose_to_mark-Spares_example =
    choose_to_mark-Spares config (answers_from 0) 1 2 (idle ∷ codes "core-2" ∷ []) world

mark_surplus-idle_example :
    Ends
      (λ retirable w.
        IsUp w
        × Marked memory config (answers_from 0) idle (busy ∷ []) store.retiring w.db.retiring
        × (elem idle retirable ≡ (elem idle store.retiring && not (elem idle (busy ∷ [])))))
      (mark_surplus memory config (answers_from 0) (busy ∷ []) [] 1 world)
mark_surplus-idle_example =
    mark_surplus-idle memory config (answers_from 0) idle (busy ∷ []) [] 1 world tt
