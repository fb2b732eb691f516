-- ===== src/Eks/Script/Tests.antt =====
-- The script on a machine where all commands succeed and the second `dig` finds the record.
use supercluster.Prelude.{ℕ, zero, suc, [], ◌∷◌, none}
use supercluster.Prelude.Text.{Str, codes}
use supercluster.Python.Number.Naturals.{naturals}
use supercluster.Python.Json.{Json, str}
use supercluster.Python.Json as Json
use supercluster.Eks.World.{Machine, text, World}
use supercluster.Eks.World.Stops.{StopsInTime}
use supercluster.Eks.Script.{main}
use supercluster.Eks.Script.FailStop.{main-StopsInTime}

abbrev target : Json ℕ
target = str (codes "lb.aws")

-- What `dig` prints.
abbrev records : ℕ → Str
records zero = []
records (suc i) = codes "*.x. CNAME lb.aws."

abbrev machine : Machine ℕ
machine = record {
  system = λ i command. 0;
  output = λ i command. text (records i);
  keys = [];
  loads = λ s. none;
  int = λ s. none;
  lower = λ s. s;
  show = λ v. [];
}

abbrev world : World
world = record { input = codes "a" ∷ codes "b" ∷ codes "key" ∷ codes "n" ∷ []; calls = 0; log = [] }

main-StopsInTime_example : StopsInTime (main naturals machine 2 world)
main-StopsInTime_example = main-StopsInTime naturals machine 2 world tt
