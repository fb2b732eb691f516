-- ===== src/Bench/Main/Tests.antt =====
-- A name in a log, and the path of the file of results.
use supercluster.Prelude.{ℕ, ◌≡◌, refl, Bool, true, [], ◌++◌, ◌==◌, some, none}
use supercluster.Prelude.Text.{codes}
use supercluster.Prelude.Lists.{take}
use supercluster.Python.Digits.{decimal}
use supercluster.Python.Number.Naturals.{naturals}
use supercluster.Bench.Report.Page.{Printing}
use supercluster.Bench.Names.{search}
use supercluster.Bench.Names.Laws.{search-append}
use supercluster.Bench.Main.{dest_file}

abbrev blank : ℕ → Bool
blank c = c == b' '

search-append_example :
    search blank
      (codes "10:00 " ++ (codes "Node " ++ (codes "a" ++ (codes " running" ++ codes " iperf3"))))
    ≡ some (codes "a")
search-append_example =
    search-append blank (codes "10:00 ") b'a' [] (codes " iperf3")
      (refl, (refl, (refl, (refl, (refl, (refl, tt)))))) (refl, tt) refl

-- A text is written in digits, with no care for the point.
abbrev printing : Printing ℕ
printing = record { fixed_1 = decimal; fixed_2 = decimal; plain = decimal }

dest_file_relative :
    dest_file naturals printing blank (λ s. none) (λ s. none) [] (λ s o. true) (codes "t1")
    ≡ codes "destination/t1.json"
unfolding dest_file take
dest_file_relative = refl

dest_file_absolute :
    dest_file naturals printing blank (λ s. none) (λ s. none) [] (λ s o. true) (codes "/t1")
    ≡ codes "/t1.json"
unfolding dest_file take
dest_file_absolute = refl
