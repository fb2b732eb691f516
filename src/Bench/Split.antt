-- ===== src/Bench/Split.antt =====
-- The output of a pod cut into reports:
-- `kubectl_output.replace('}\n{', '}###SPLIT###{').split('###SPLIT###')`
-- in `aggregate_bidirectional_results` of src/scripts/parse_benchmark_results.py.
use supercluster.Prelude.{List, [], ◌∷◌}
use supercluster.Prelude.Text.{Str, codes}
use supercluster.Python.Split.{replace, split}

abbrev pub boundary : Str
boundary = b'}' ∷ 10 ∷ b'{' ∷ []

abbrev pub marked : Str
marked = codes "}###SPLIT###{"

unfoldable pub split_reports : Str → List Str
unfolding replace split
split_reports kubectl_output = split (codes "###SPLIT###") (replace boundary marked kubectl_output)
