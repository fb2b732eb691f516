-- ===== src/Monitor/Settings/Tests.antt =====
-- The settings of an empty environment, and the level of a misspelt name.
use supercluster.Prelude.{◌≡◌, refl, [], ◌∷◌}
use supercluster.Prelude.Text.{codes, str_eq}
use supercluster.Prelude.Dict.{lookup, get_or}
use supercluster.Monitor.Settings.{get_logging_level}

misspelt : get_logging_level ((codes "LOGGING_LEVEL", codes "debug") ∷ []) ≡ 20
unfolding get_logging_level lookup get_or str_eq
misspelt = refl

debug : get_logging_level ((codes "LOGGING_LEVEL", codes "DEBUG") ∷ []) ≡ 10
unfolding get_logging_level lookup get_or str_eq
debug = refl
