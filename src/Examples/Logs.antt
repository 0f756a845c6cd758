-- ===== src/Examples/Logs.antt =====
-- src/core/logger.h: a logger whose level is given in mixed letters.
use actuator_final.Prelude.{◌≡◌, refl, some, none, map, ◌++◌, leb, if◌then◌else◌}
use actuator_final.Text.{codes}
use actuator_final.Logger.{
  warn, error, to_lower, level_to_string, level_code, initial_min_level, format_prefix, write, cerr,
  level_name_is_read,
}

warn_is_spelt : map to_lower (codes "Warn") ≡ map to_lower (level_to_string warn)
unfolding to_lower level_to_string
warn_is_spelt = refl

level_name_is_read_example :
    (initial_min_level (some (codes "Warn")) ≡ warn)
    × (write (initial_min_level (some (codes "Warn"))) (codes "12:00:00") 7 error (codes "lost") ≡ (
        if leb (level_code warn) (level_code error)
        then some (cerr, format_prefix (codes "12:00:00") 7 error ++ codes "lost" ++ codes "\n")
        else none))
level_name_is_read_example =
    level_name_is_read (codes "Warn") warn error (codes "12:00:00") (codes "lost") 7 warn_is_spelt
