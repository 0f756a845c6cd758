-- ===== src/Logger.antt =====
-- src/core/logger.h: Logger. The time of day as put_time prints it is an argument, and so is the
-- environment. Printing formatted text (logf) is left to the C library.
use actuator_final.Prelude.{
  ℕ, ◌+◌, ◌%◌, ◌≡◌, ◌∙◌, Bool, ◌&&◌, List, [], ◌∷◌, ◌++◌, Option, none, some, if◌then◌else◌, leb,
  ltb, map, refl, ap,
}
use actuator_final.Text.{Text, codes, text_eq}
use actuator_final.Text.Numerals.{nat_to_string}

pub data LogLevel : Type 0 where
  debug info warn error off : LogLevel

unfoldable pub level_code : LogLevel → ℕ
level_code debug = 0
level_code info = 1
level_code warn = 2
level_code error = 3
level_code off = 4

-- levelToString
unfoldable pub level_to_string : LogLevel → Text
level_to_string debug = codes "DEBUG"
level_to_string info = codes "INFO"
level_to_string warn = codes "WARN"
level_to_string error = codes "ERROR"
level_to_string off = codes "OFF"

-- shouldLog
unfoldable pub should_log : LogLevel → LogLevel → Bool
unfolding level_code
should_log min_level level = leb (level_code min_level) (level_code level)

-- std::tolower
unfoldable pub to_lower : ℕ → ℕ
to_lower c = if leb b'A' c && leb c b'Z' then c + 32 else c

-- The ladder of loadMinLevelFromEnv, on the value in lower case.
unfoldable pub level_named : Text → LogLevel
level_named value =
    if text_eq value (codes "debug")
    then debug
    else if text_eq value (codes "info")
    then info
    else if text_eq value (codes "warn")
    then warn
    else if text_eq value (codes "error")
    then error
    else if text_eq value (codes "off")
    then off
    else info

-- Logger::Logger with loadMinLevelFromEnv, given MS_LOG_LEVEL
unfoldable pub initial_min_level : Option Text → LogLevel
unfolding level_named to_lower
initial_min_level none = info
initial_min_level (some env) = level_named (map to_lower env)

-- setw(3) with setfill('0')
unfoldable pub three_digits : ℕ → Text
three_digits n =
    let digits = nat_to_string n in
    if ltb n 10 then b'0' ∷ b'0' ∷ digits else if ltb n 100 then b'0' ∷ digits else digits

-- formatPrefix
unfoldable pub format_prefix : Text → ℕ → LogLevel → Text
unfolding three_digits level_to_string
format_prefix time_of_day ms_since_epoch level =
    codes "["
    ++ time_of_day
    ++ codes "."
    ++ three_digits (ms_since_epoch % 1000)
    ++ codes "]"
    ++ codes "["
    ++ level_to_string level
    ++ codes "] "

pub data Stream : Type 0 where
  cout cerr : Stream

abbrev stream_of : LogLevel → Stream
stream_of error = cerr
stream_of _ = cout

-- write: what is printed, if anything
unfoldable pub write : LogLevel → Text → ℕ → LogLevel → Text → Option (Stream × Text)
unfolding should_log format_prefix
write min_level time_of_day ms level message =
    if should_log min_level level
    then some (stream_of level, format_prefix time_of_day ms level ++ message ++ codes "\n")
    else none

-- logMultiLine
unfoldable pub log_multi_line : LogLevel → Text → ℕ → List Text → List (Stream × Text)
unfolding should_log format_prefix
log_multi_line min_level time_of_day ms lines =
    if should_log min_level info
    then map (λ line. (cout, format_prefix time_of_day ms info ++ line ++ codes "\n")) lines
    else []

level_named-printed : (l : LogLevel) → level_named (map to_lower (level_to_string l)) ≡ l
unfolding level_named level_to_string to_lower text_eq
level_named-printed debug = refl
level_named-printed info = refl
level_named-printed warn = refl
level_named-printed error = refl
level_named-printed off = refl

-- A level that is given by its printed name, in whatever letter case, is the level that is set: the
-- logger then prints just the messages of that level and of those above it.
pub level_name_is_read :
    (spelling : Text) (min_level level : LogLevel) (time_of_day message : Text) (ms : ℕ)
    → map to_lower spelling ≡ map to_lower (level_to_string min_level)
    → (initial_min_level (some spelling) ≡ min_level)
      × (write (initial_min_level (some spelling)) time_of_day ms level message ≡ (
          if leb (level_code min_level) (level_code level)
          then some (stream_of level, format_prefix time_of_day ms level ++ message ++ codes "\n")
          else none))
unfolding initial_min_level write should_log level_to_string
level_name_is_read spelling min_level level time_of_day message ms e =
    let same : initial_min_level (some spelling) ≡ min_level =
      ap level_named e ∙ level_named-printed min_level in
    (same, ap (λ l. write l time_of_day ms level message) same)
