-- ===== src/Logging/Laws.antt =====
-- Which level a text is, and which entries are written at it.
use computing_api.Base.{Str, refl, text, ◌≡◌}
use computing_api.Logging.{
  Level, d_panic_level, debug_level, error_level, fatal_level, get_log_level, info_level,
  panic_level, warn_level,
}

-- The texts of a level, and the level that is read from them.
abbrev lower : Level → Str
unfolding text
lower debug_level = text "debug"
lower info_level = text "info"
lower warn_level = text "warn"
lower error_level = text "error"
lower d_panic_level = text "dpanic"
lower panic_level = text "panic"
lower fatal_level = text "fatal"

abbrev upper : Level → Str
unfolding text
upper debug_level = text "DEBUG"
upper info_level = text "INFO"
upper warn_level = text "WARN"
upper error_level = text "ERROR"
upper d_panic_level = text "DPANIC"
upper panic_level = text "PANIC"
upper fatal_level = text "FATAL"

get_log_level-lower : (l : Level) → get_log_level (lower l) ≡ l
unfolding get_log_level lower text
get_log_level-lower debug_level = refl
get_log_level-lower info_level = refl
get_log_level-lower warn_level = refl
get_log_level-lower error_level = refl
get_log_level-lower d_panic_level = refl
get_log_level-lower panic_level = refl
get_log_level-lower fatal_level = refl

get_log_level-upper : (l : Level) → get_log_level (upper l) ≡ l
unfolding get_log_level upper text
get_log_level-upper debug_level = refl
get_log_level-upper info_level = refl
get_log_level-upper warn_level = refl
get_log_level-upper error_level = refl
get_log_level-upper d_panic_level = refl
get_log_level-upper panic_level = refl
get_log_level-upper fatal_level = refl
