-- ===== src/Logging.antt =====
-- lib/logc/logc.go and prover/logs/logs.go: the logger of a package, with a level that can be changed
-- while it is in use.
pub mod Laws
use computing_api.Base.{
  Bool, Exec, Result, Str, String, [], false, if◌then◌else◌, ok, panic, pure, rescue, str_eq, text,
  ℕ, ◌++◌, ◌||◌,
}

-- The levels of zap, the least important first.
pub data Level : Type 0 where
  debug_level info_level warn_level error_level d_panic_level panic_level fatal_level : Level

-- `getLogLevel`: every text that it does not know is the level of information.
unfoldable pub get_log_level : Str → Level
unfolding text
get_log_level level =
    if str_eq level (text "debug") || str_eq level (text "DEBUG")
    then debug_level
    else if str_eq level (text "info") || str_eq level (text "INFO") || str_eq level []
    then info_level
    else if str_eq level (text "warn") || str_eq level (text "WARN")
    then warn_level
    else if str_eq level (text "error") || str_eq level (text "ERROR")
    then error_level
    else if str_eq level (text "dpanic") || str_eq level (text "DPANIC")
    then d_panic_level
    else if str_eq level (text "panic") || str_eq level (text "PANIC")
    then panic_level
    else if str_eq level (text "fatal") || str_eq level (text "FATAL")
    then fatal_level
    else info_level

-- Where entries go: the standard output, or a file that is changed for a new one at a size in
-- megabytes, with the number of old files and of days that they are kept.
pub data Sink : Type 0 where
  standard_output : Sink
  rolling_file : (filename : Str) → (max_size max_backups max_age : ℕ) → (compress : Bool) → Sink

unfoldable pub get_log_writer : Str → Sink
unfolding text
get_log_writer filename = rolling_file (filename ++ text ".log") 100 3 30 false

-- The names of the fields of an entry; how times and levels are printed is not kept.
pub record EncoderConfig : Type 0 where
  pub time_key : Str
  pub level_key : Str
  pub name_key : Str
  pub caller_key : Str
  pub message_key : Str
  pub stacktrace_key : Str

abbrev pub get_encoder : EncoderConfig
unfolding text
get_encoder = record {
  time_key = text "time";
  level_key = text "level";
  name_key = text "sub";
  caller_key = text "caller";
  message_key = text "msg";
  stacktrace_key = text "stacktrace";
}

-- The variables of the package: `mLogger`, by its sink and encoder, and `mLoglevel`.
pub record Logs : Type 0 where
  pub sink : Sink
  pub encoder : EncoderConfig
  pub level : Level

-- What the package reads from the environment.
pub record Variables : Type 0 where
  pub log_file : String
  pub log_level : String

abbrev pub logc_variables : Variables
logc_variables = record { log_file = "GRID_LOG_FILE"; log_level = "COMPUTE_LOG_LEVEL" }

abbrev pub prover_variables : Variables
prover_variables = record { log_file = "MEFS_LOG_FILE"; log_level = "MEFS_LOG_LEVEL" }

-- `init`, given what `zap.Open` of the standard output gives.
unfoldable pub start_logger : Variables → (String → Str) → Result (Unit {0}) → Result Logs
unfolding get_log_level get_log_writer
start_logger v getenv opened =
    rescue opened (λ _. panic "unable to open logging output")
      λ _. ok (record {
        sink =
            if str_eq (getenv v.log_file) []
            then standard_output
            else get_log_writer (getenv v.log_file);
        encoder = get_encoder;
        level = get_log_level (getenv v.log_level);
      })

-- `init` of the two packages.
unfoldable start_logc : (String → Str) → Result (Unit {0}) → Result Logs
unfolding start_logger
start_logc = start_logger logc_variables

unfoldable start_prover_logs : (String → Str) → Result (Unit {0}) → Result Logs
unfolding start_logger
start_prover_logs = start_logger prover_variables

-- A logger with a name, which asks the package for its level at each entry.
pub record Logger : Type 0 where
  pub name : Str

-- `Logger`
unfoldable pub named : Str → Exec Logs Logger
named name = pure (record { name = name })

unfoldable pub set_log_level : Str → Exec Logs (Unit {0})
unfolding get_log_level
set_log_level level logs = (ok tt, record logs { level = get_log_level level })
