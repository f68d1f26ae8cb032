-- ===== src/Utils/Logger.antt =====
-- include/zerolancom/utils/logger.hpp and src/utils/logger.cpp. spdlog is a library: the state has the
-- calls that were made to it, the last one first.
pub mod Orderly
use zero_lan_com.Base.{ℕ, List, [], ◌∷◌, ◌++◌, Bool, true, false, if◌then◌else◌}
use zero_lan_com.Base.Text.{Str, bytes}
use zero_lan_com.Base.Result.{Result, ok, err}

pub data LogLevel : Type 0 where
  trace info warn error fatal : LogLevel

-- `spdlog::level::level_enum`.
pub data SpdLevel : Type 0 where
  spd_trace spd_info spd_warn spd_err spd_critical : SpdLevel

pub data Sink : Type 0 where
  console : Sink
  file : Str → Sink

pub data SpdCall : Type 0 where
  init_thread_pool : ℕ → ℕ → SpdCall
  set_default_logger : List Sink → SpdCall
  set_pattern : Str → SpdCall
  set_level : SpdLevel → SpdCall
  log : SpdLevel → Str → SpdCall
  shut_down : SpdCall

pub record Logger : Type 0 where
  pub initialized : Bool
  pub calls : List SpdCall

unfoldable pub to_spd_level : LogLevel → SpdLevel
to_spd_level trace = spd_trace
to_spd_level info = spd_info
to_spd_level warn = spd_warn
to_spd_level error = spd_err
to_spd_level fatal = spd_critical

call_spd : SpdCall → Logger → Logger
call_spd c l = record l { calls = c ∷ l.calls }

file_path : Str → Str → Str
file_path log_dir time_stamp = log_dir ++ (bytes "/output_" ++ (time_stamp ++ bytes ".txt"))

-- The part of `init` behind the sinks.
install : List Sink → Logger → Logger
unfolding call_spd
install sinks l =
    record (call_spd (set_pattern (bytes "[%Y-%m-%d %H:%M:%S.%e] [%^%l%$] %v"))
      (call_spd (set_default_logger sinks) l)) { initialized = true }

with_file : Str → Result (Unit {0}) → Logger → Result (Unit {0}) × Logger
unfolding install
with_file path (ok made) l = (ok tt, install (console ∷ file path ∷ []) l)
with_file path (err thrown) l = (err thrown, l)

-- `opened` is what `create_directories` and the file sink come to for the path; both may throw.
unfoldable pub init :
    (Str → Result (Unit {0})) → Str → Bool → Str → Logger → Result (Unit {0}) × Logger
unfolding with_file file_path
init opened time_stamp enable_file_logging log_dir l =
    let pooled = call_spd (init_thread_pool 8192 1) l in
    let path = file_path log_dir time_stamp in
    if l.initialized
    then (ok tt, l)
    else if enable_file_logging
    then with_file path (opened path) pooled
    else (ok tt, install (console ∷ []) pooled)

unfoldable pub shutdown : Logger → Logger
unfolding call_spd
shutdown l = if l.initialized then call_spd shut_down (record l { initialized = false }) else l

unfoldable pub is_initialized : Logger → Bool
is_initialized l = l.initialized

unfoldable pub set_log_level : LogLevel → Logger → Logger
unfolding call_spd
set_log_level level l = call_spd (set_level (to_spd_level level)) l

-- `trace`, `info`, `warn`, `error` and `fatal` with a format; `msg` is what formatting gives.
unfoldable pub write : LogLevel → Str → Logger → Logger
unfolding call_spd is_initialized
write level msg l = if is_initialized l then call_spd (log (to_spd_level level) msg) l else l

-- The same five with a text.
unfoldable pub write_text : LogLevel → Str → Logger → Logger
unfolding call_spd is_initialized
write_text trace msg l = if is_initialized l then call_spd (log spd_trace msg) l else l
write_text info msg l = if is_initialized l then call_spd (log spd_info msg) l else l
write_text warn msg l = if is_initialized l then call_spd (log spd_warn msg) l else l
write_text error msg l = if is_initialized l then call_spd (log spd_err msg) l else l
write_text fatal msg l = call_spd (log spd_critical msg) l
