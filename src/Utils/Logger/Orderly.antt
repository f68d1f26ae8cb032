-- ===== src/Utils/Logger/Orderly.antt =====
-- In which order spdlog is called.
use zero_lan_com.Base.{List, [], ◌∷◌, Bool, true, false, ◌≡◌, ◌⊎◌, inl, inr, refl}
use zero_lan_com.Base.Text.{Str}
use zero_lan_com.Base.Result.{Result, ok, err}
use zero_lan_com.Utils.Logger.{
  LogLevel, fatal, Sink, file_path, spd_critical, SpdCall, init_thread_pool, set_default_logger,
  set_pattern, set_level, log, shut_down, Logger, init, with_file, install, call_spd, shutdown,
  is_initialized, set_log_level, write, write_text, console,
}

-- The default logger has been set and not yet shut down.
unfoldable pub is_alive : List SpdCall → Bool
is_alive [] = false
is_alive (set_default_logger sinks ∷ calls) = true
is_alive (shut_down ∷ calls) = false
is_alive (init_thread_pool size threads ∷ calls) = is_alive calls
is_alive (set_pattern pattern_text ∷ calls) = is_alive calls
is_alive (set_level level ∷ calls) = is_alive calls
is_alive (log level msg ∷ calls) = is_alive calls

-- The logger is set up and shut down in turn, and it writes while it is set up, but for critical
-- messages.
abbrev pub AllOrderly : List SpdCall → Type 0
AllOrderly [] = Unit
AllOrderly (set_default_logger sinks ∷ calls) = (is_alive calls ≡ false) × AllOrderly calls
AllOrderly (shut_down ∷ calls) = (is_alive calls ≡ true) × AllOrderly calls
AllOrderly (init_thread_pool size threads ∷ calls) = (is_alive calls ≡ false) × AllOrderly calls
AllOrderly (set_pattern pattern_text ∷ calls) = (is_alive calls ≡ true) × AllOrderly calls
AllOrderly (set_level level ∷ calls) = AllOrderly calls
AllOrderly (log level msg ∷ calls) =
    ((is_alive calls ≡ true) ⊎ (level ≡ spd_critical)) × AllOrderly calls

-- A call of the logger's interface.
pub data LoggerCall : Type 0 where
  init_call : Str → Bool → Str → LoggerCall
  shutdown_call : LoggerCall
  level_call : LogLevel → LoggerCall
  write_call : LogLevel → Str → LoggerCall
  text_call : LogLevel → Str → LoggerCall

module _ (opened : Str → Result (Unit {0})) where
  unfoldable pub perform : LoggerCall → Logger → Logger
  perform (init_call time_stamp enable log_dir) l = (init opened time_stamp enable log_dir l).1
  perform shutdown_call l = shutdown l
  perform (level_call level) l = set_log_level level l
  perform (write_call level msg) l = write level msg l
  perform (text_call level msg) l = write_text level msg l

  unfoldable pub perform_all : List LoggerCall → Logger → Logger
  perform_all [] l = l
  perform_all (c ∷ cs) l = perform_all cs (perform c l)

-- The flag says whether spdlog is set up.
pub record IsOrderly (l : Logger) : Type 0 where
  pub flag : is_alive l.calls ≡ l.initialized
  pub calls : AllOrderly l.calls

abbrev pub logger_of : Bool → List SpdCall → Logger
logger_of initialized calls = record { initialized = initialized; calls = calls }

install-IsOrderly :
    (sinks : List Sink) (b : Bool) (calls : List SpdCall)
    → is_alive calls ≡ false
    → AllOrderly calls
    → IsOrderly (install sinks (logger_of b calls))
unfolding install call_spd is_alive
install-IsOrderly sinks b calls off h = record { flag = refl; calls = (refl, (off, h)) }

with_file-IsOrderly :
    (path : Str) (r : Result (Unit {0})) (calls : List SpdCall)
    → is_alive calls ≡ false
    → AllOrderly calls
    → IsOrderly (with_file path r (logger_of false calls)).1
unfolding with_file
with_file-IsOrderly path (ok made) calls off h = install-IsOrderly _ false calls off h
with_file-IsOrderly path (err thrown) calls off h = record { flag = off; calls = h }

module _ (opened : Str → Result (Unit {0})) where
  init-IsOrderly :
      (time_stamp log_dir : Str) (enable b : Bool) (calls : List SpdCall)
      → is_alive calls ≡ b
      → AllOrderly calls
      → IsOrderly (init opened time_stamp enable log_dir (logger_of b calls)).1
  unfolding init call_spd is_alive
  init-IsOrderly time_stamp log_dir enable true calls on h = record { flag = on; calls = h }
  init-IsOrderly time_stamp log_dir true false calls off h =
      with_file-IsOrderly _ (opened (file_path log_dir time_stamp))
        (init_thread_pool 8192 1 ∷ calls) off (off, h)
  init-IsOrderly time_stamp log_dir false false calls off h =
      install-IsOrderly (console ∷ []) false (init_thread_pool 8192 1 ∷ calls) off (off, h)

  shutdown-IsOrderly :
      (b : Bool) (calls : List SpdCall)
      → is_alive calls ≡ b
      → AllOrderly calls
      → IsOrderly (shutdown (logger_of b calls))
  unfolding shutdown call_spd is_alive
  shutdown-IsOrderly true calls on h = record { flag = refl; calls = (on, h) }
  shutdown-IsOrderly false calls off h = record { flag = off; calls = h }

  write-IsOrderly :
      (level : LogLevel) (msg : Str) (b : Bool) (calls : List SpdCall)
      → is_alive calls ≡ b
      → AllOrderly calls
      → IsOrderly (write level msg (logger_of b calls))
  unfolding write is_initialized call_spd is_alive
  write-IsOrderly level msg true calls on h = record { flag = on; calls = (inl on, h) }
  write-IsOrderly level msg false calls off h = record { flag = off; calls = h }

  write_text-IsOrderly :
      (level : LogLevel) (msg : Str) (b : Bool) (calls : List SpdCall)
      → is_alive calls ≡ b
      → AllOrderly calls
      → IsOrderly (write_text level msg (logger_of b calls))
  unfolding write_text is_initialized call_spd is_alive
  write_text-IsOrderly fatal msg b calls e h = record { flag = e; calls = (inr refl, h) }
  write_text-IsOrderly level msg true calls on h = record { flag = on; calls = (inl on, h) }
  write_text-IsOrderly level msg false calls off h = record { flag = off; calls = h }

  perform-IsOrderly : (c : LoggerCall) (l : Logger) → IsOrderly l → IsOrderly (perform opened c l)
  unfolding perform set_log_level call_spd is_alive
  perform-IsOrderly (init_call time_stamp enable log_dir) l h =
      init-IsOrderly time_stamp log_dir enable l.initialized l.calls h.flag h.calls
  perform-IsOrderly shutdown_call l h = shutdown-IsOrderly l.initialized l.calls h.flag h.calls
  perform-IsOrderly (level_call level) l h = record { flag = h.flag; calls = h.calls }
  perform-IsOrderly (write_call level msg) l h =
      write-IsOrderly level msg l.initialized l.calls h.flag h.calls
  perform-IsOrderly (text_call level msg) l h =
      write_text-IsOrderly level msg l.initialized l.calls h.flag h.calls

  perform_all-from :
      (cs : List LoggerCall) (l : Logger) → IsOrderly l → IsOrderly (perform_all opened cs l)
  unfolding perform_all
  perform_all-from [] l h = h
  perform_all-from (c ∷ cs) l h = perform_all-from cs (perform opened c l) (perform-IsOrderly c l h)

  -- Whatever a program calls from its start on, in whatever order: spdlog is set up only while it is
  -- not, and shut down only while it is; nothing is written while it is not set up, but for critical
  -- messages; and the flag of the logger says whether it is set up, also where a file could not be
  -- opened.
  pub perform_all-IsOrderly :
      (cs : List LoggerCall) → IsOrderly (perform_all opened cs (logger_of false []))
  unfolding is_alive
  perform_all-IsOrderly cs =
      perform_all-from cs (logger_of false []) (record { flag = refl; calls = tt })
