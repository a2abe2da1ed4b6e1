-- ===== src/Agdcslog/Writers.antt =====
-- internal/agdcslog/syslog_linux.go and syslog_windows.go: logs of one writer, which are those of
-- package syslog and of the event log of Windows.
use ad_guard_dnscli.Base.{ℕ, Bool, not, ◌&&◌, Option, none, some, GoString, if◌then◌else◌}
use ad_guard_dnscli.Errors.{Error, Result, ok, err}
use ad_guard_dnscli.Agdcslog.Handler.{SystemLogger}

-- The methods of `syslog.Writer` that are called.
pub record SyslogWriter (S : Type 0) : Type 0 where
  pub write_debug : GoString → S → S × Option Error
  pub write_info : GoString → S → S × Option Error
  pub write_warning : GoString → S → S × Option Error
  pub write_err : GoString → S → S × Option Error
  pub close_writer : S → S × Option Error

-- `eventlogWriter`.
pub record EventlogWriter (S : Type 0) : Type 0 where
  pub log_info : ℕ → GoString → S → S × Option Error
  pub log_warning : ℕ → GoString → S → S × Option Error
  pub log_error : ℕ → GoString → S → S × Option Error
  pub close_log : S → S × Option Error

abbrev pub info_event_id : ℕ
info_event_id = 1

abbrev pub warning_event_id : ℕ
warning_event_id = 2

abbrev pub error_event_id : ℕ
error_event_id = 3

abbrev pub debug_event_id : ℕ
debug_event_id = 4

-- What the system answers: to the installation of the source, whether its error says that the
-- source exists, or that access is denied, and to the opening of the log.
pub record EventSource (S : Type 0) : Type 0 where
  pub install_error : Option Error
  pub says_exists : Error → Bool
  pub is_access_denied : Error → Bool
  pub opened : Result (EventlogWriter S)

module _ {S : Type 0} where
  unfoldable pub linux_logger : SyslogWriter S → SystemLogger S
  linux_logger w = record {
    debug = w.write_debug;
    info = w.write_info;
    warning = w.write_warning;
    error = w.write_err;
    close = w.close_writer;
  }

  -- There is no level for debugging: such messages are for information, with their own identifier.
  unfoldable pub windows_logger : EventlogWriter S → SystemLogger S
  windows_logger w = record {
    debug = w.log_info debug_event_id;
    info = w.log_info info_event_id;
    warning = w.log_warning warning_event_id;
    error = w.log_error error_event_id;
    close = w.close_log;
  }

  abbrev on_opened : Result (EventlogWriter S) → Result (SystemLogger S)
  on_opened (err e) = err e
  on_opened (ok w) = ok (windows_logger w)

  abbrev on_installed : EventSource S → Option Error → Result (SystemLogger S)
  on_installed os none = on_opened os.opened
  on_installed os (some e) =
      if not (os.says_exists e) && not (os.is_access_denied e) then err e else on_opened os.opened

  -- `newSystemLogger` of Windows.
  unfoldable pub new_windows_logger : EventSource S → Result (SystemLogger S)
  unfolding windows_logger
  new_windows_logger os = on_installed os os.install_error

  abbrev on_writer : Result (SyslogWriter S) → Result (SystemLogger S)
  on_writer (err e) = err e
  on_writer (ok w) = ok (linux_logger w)

  -- `newSystemLogger` of Linux, from the result of `syslog.New`.
  unfoldable pub new_linux_logger : Result (SyslogWriter S) → Result (SystemLogger S)
  unfolding linux_logger
  new_linux_logger w = on_writer w
