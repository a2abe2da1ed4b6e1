-- ===== src/Tests/Syslog.antt =====
-- The log of the system at concrete values.
use ad_guard_dnscli.Base.{
  ℕ, ◌+◌, ◌≡◌, refl, pos, false, Option, none, some, [], ◌∷◌, ◌++◌, arith, str,
}
use ad_guard_dnscli.Errors.{Error, errorf, ok}
use ad_guard_dnscli.Agdcslog.Handler.{new_syslog_handler, Record, TextHandler, level_warn, handle}
use ad_guard_dnscli.Agdcslog.Derived.{Handlers, derive, derive-attrs, attrs_of}
use ad_guard_dnscli.Agdcslog.Darwin.{
  Severity, sev_debug, sev_info, sev_warning, sev_error, Commands, started, wrote, closed_stdin,
  waited, new_system_logger, darwin_logger, DarwinLogger,
}
use ad_guard_dnscli.Agdcslog.Darwin.Making.{IsMade, new_system_logger-IsMade}
use ad_guard_dnscli.Agdcslog.Darwin.Writing.{handle-logged}
use ad_guard_dnscli.Tests.Library.{library}

-- The handler that is made first has no attributes.
abbrev first : Handlers ℕ
first = record {
  arrays = record { cells = λ p. []; next = 1 };
  all = new_syslog_handler (pos 0) ∷ [];
}

-- Two handlers are derived from the second one, whose array has room for the attributes of both.
derive-attrs_example :
    attrs_of (derive (λ n. n + 4) ((0, 7 ∷ []) ∷ (1, 8 ∷ []) ∷ (1, 9 ∷ []) ∷ []) first)
    ≡ [] ∷ (7 ∷ []) ∷ (7 ∷ 8 ∷ []) ∷ (7 ∷ 9 ∷ []) ∷ []
derive-attrs_example =
    derive-attrs (λ n. n + 4) ((0, 7 ∷ []) ∷ (1, 8 ∷ []) ∷ (1, 9 ∷ []) ∷ []) first
      (record { used = omega arith; filled = omega arith }, tt)

abbrev refused : Error
refused = errorf "refused" []

abbrev warnings_fail : Severity → Option Error
warnings_fail sev_warning = some refused
warnings_fail _ = none

abbrev commands : (Severity → Option Error) → Commands
commands start = record {
  new_error = λ sev. none;
  start_error = start;
  write_error = λ calls sev line. none;
  close_error = λ calls sev. none;
  wait_error = λ calls sev. none;
  stdout = λ calls sev. [];
  stderr = λ calls sev. [];
  with_deferred = λ e deferred. e;
}

new_system_logger-IsMade_example :
    IsMade library
      (commands warnings_fail)
      (str "dns")
      []
      (new_system_logger library (commands warnings_fail) (str "dns") [])
new_system_logger-IsMade_example =
    new_system_logger-IsMade library (commands warnings_fail) (str "dns") []

-- The process for errors is started after the failure, and closed with the others.
failing_calls :
    (new_system_logger library (commands warnings_fail) (str "dns") []).0
    ≡ started sev_debug
      ∷ started sev_info
      ∷ started sev_error
      ∷ closed_stdin sev_debug
      ∷ waited sev_debug
      ∷ closed_stdin sev_info
      ∷ waited sev_info
      ∷ closed_stdin sev_error
      ∷ waited sev_error
      ∷ []
unfolding new_system_logger
failing_calls = refl

-- A text of the message alone.
abbrev plain : TextHandler ℕ
plain = record { is_empty_group = λ a. false; write = λ rec. (rec.message ++ b'\n' ∷ [], none) }

abbrev none_fail : Severity → Option Error
none_fail sev = none

abbrev ready : DarwinLogger
ready = record {
  tag = str "dns";
  debug = some sev_debug;
  info = some sev_info;
  warning = some sev_warning;
  error = some sev_error;
}

ready_made : (new_system_logger library (commands none_fail) (str "dns") []).1 ≡ ok ready
unfolding new_system_logger
ready_made = refl

abbrev slow : Record ℕ
slow = record { time = 5; level = level_warn; message = str "slow"; attrs = [] }

handle-logged_example :
    handle plain
      (darwin_logger library (commands none_fail) ready)
      (str "left")
      first.arrays
      (new_syslog_handler (pos 0))
      slow
      (some [])
    ≡ (str "slow\n", some (some (wrote sev_warning (str "dns: slow\n") ∷ []), none))
handle-logged_example =
    handle-logged library (commands none_fail) plain (str "dns") [] ready (str "left") first.arrays
      (new_syslog_handler (pos 0)) slow [] (str "slow") ready_made (omega arith) refl
