-- ===== src/Agdcslog/Darwin.antt =====
-- internal/agdcslog/syslog_darwin.go: the log of macOS, by one process of /usr/bin/logger for each
-- severity. The mutex of a process, which orders its writes, is left out.
pub mod Making
pub mod Writing
use ad_guard_dnscli.Base.{◌≡◌, Option, none, some, List, [], ◌∷◌, ◌++◌, GoString, str, trim_suffix}
use ad_guard_dnscli.Errors.{Error, Errs, errorf, wrapf, text, Result, ok, err, error_of, join}
use ad_guard_dnscli.Golibs.{Golibs}
use ad_guard_dnscli.Agdcslog.Handler.{SystemLogger}

pub data Severity : Type 0 where
  sev_debug sev_info sev_warning sev_error : Severity

abbrev pub name_of : Severity → GoString
name_of sev_debug = str "debug"
name_of sev_info = str "info"
name_of sev_warning = str "warning"
name_of sev_error = str "error"

-- What is asked of the processes; a process is known by its severity.
pub data Call : Type 0 where
  started : Severity → Call
  wrote : Severity → GoString → Call
  closed_stdin : Severity → Call
  waited : Severity → Call

abbrev pub Calls : Type 0
Calls = List Call

-- What the commands answer after the calls so far. `with_deferred` is golibs' `errors.WithDeferred`
-- for an error.
pub record Commands : Type 0 where
  pub new_error : Severity → Option Error
  pub start_error : Severity → Option Error
  pub write_error : Calls → Severity → GoString → Option Error
  pub close_error : Calls → Severity → Option Error
  pub wait_error : Calls → Severity → Option Error
  pub stdout : Calls → Severity → GoString
  pub stderr : Calls → Severity → GoString
  pub with_deferred : Error → Option Error → Error

-- A process that has not been created is `nil`.
pub record DarwinLogger : Type 0 where
  pub tag : GoString
  pub debug : Option Severity
  pub info : Option Severity
  pub warning : Option Severity
  pub error : Option Severity

abbrev pub processes : DarwinLogger → List (Option Severity)
processes l = l.debug ∷ l.info ∷ l.warning ∷ l.error ∷ []

-- The result of a step, `nil` on an error.
abbrev pub created : Result Severity → Option Severity
created (ok p) = some p
created (err e) = none

abbrev pub creation_error : Severity → Result Severity → Option Error
creation_error sev (ok p) = none
creation_error sev (err e) =
    some (wrapf "creating %s logger process: %w" (text (name_of sev) ∷ []) e)

abbrev unexpected : GoString → Option Error → Option Error
unexpected [] e = none
unexpected (c ∷ output) e = e

module _ (g : Golibs) (os : Commands) where
  abbrev pub new_process : Severity → Calls → Option Error → Option Error → Calls × Result Severity
  new_process sev calls (some e) s = (calls, err (wrapf "creating command: %w" [] e))
  new_process sev calls none (some e) = (calls, err (wrapf "starting command: %w" [] e))
  new_process sev calls none none = (calls ++ started sev ∷ [], ok sev)

  unfoldable pub new_os_process : Severity → Calls → Calls × Result Severity
  new_os_process sev calls = new_process sev calls (os.new_error sev) (os.start_error sev)

  -- `write`. The format has no verb for the error, unlike the others.
  unfoldable pub write : Severity → GoString → GoString → Calls → Calls × Option Error
  write p tag msg calls =
      let line = tag ++ str ": " ++ trim_suffix msg (str "\n") ++ str "\n" in
      (
        calls ++ wrote p line ∷ [],
        g.annotate (os.write_error calls p line) "writing %s message" (text (name_of p) ∷ []),
      )

  abbrev closing_failed : Severity → Option Error → Option Error
  closing_failed p e = g.annotate e "closing %s logger: %w" (text (name_of p) ∷ [])

  unfoldable pub close_process : Severity → Calls → Calls × Option Error
  unfolding join
  close_process p calls =
      let closed = calls ++ closed_stdin p ∷ [] in
      let done = closed ++ waited p ∷ [] in
      let out = os.stdout done p in
      let errors = os.stderr done p in
      (
        done,
        closing_failed p (
            join (
              elim (os.close_error calls p) [
                | none ↦ none
                | some e ↦ some (wrapf "closing stdin: %w" [] e)
              ]
              ∷ elim (os.wait_error closed p) [
                | none ↦ none
                | some e ↦ some (wrapf "waiting: %w" [] e)
              ]
              ∷ unexpected out (some (errorf "unexpected stdout output: %q" (text out ∷ [])))
              ∷ unexpected errors (some (errorf "unexpected stderr output: %q" (text errors ∷ [])))
              ∷ [])),
      )

  -- The loop of `Close`.
  unfoldable pub close_processes : List (Option Severity) → Calls → Calls × Errs
  unfolding close_process
  close_processes [] calls = (calls, [])
  close_processes (none ∷ ps) calls = close_processes ps calls
  close_processes (some p ∷ ps) calls =
      let (calls', e) = close_process p calls in
      let (calls'', errs) = close_processes ps calls' in (calls'', e ∷ errs)

  unfoldable pub close_system_logger : DarwinLogger → Calls → Calls × Option Error
  unfolding close_processes join
  close_system_logger l calls =
      let (calls', errs) = close_processes (processes l) calls in
      (calls', g.annotate (join errs) "closing logger processes: %w" [])

  abbrev pub concluded : DarwinLogger → Calls → Option Error → Calls × Result DarwinLogger
  concluded l calls none = (calls, ok l)
  concluded l calls (some e) =
      let (calls', deferred) = close_system_logger l calls in
      (calls', err (os.with_deferred e deferred))

  -- `newSystemLoggerWithCommandConstructor`.
  unfoldable pub new_system_logger : GoString → Calls → Calls × Result DarwinLogger
  unfolding new_os_process close_system_logger join
  new_system_logger tag calls =
      let (calls, d) = new_os_process sev_debug calls in
      let (calls, i) = new_os_process sev_info calls in
      let (calls, w) = new_os_process sev_warning calls in
      let (calls, e) = new_os_process sev_error calls in
      concluded
        (record {
          tag = tag;
          debug = created d;
          info = created i;
          warning = created w;
          error = created e;
        })
        calls
        (join (
          creation_error sev_debug d
          ∷ creation_error sev_info i
          ∷ creation_error sev_warning w
          ∷ creation_error sev_error e
          ∷ []))

  -- A method of a `nil` process panics, after which there is no state.
  abbrev pub write_to :
      Option Severity → GoString → GoString → Option Calls → Option Calls × Option Error
  write_to p tag msg none = (none, none)
  write_to none tag msg (some calls) = (none, none)
  write_to (some p) tag msg (some calls) =
      let (calls', e) = write p tag msg calls in (some calls', e)

  abbrev pub close_state : DarwinLogger → Option Calls → Option Calls × Option Error
  close_state l none = (none, none)
  close_state l (some calls) = let (calls', e) = close_system_logger l calls in (some calls', e)

  unfoldable pub darwin_logger : DarwinLogger → SystemLogger (Option Calls)
  unfolding write close_system_logger
  darwin_logger l = record {
    debug = write_to l.debug l.tag;
    info = write_to l.info l.tag;
    warning = write_to l.warning l.tag;
    error = write_to l.error l.tag;
    close = close_state l;
  }
