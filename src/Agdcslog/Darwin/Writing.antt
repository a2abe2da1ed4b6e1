-- ===== src/Agdcslog/Darwin/Writing.antt =====
-- A record of the log on macOS, from the handler to the process of its severity.
use ad_guard_dnscli.Base.{
  ◌≡◌, refl, ◌∙◌, ap, ℤ, Bool, true, false, Option, none, some, [], ◌∷◌, ◌++◌, arith, GoString,
  if◌then◌else◌, str,
}
use ad_guard_dnscli.Errors.{Error, text, Result, ok, err}
use ad_guard_dnscli.Golibs.{Golibs}
use ad_guard_dnscli.Cmd.Service.Lines.{Without, trim_suffix_absent}
use ad_guard_dnscli.Agdcslog.Slices.{Arrays}
use ad_guard_dnscli.Agdcslog.Handler.{
  Record, TextHandler, SyslogHandler, is_level, level_debug, level_info, level_warn, level_error,
  entry, handle, handle-newline, send,
}
use ad_guard_dnscli.Agdcslog.Darwin.{
  Severity, sev_debug, sev_info, sev_warning, sev_error, name_of, wrote, Calls, Commands,
  DarwinLogger, darwin_logger, write, write_to, new_system_logger,
}
use ad_guard_dnscli.Agdcslog.Darwin.Making.{IsMade, new_system_logger-IsMade}

-- The process for the records of a level.
abbrev pub severity_of : ℤ → Severity
severity_of level =
    if is_level level level_debug
    then sev_debug
    else if is_level level level_warn
    then sev_warning
    else if is_level level level_error
    then sev_error
    else sev_info

-- Only what is not for information has its place in the order of the tests.
picked :
    {X : Type 0} (f : Severity → X) (d i w e : Bool)
    → (i ≡ true → (w ≡ false) × (e ≡ false))
    → (if d
        then f sev_debug
        else if i
        then f sev_info
        else if w
        then f sev_warning
        else if e
        then f sev_error
        else f sev_info)
      ≡ f (if d then sev_debug else if w then sev_warning else if e then sev_error else sev_info)
picked f true i w e h = refl
picked f false true w e h = rw ((h refl).0, (h refl).1) refl
picked f false false true e h = refl
picked f false false false true h = refl
picked f false false false false h = refl

module _ (g : Golibs) (os : Commands) where
  -- What is written for a line, and its error.
  abbrev pub logged : GoString → Severity → GoString → Calls → Option Calls × Option Error
  logged tag sev line calls =
      let whole = tag ++ str ": " ++ line ++ str "\n" in
      (
        some (calls ++ wrote sev whole ∷ []),
        g.annotate (os.write_error calls sev whole) "writing %s message" (text (name_of sev) ∷ []),
      )

  -- A logger with all of its processes.
  abbrev full : GoString → DarwinLogger
  full tag = record {
    tag = tag;
    debug = some sev_debug;
    info = some sev_info;
    warning = some sev_warning;
    error = some sev_error;
  }

  write_to-logged :
      (tag : GoString) (sev : Severity) (line : GoString) (calls : Calls)
      → Without b'\n' line
      → write_to g os (some sev) tag line (some calls) ≡ logged tag sev line calls
  unfolding write
  write_to-logged tag sev line calls h = rw (trim_suffix_absent b'\n' line h) refl

  module _ {A : Type 0} (written : TextHandler A) where
    send-logged :
        (tag : GoString) (level : ℤ) (line : GoString) (calls : Calls)
        → Without b'\n' line
        → send written (darwin_logger g os (full tag)) level line (some calls)
          ≡ logged tag (severity_of level) line calls
    unfolding send darwin_logger
    send-logged tag level line calls h =
        rw
          (
            write_to-logged tag sev_debug line calls h,
            write_to-logged tag sev_info line calls h,
            write_to-logged tag sev_warning line calls h,
            write_to-logged tag sev_error line calls h,
          )
          (picked (λ sev. logged tag sev line calls) (is_level level level_debug)
            (is_level level level_info) (is_level level level_warn) (is_level level level_error)
            (ground arith))

    made-full :
        (tag : GoString) (calls : Calls) (r : Calls × Result DarwinLogger) (l : DarwinLogger)
        → IsMade g os tag calls r
        → r.1 ≡ ok l
        → l ≡ full tag
    made-full tag calls (calls', ok l') l made e = cc (made.1, e)
    made-full tag calls (calls', err x) l made e = absurd (ground (arith, e))

    -- On a log of macOS that has been made, a record whose text is one line is written once, to the
    -- process of its level, as that line after the tag; the error is that of this write.
    pub handle-logged :
        (tag : GoString) (before : Calls) (l : DarwinLogger) (buffer : GoString) (st : Arrays A)
        (h : SyslogHandler) (rec : Record A) (calls : Calls) (line : GoString)
        → (new_system_logger g os tag before).1 ≡ ok l
        → Without b'\n' line
        → written.write (entry written (darwin_logger g os l) st h rec) ≡ (line ++ b'\n' ∷ [], none)
        → handle written (darwin_logger g os l) buffer st h rec (some calls)
          ≡ (line ++ b'\n' ∷ [], some (logged tag (severity_of rec.level) line calls))
    handle-logged tag before l buffer st h rec calls line made one_line e =
        let whole = made-full tag before _ l (new_system_logger-IsMade g os tag before) made in
        handle-newline written (darwin_logger g os l) buffer st h rec (some calls) line e
        ∙ ap
            (λ l. (
              line ++ b'\n' ∷ [],
              some (send written (darwin_logger g os l) rec.level line (some calls)),
            ))
            whole
        ∙ ap (λ r. (line ++ b'\n' ∷ [], some r)) (send-logged tag rec.level line calls one_line)
