-- ===== src/Cmd/Log/Opening.antt =====
-- internal/cmd/log.go: the files and system logs that the loggers hold open, and where they write.
use ad_guard_dnscli.Base.{
  ◌≡◌, ◌≢◌, refl, sym, ◌∙◌, inl, inr, true, false, Bool-cases, Option, none, some, Option-cases, [],
  ◌∷◌, GoString, string_eq, ◌==◌, eq_refl, bytes_eq, beq-false, arith, Bool,
}
use ad_guard_dnscli.Errors.{Error, Errs}
use ad_guard_dnscli.Cmd.Env.{Os, LogEnvs, output_syslog, output_stdout, output_stderr}
use ad_guard_dnscli.Cmd.Log.{
  LogConfig, Level, Output, stdout, stderr, file, Logger, syslog_logger, text_logger, Handles,
  Options, or_string, on_syslog, on_output, output_from_str, new_logger, new_env_logger, close_env,
  Configured, new_config_logger, close_logger, after_close, on_env_file, new_conf_log, prefixed,
}
use ad_guard_dnscli.Cmd.Log.Levels.{keeps}

-- What is open is what the logger writes to, and a file to close is the logger's.
abbrev pub Owns : Logger → Option GoString → Handles → Type 0
Owns (syslog_logger level) log_file h = (log_file ≡ none) × (h.syslogs ≡ 1) × (h.files ≡ 0)
Owns (text_logger (file path) f ts level) log_file h =
    (log_file ≡ some path) × (h.syslogs ≡ 0) × (h.files ≡ 1)
Owns (text_logger _ f ts level) log_file h = (log_file ≡ none) × (h.syslogs ≡ 0) × (h.files ≡ 0)

abbrev pub nothing_open : Handles
nothing_open = record { syslogs = 0; files = 0 }

pub or_string-unnamed : (a b : GoString) → (a == []) ≡ true → or_string a b ≡ b
unfolding or_string bytes_eq
or_string-unnamed [] b h = refl
or_string-unnamed (c ∷ a) b h = absurd (ground (arith, h))

pub or_string-named : (a b : GoString) → (a == []) ≡ false → or_string a b ≡ a
unfolding or_string bytes_eq
or_string-named [] b h = absurd (ground (arith, h))
or_string-named (c ∷ a) b h = refl

zero_open : (h : Handles) → (h.syslogs ≡ 0) × (h.files ≡ 0) → h ≡ nothing_open
zero_open h (a, b) = cc

module _ (os : Os) where
  on_syslog-Owns :
      (f : GoString) (ts : Bool) (level : Level) (e : Option Error)
      → let o = on_syslog os f ts level nothing_open e in Owns o.logger o.log_file o.handles
  on_syslog-Owns f ts level none = (refl, refl, refl)
  on_syslog-Owns f ts level (some e) = (refl, refl, refl)

  on_output-Owns :
      (s f : GoString) (ts : Bool) (level : Level)
      → let o = on_output os s f ts level (output_from_str os s nothing_open) in
        Owns o.logger o.log_file o.handles
  unfolding output_from_str
  on_output-Owns s f ts level = elim (Bool-cases (s == output_stderr)) [
    | inl err ↦ rw err (refl, refl, refl)
    | inr not_err ↦ elim (Bool-cases (s == output_stdout)) [
      | inl out ↦ rw (not_err, out) (refl, refl, refl)
      | inr not_out ↦ elim (Option-cases (os.open_file s)) [
        | inl opened ↦ rw (not_err, not_out, opened) (refl, refl, refl)
        | inr (e, failed) ↦ rw (not_err, not_out, failed) (refl, refl, refl)
      ]
    ]
  ]

  pub new_logger-Owns :
      (s f : GoString) (ts : Bool) (level : Level)
      → let o = new_logger os s f ts level nothing_open in Owns o.logger o.log_file o.handles
  unfolding new_logger
  new_logger-Owns s f ts level = elim (Bool-cases (s == output_syslog)) [
    | inl is_syslog ↦ rw is_syslog (on_syslog-Owns f ts level os.open_syslog)
    | inr other ↦ rw other (on_output-Owns s f ts level)
  ]

  abbrev Holds : Configured → Type 0
  Holds r = Owns r.logger r.log_file r.handles

  new_conf_log-Holds :
      (opts : Options) (envs : LogEnvs) (c : LogConfig) (errs : Errs) (h : Handles)
      → h ≡ nothing_open
      → Holds (new_conf_log os opts envs c errs h)
  new_conf_log-Holds opts envs c errs h closed = rw closed (new_logger-Owns _ _ _ _)

  close_logger-Holds :
      (f : GoString) (ts : Bool) (level : Level) (e : Option Error) (opts : Options)
      (envs : LogEnvs) (c : LogConfig)
      → let o = on_syslog os f ts level nothing_open e in
        Holds (after_close os o.logger opts envs c (close_logger os o.logger o.handles))
  close_logger-Holds f ts level none opts envs c =
      new_conf_log-Holds opts envs c (prefixed "closing env syslog: %w" os.close_syslog)
        nothing_open refl
  close_logger-Holds f ts level (some e) opts envs c =
      new_conf_log-Holds opts envs c [] nothing_open refl

  kept_env-Holds :
      (f : GoString) (ts : Bool) (level : Level) (e : Option Error)
      → let o = on_syslog os f ts level nothing_open e in Owns o.logger none o.handles
  kept_env-Holds f ts level none = (refl, refl, refl)
  kept_env-Holds f ts level (some e) = (refl, refl, refl)

  abbrev pub IsText : Logger → Type 0
  IsText (syslog_logger level) = ⊥
  IsText (text_logger out f ts level) = Unit

  on_output-IsText :
      (s f : GoString) (ts : Bool) (level : Level)
      (out : Handles × (Output × (Bool × Option Error)))
      → IsText (on_output os s f ts level out).logger
  on_output-IsText s f ts level (h, (out, (needs_close, none))) = tt
  on_output-IsText s f ts level (h, (out, (needs_close, some e))) = tt

  on_env_file-Holds :
      (l : Logger) (log_file : Option GoString) (h : Handles) (opts : Options) (envs : LogEnvs)
      (c : LogConfig)
      → IsText l
      → Owns l log_file h
      → Holds (on_env_file os opts envs c h log_file)
  on_env_file-Holds (syslog_logger level) log_file h opts envs c never own = absurd never
  on_env_file-Holds (text_logger (file path) f ts level) none h opts envs c is own =
      absurd (ground (arith, own.0))
  on_env_file-Holds (text_logger (file path) f ts level) (some p) h opts envs c is
        (same, syslogs, files) =
      (refl, syslogs, files)
  on_env_file-Holds (text_logger stdout f ts level) none h opts envs c is (same, syslogs, files) =
      new_conf_log-Holds opts envs c [] h (zero_open h (syslogs, files))
  on_env_file-Holds (text_logger stderr f ts level) none h opts envs c is (same, syslogs, files) =
      new_conf_log-Holds opts envs c [] h (zero_open h (syslogs, files))
  on_env_file-Holds (text_logger stdout f ts level) (some p) h opts envs c is own =
      absurd (ground (arith, own.0))
  on_env_file-Holds (text_logger stderr f ts level) (some p) h opts envs c is own =
      absurd (ground (arith, own.0))

  pub new_logger-IsText :
      (s f : GoString) (ts : Bool) (level : Level) (h : Handles)
      → s ≢ output_syslog
      → IsText (new_logger os s f ts level h).logger
  unfolding new_logger
  new_logger-IsText s f ts level h other =
      rw (beq-false s output_syslog other) (on_output-IsText s f ts level (output_from_str os s h))

  -- The system log of the environment is kept, or closed before the next logger is opened.
  after_close-Holds :
      (s f : GoString) (ts : Bool) (level : Level) (opts : Options) (envs : LogEnvs) (c : LogConfig)
      → s ≡ output_syslog
      → let o = new_logger os s f ts level nothing_open in
        Holds (after_close os o.logger opts envs c (close_env os o.logger opts envs c o.handles))
  unfolding new_logger close_env
  after_close-Holds s f ts level opts envs c is_syslog = elim (Bool-cases (keeps opts envs c)) [
    | inl kept ↦
        rw (is_syslog, eq_refl output_syslog, kept) (kept_env-Holds f ts level os.open_syslog)
    | inr closes ↦
        rw (is_syslog, eq_refl output_syslog, closes)
          (close_logger-Holds f ts level os.open_syslog opts envs c)
  ]

  -- Unless the environment names the system log, what is open once the second logger is there is
  -- what that logger writes to and nothing else, and a file that is open is the one to close.
  pub new_config_logger-Owns :
      (opts : Options) (envs : LogEnvs) (conf : Option LogConfig)
      → envs.output ≢ output_syslog
      → let r = new_config_logger os (new_env_logger os opts envs nothing_open) opts envs conf in
        Owns r.logger r.log_file r.handles
  unfolding new_config_logger new_env_logger
  new_config_logger-Owns opts envs none other = new_logger-Owns _ _ _ _
  new_config_logger-Owns opts envs (some c) other = elim (Bool-cases (envs.output == [])) [
    | inl unnamed ↦ rw unnamed (
        after_close-Holds _ _ _ _ opts envs c (or_string-unnamed envs.output output_syslog unnamed))
    | inr named ↦ rw named (
        on_env_file-Holds _ _ _ opts envs c
          (new_logger-IsText _ _ _ _ _
            (λ e. other (sym (or_string-named envs.output output_syslog named) ∙ e)))
          (new_logger-Owns _ _ _ _))
  ]
