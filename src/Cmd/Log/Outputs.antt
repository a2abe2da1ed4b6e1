-- ===== src/Cmd/Log/Outputs.antt =====
-- internal/cmd/log.go: the output of the logger that the program ends up with.
use ad_guard_dnscli.Base.{
  ◌≡◌, refl, sym, ◌∙◌, inl, inr, true, false, Bool-cases, Option, none, some, Option-cases, [], ◌∷◌,
  ◌++◌, GoString, String, subst, string_eq, ◌==◌, arith, Bool, bytes_eq_iff,
}
use ad_guard_dnscli.Errors.{Error, Errs}
use ad_guard_dnscli.Cmd.Env.{Os, LogEnvs, output_syslog, output_stdout, output_stderr}
use ad_guard_dnscli.Cmd.Log.{
  LogConfig, Level, stdout, stderr, file, Logger, syslog_logger, text_logger, Handles, Options,
  or_string, on_output, output_from_str, new_logger, new_env_logger, close_env, overridden_output,
  Configured, new_config_logger, close_logger, after_close, on_env_file, new_conf_log, prefixed,
}
use ad_guard_dnscli.Cmd.Log.Levels.{keeps}
use ad_guard_dnscli.Cmd.Log.Opening.{
  Owns, nothing_open, new_logger-Owns, or_string-named, or_string-unnamed,
}

-- The logger writes where the text says.
abbrev pub WritesTo : Logger → GoString → Type 0
WritesTo (syslog_logger level) s = s ≡ output_syslog
WritesTo (text_logger stdout f ts level) s = s ≡ output_stdout
WritesTo (text_logger stderr f ts level) s = s ≡ output_stderr
WritesTo (text_logger (file path) f ts level) s = s ≡ path

module _ (os : Os) where
  on_output-WritesTo :
      (s f : GoString) (ts : Bool) (level : Level) (h : Handles)
      → let o = on_output os s f ts level (output_from_str os s h) in
        o.error ≡ none → WritesTo o.logger s
  unfolding output_from_str
  on_output-WritesTo s f ts level h = elim (Bool-cases (s == output_stderr)) [
    | inl err ↦ rw err (λ _. (bytes_eq_iff s output_stderr).0 err)
    | inr not_err ↦ elim (Bool-cases (s == output_stdout)) [
      | inl out ↦ rw (not_err, out) (λ _. (bytes_eq_iff s output_stdout).0 out)
      | inr not_out ↦ elim (Option-cases (os.open_file s)) [
        | inl opened ↦ rw (not_err, not_out, opened) (λ _. refl)
        | inr (e, failed) ↦ rw (not_err, not_out, failed) (λ bad. absurd (ground (arith, bad)))
      ]
    ]
  ]

  pub new_logger-WritesTo :
      (s f : GoString) (ts : Bool) (level : Level) (h : Handles)
      → let o = new_logger os s f ts level h in o.error ≡ none → WritesTo o.logger s
  unfolding new_logger
  new_logger-WritesTo s f ts level h = elim (Bool-cases (s == output_syslog)) [
    | inl is_syslog ↦ elim (Option-cases os.open_syslog) [
      | inl opened ↦ rw (is_syslog, opened) (λ _. (bytes_eq_iff s output_syslog).0 is_syslog)
      | inr (e, failed) ↦ rw (is_syslog, failed) (λ bad. absurd (ground (arith, bad)))
    ]
    | inr other ↦ rw other (on_output-WritesTo s f ts level h)
  ]

  prefixed_iff :
      (errs : Errs) (f : String) (e : Option Error) → errs ++ prefixed f e ≡ [] → e ≡ none
  prefixed_iff errs f none h = refl
  prefixed_iff [] f (some e) h = absurd (ground (arith, h))
  prefixed_iff (x ∷ errs) f (some e) h = absurd (ground (arith, h))

  abbrev WritesRight : LogEnvs → LogConfig → Configured → Type 0
  WritesRight envs c r = r.errors ≡ [] → WritesTo r.logger (overridden_output envs c)

  new_conf_log-WritesRight :
      (opts : Options) (envs : LogEnvs) (c : LogConfig) (errs : Errs) (h : Handles)
      → WritesRight envs c (new_conf_log os opts envs c errs h)
  new_conf_log-WritesRight opts envs c errs h fine =
      new_logger-WritesTo _ _ _ _ h (prefixed_iff errs "creating conf log: %w" _ fine)

  close_logger-WritesRight :
      (l : Logger) (opts : Options) (envs : LogEnvs) (c : LogConfig) (h : Handles)
      → WritesRight envs c (after_close os l opts envs c (close_logger os l h))
  close_logger-WritesRight (syslog_logger level) opts envs c h =
      new_conf_log-WritesRight opts envs c (prefixed "closing env syslog: %w" os.close_syslog) _
  close_logger-WritesRight (text_logger out f ts level) opts envs c h =
      new_conf_log-WritesRight opts envs c [] h

  on_env_file-WritesRight :
      (l : Logger) (log_file : Option GoString) (h : Handles) (opts : Options) (envs : LogEnvs)
      (c : LogConfig)
      → Owns l log_file h
      → WritesTo l (overridden_output envs c)
      → WritesRight envs c (on_env_file os opts envs c h log_file)
  on_env_file-WritesRight l none h opts envs c own writes =
      new_conf_log-WritesRight opts envs c [] h
  on_env_file-WritesRight (syslog_logger level) (some path) h opts envs c own writes =
      absurd (ground (arith, own.0))
  on_env_file-WritesRight (text_logger stdout f ts level) (some path) h opts envs c own writes =
      absurd (ground (arith, own.0))
  on_env_file-WritesRight (text_logger stderr f ts level) (some path) h opts envs c own writes =
      absurd (ground (arith, own.0))
  on_env_file-WritesRight (text_logger (file p) f ts level) (some path) h opts envs c own writes =
      λ fine. cc

  kept_output :
      (opts : Options) (envs : LogEnvs) (c : LogConfig)
      → (envs.output == []) ≡ true
      → keeps opts envs c ≡ true
      → or_string envs.output output_syslog ≡ overridden_output envs c
  unfolding overridden_output
  kept_output opts envs c unnamed kept =
      let same : c.output ≡ output_syslog =
        (bytes_eq_iff c.output output_syslog).0 (ground arith) in
      or_string-unnamed envs.output output_syslog unnamed
      ∙ sym same
      ∙ sym (or_string-unnamed envs.output c.output unnamed)

  named_output :
      (envs : LogEnvs) (c : LogConfig)
      → (envs.output == []) ≡ false
      → or_string envs.output output_syslog ≡ overridden_output envs c
  unfolding overridden_output
  named_output envs c named =
      or_string-named envs.output output_syslog named
      ∙ sym (or_string-named envs.output c.output named)

  new_config_logger-WritesRight :
      (opts : Options) (envs : LogEnvs) (c : LogConfig)
      → let o = new_env_logger os opts envs nothing_open in
        o.error ≡ none → WritesRight envs c (new_config_logger os o opts envs (some c))
  unfolding new_config_logger new_env_logger close_env
  new_config_logger-WritesRight opts envs c opened =
      let writes : WritesTo (new_env_logger os opts envs nothing_open).logger
          (or_string envs.output output_syslog) =
        new_logger-WritesTo _ _ _ _ nothing_open opened in
      elim (Bool-cases (envs.output == [])) [
        | inl unnamed ↦ elim (Bool-cases (keeps opts envs c)) [
          | inl kept ↦
              rw (unnamed, kept)
                (λ _. subst (WritesTo _) (kept_output opts envs c unnamed kept) writes)
          | inr closes ↦ rw (unnamed, closes) (close_logger-WritesRight _ opts envs c _)
        ]
        | inr named ↦ rw named (
            on_env_file-WritesRight _ _ _ opts envs c (new_logger-Owns os _ _ _ _)
              (subst (WritesTo _) (named_output envs c named) writes))
      ]

  -- When both loggers are opened with no error, the second one writes to the output that the
  -- environment names, or to the one of the configuration when the environment names none.
  pub new_config_logger-WritesTo :
      (opts : Options) (envs : LogEnvs) (c : LogConfig)
      → let o = new_env_logger os opts envs nothing_open in
        let r = new_config_logger os o opts envs (some c) in
        o.error ≡ none → r.errors ≡ [] → WritesTo r.logger (overridden_output envs c)
  new_config_logger-WritesTo opts envs c opened fine =
      new_config_logger-WritesRight opts envs c opened fine
