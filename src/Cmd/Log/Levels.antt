-- ===== src/Cmd/Log/Levels.antt =====
-- internal/cmd/log.go: the level and the output of the logger that the program ends up with.
use ad_guard_dnscli.Base.{
  ◌≡◌, refl, ◌∙◌, inl, inr, true, false, not, ◌&&◌, ◌||◌, Bool-cases, Option, none, some,
  Option-cases, [], GoString, string_eq, ◌==◌, eq_refl, if◌then◌else◌, arith, Bool,
}
use ad_guard_dnscli.Errors.{Error}
use ad_guard_dnscli.Cmd.Env.{Os, LogEnvs, output_syslog}
use ad_guard_dnscli.Cmd.Log.{
  LogConfig, Level, level_info, level_debug, Output, Logger, syslog_logger, text_logger, Handles,
  Options, Opened, on_output, output_from_str, new_logger, new_env_logger, close_env,
  overridden_level, new_config_logger, close_logger, after_close, on_env_file,
}

abbrev pub level_of : Logger → Level
level_of (syslog_logger level) = level
level_of (text_logger out f ts level) = level

-- The test of `closeEnv`.
abbrev pub keeps : Options → LogEnvs → LogConfig → Bool
keeps opts envs c = c.output == output_syslog && (not c.verbose || opts.verbose || envs.verbose_set)

same_level :
    (opts : Options) (envs : LogEnvs) (c : LogConfig)
    → (envs.verbose_set && not envs.verbose && not opts.verbose && c.verbose) ≡ false
    → keeps opts envs c ≡ true
    → (if opts.verbose || (envs.verbose_set && envs.verbose) then level_debug else level_info)
      ≡ overridden_level opts envs c
unfolding overridden_level
same_level opts envs c usual kept = ground arith

debug_level :
    (opts : Options) (envs : LogEnvs) (c : LogConfig)
    → c.verbose ≡ true
    → overridden_level opts envs c ≡ level_debug
unfolding overridden_level
debug_level opts envs c loud = ground arith

module _ (os : Os) where
  on_output-level :
      (s f : GoString) (ts : Bool) (level : Level)
      (out : Handles × (Output × (Bool × Option Error)))
      → level_of (on_output os s f ts level out).logger ≡ level
  on_output-level s f ts level (h, (out, (needs_close, none))) = refl
  on_output-level s f ts level (h, (out, (needs_close, some e))) = refl

  new_logger-level :
      (s f : GoString) (ts : Bool) (level : Level) (h : Handles)
      → level_of (new_logger os s f ts level h).logger ≡ level
  unfolding new_logger
  new_logger-level s f ts level h = elim (Bool-cases (s == output_syslog)) [
    | inl is_syslog ↦ elim (Option-cases os.open_syslog) [
      | inl opened ↦ rw (is_syslog, opened) refl
      | inr (e, failed) ↦ rw (is_syslog, failed) refl
    ]
    | inr other ↦ rw other (on_output-level s f ts level (output_from_str os s h))
  ]

  pub new_env_logger-level :
      (opts : Options) (envs : LogEnvs) (h : Handles)
      → level_of (new_env_logger os opts envs h).logger
        ≡ (if opts.verbose || (envs.verbose_set && envs.verbose) then level_debug else level_info)
  unfolding new_env_logger
  new_env_logger-level opts envs h = new_logger-level _ _ _ _ h

  close_logger-level :
      (l : Logger) (opts : Options) (envs : LogEnvs) (c : LogConfig) (h : Handles)
      → level_of (after_close os l opts envs c (close_logger os l h)).logger
        ≡ overridden_level opts envs c
  close_logger-level (syslog_logger level) opts envs c h = new_logger-level _ _ _ _ _
  close_logger-level (text_logger out f ts level) opts envs c h = new_logger-level _ _ _ _ _

  on_env_file-level :
      (opts : Options) (envs : LogEnvs) (c : LogConfig) (h : Handles) (log_file : Option GoString)
      → level_of (on_env_file os opts envs c h log_file).logger ≡ overridden_level opts envs c
  on_env_file-level opts envs c h none = new_logger-level _ _ _ _ h
  on_env_file-level opts envs c h (some path) = refl

  -- With a configuration, the logger has the level of the options, the environment and the
  -- configuration together, unless the environment asks for no verbosity, and only the configuration
  -- asks for it.
  pub new_config_logger-level :
      (opts : Options) (envs : LogEnvs) (c : LogConfig) (h : Handles)
      → (envs.verbose_set && not envs.verbose && not opts.verbose && c.verbose) ≡ false
      → level_of (new_config_logger os (new_env_logger os opts envs h) opts envs (some c)).logger
        ≡ overridden_level opts envs c
  unfolding new_config_logger close_env
  new_config_logger-level opts envs c h usual =
      let o : Opened = new_env_logger os opts envs h in
      elim (Bool-cases (envs.output == [])) [
        | inr named ↦ rw named (on_env_file-level opts envs c o.handles o.log_file)
        | inl unnamed ↦ elim (Bool-cases (keeps opts envs c)) [
          | inr closes ↦ rw (unnamed, closes) (close_logger-level o.logger opts envs c o.handles)
          | inl kept ↦
              rw (unnamed, kept)
                (new_env_logger-level opts envs h ∙ same_level opts envs c usual kept)
        ]
      ]

  -- When the environment names no output and sets VERBOSE to no verbosity, and only the configuration
  -- asks for verbosity, the level depends on the output of the configuration: that of the logger is
  -- the one for information if this is the system log, and the one for debugging if it is any other.
  pub new_config_logger-verbose_off :
      (opts : Options) (envs : LogEnvs) (c : LogConfig) (h : Handles)
      → envs.output ≡ []
      → envs.verbose_set ≡ true
      → envs.verbose ≡ false
      → opts.verbose ≡ false
      → c.verbose ≡ true
      → level_of (new_config_logger os (new_env_logger os opts envs h) opts envs (some c)).logger
        ≡ (if c.output == output_syslog then level_info else level_debug)
  unfolding new_config_logger close_env
  new_config_logger-verbose_off opts envs c h unnamed is_set off quiet loud =
      let o : Opened = new_env_logger os opts envs h in
      let named : (envs.output == []) ≡ true = rw unnamed (eq_refl {A = GoString} []) in
      elim (Bool-cases (c.output == output_syslog)) [
        | inl is_syslog ↦
            rw (named, is_syslog, loud, quiet, is_set)
              (new_env_logger-level opts envs h ∙ ground arith)
        | inr other ↦
            rw (named, other)
              (close_logger-level o.logger opts envs c o.handles ∙ debug_level opts envs c loud)
      ]
