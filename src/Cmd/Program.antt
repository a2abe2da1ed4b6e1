-- ===== src/Cmd/Program.antt =====
-- internal/cmd: the program from its start to its exit (`Main` of cmd.go, options.go, config.go and
-- the rest of default.go and program.go). The package flag, the file system, the YAML library and
-- the service of the operating system are parameters; the messages are left out.
pub mod Exits
use ad_guard_dnscli.Base.{
  ℕ, ◌-◌, Bool, true, false, ◌||◌, Option, none, some, List, [], ◌∷◌, map, ◌++◌, GoString, str,
  string_eq, ◌==◌, if◌then◌else◌, is_prefix,
}
use ad_guard_dnscli.Errors.{
  Error, Arg, Errs, errorf, wrapf, text, Result, ok, err, ◌>>=◌, wrap, join, error_of,
}
use ad_guard_dnscli.Netip.{Prefix}
use ad_guard_dnscli.ConfigMigrate.Run.{Env, Ended, ended, crashed, run}
use ad_guard_dnscli.Cmd.Env.{Os, LogEnvs, parse_log_envs}
use ad_guard_dnscli.Cmd.Log.{
  Options, LogConfig, Logger, syslog_logger, text_logger, Handles, Configured, new_env_logger,
  new_config_logger,
}
use ad_guard_dnscli.Cmd.Default.{
  Validators, Configuration, version_latest, validate_configuration, new_default_config,
}
use ad_guard_dnscli.Cmd.Service.Control.{
  OsService, ExitCode, success, failure, Controlled, control, action_install,
}

-- `parseOptions`, by what package flag has read, its error, and the arguments that are left.
unfoldable pub parse_options : Options → Option Error → List GoString → Options × Option Error
parse_options opts e [] = (opts, join (e ∷ []))
parse_options opts e (a ∷ args) =
    (opts, join (e ∷ some (errorf "unexpected arguments: %q" (map text (a ∷ args))) ∷ []))

abbrev pub handle_info_opts : Options → Bool
handle_info_opts opts = opts.help || opts.version

-- What `os.OpenFile` says of the new configuration file.
pub data Creation : Type 0 where
  created : Creation
  exists : Creation
  refused : Error → Creation

-- The file system, the environment of the migrator, the YAML library, and `errors.WithDeferred`.
pub record Files : Type 0 where
  pub absolute_paths : Result (GoString × GoString)
  pub migrator : Env
  pub open_config : Result GoString
  pub decode : GoString → Result Configuration
  pub close_config : Option Error
  pub validate_exec_path : GoString → Option Error
  pub create_config : Creation
  pub parse_prefix : GoString → Result Prefix
  pub interfaces : Result (List GoString)
  pub encode : Configuration → Option Error
  pub with_deferred : Option Error → Option Error → Option Error

module _ (v : Validators) (fs : Files) where
  abbrev deferred : Result Configuration → Option Error → Result Configuration
  deferred r none = r
  deferred r (some e) = err e

  -- The file is closed whether it is decoded or not.
  abbrev closed : Result Configuration → Result Configuration
  closed r = deferred r (fs.with_deferred (error_of r) fs.close_config)

  unfoldable pub parse_config : Result Configuration
  parse_config =
      wrap "parsing configuration: %w" []
        (do contents ← fs.open_config; closed (fs.decode contents))

  abbrev pub validated : Configuration → Option Error → Result Configuration
  validated c none = ok c
  validated c (some e) = err (wrapf "configuration: %w" [] e)

  -- A panic of the migrator is an error.
  abbrev pub after_migration : Ended → Result Configuration
  after_migration crashed = err (errorf "panic" [])
  after_migration (ended calls (some e)) = err e
  after_migration (ended calls none) = do
    c ← parse_config
    validated c (validate_configuration v (some c))

  unfoldable pub handle_config : Result Configuration
  unfolding parse_config
  handle_config = after_migration (run v.golibs fs.migrator version_latest)

  abbrev encoded : Result Configuration → Option Error
  encoded (err e) = some e
  encoded (ok c) = fs.encode c

  abbrev annotated : Option Error → Option Error
  annotated none = none
  annotated (some e) = some (wrapf "writing default configuration: %w" [] e)

  abbrev made_file : Creation → Option Error
  made_file exists = none
  made_file (refused e) = some (wrapf "creating configuration file: %w" [] e)
  made_file created =
      fs.with_deferred (encoded (new_default_config v.os fs.parse_prefix fs.interfaces))
        fs.close_config

  unfoldable pub write_default_config : Option Error
  write_default_config = annotated (made_file fs.create_config)

  abbrev installed : Option Error → Option Error
  installed (some e) = some e
  installed none = write_default_config

  unfoldable pub handle_install : GoString → Option Error
  unfolding write_default_config
  handle_install exec_path = installed (fs.validate_exec_path exec_path)

  abbrev no_config : Option Error → Result (Option Configuration)
  no_config none = ok none
  no_config (some e) = err e

  abbrev pub some_config : Result Configuration → Result (Option Configuration)
  some_config (ok c) = ok (some c)
  some_config (err e) = err e

  abbrev pub config_for : GoString → GoString → Result (Option Configuration)
  config_for action exec_path =
      if action == []
      then some_config handle_config
      else if action == action_install
      then no_config (handle_install exec_path)
      else ok none

  unfoldable pub handle_service_config : GoString → Result (Option Configuration)
  unfolding handle_config handle_install
  handle_service_config action = do paths ← fs.absolute_paths; config_for action paths.0

  -- `closeLogs`: the handles that are left.
  abbrev pub without_file : Option GoString → Handles → Handles
  without_file none h = h
  without_file (some path) h = record h { files = h.files - 1 }

  abbrev pub without_syslog : Logger → Handles → Handles
  without_syslog (syslog_logger level) h = record h { syslogs = h.syslogs - 1 }
  without_syslog (text_logger out f ts level) h = h

  unfoldable pub close_logs : Configured → Handles
  close_logs r = without_syslog r.logger (without_file r.log_file r.handles)

-- `osutil.ExitCodeSuccess`, `ExitCodeFailure` and `ExitCodeArgumentError`, and a panic.
pub data Exit : Type 0 where
  exits : ExitCode → Exit
  argument_error : Exit
  panics : Error → Exit

pub record Finished : Type 0 where
  pub exit : Exit
  pub handles : Handles

-- The service of the operating system: `service.New` and `Run`, besides the actions.
pub record Runner : Type 0 where
  pub new_service : Option Error
  pub actions : OsService
  pub run : Option Error

module _ (v : Validators) (fs : Files) (svc : Runner) where
  abbrev pub log_of : Result (Option Configuration) → Option LogConfig
  log_of (ok (some c)) = c.log
  log_of _ = none

  -- `check` on an error, and the end of `Main`: the logs are closed.
  abbrev pub exit_with : ExitCode → Configured → Finished
  exit_with code r = record { exit = exits code; handles = close_logs v fs r }

  abbrev pub after_run : Configured → Option Error → Finished
  after_run r none = exit_with success r
  after_run r (some e) = exit_with failure r

  abbrev pub after_control : Configured → Result Controlled → Finished
  after_control r (ok c) = exit_with c.exit_code r
  after_control r (err e) = record { exit = panics e; handles = r.handles }

  abbrev pub with_service : Options → Configured → Option Error → Finished
  with_service opts r (some e) = exit_with failure r
  with_service opts r none =
      if opts.service_action == []
      then after_run r svc.run
      else after_control r (control svc.actions opts.service_action)

  abbrev pub with_config : Options → Configured → Option Error → Finished
  with_config opts r (some e) = exit_with failure r
  with_config opts r none = with_service opts r svc.new_service

  -- The logger that the program ends up with.
  abbrev pub logger_for : Options → Handles → Configured
  logger_for opts h =
      let envs = (parse_log_envs v.os).0 in
      new_config_logger v.os (new_env_logger v.os opts envs h) opts envs
        (log_of (handle_service_config v fs opts.service_action))

  -- `Main` once the options are known to be no requests for information.
  unfoldable pub main_logged : Options → Handles → Finished
  unfolding handle_service_config close_logs
  main_logged opts h =
      with_config opts (logger_for opts h)
        (error_of (handle_service_config v fs opts.service_action))

  abbrev pub with_options : Handles → Options × Option Error → Finished
  with_options h (opts, some e) = record { exit = argument_error; handles = h }
  with_options h (opts, none) =
      if handle_info_opts opts
      then record { exit = exits success; handles = h }
      else main_logged opts h

  -- `Main`, by what package flag has read.
  unfoldable pub main : Options → Option Error → List GoString → Handles → Finished
  unfolding parse_options main_logged
  main opts e args h = with_options h (parse_options opts e args)
