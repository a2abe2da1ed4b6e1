-- ===== src/Cmd/Log.antt =====
-- internal/cmd/log.go: the configuration of logging, and the two loggers that the program opens one
-- after the other, the first from the environment and the second from the configuration.
pub mod Opening
pub mod Levels
pub mod Outputs
use ad_guard_dnscli.Base.{
  ℕ, suc, ◌+◌, ◌-◌, Bool, true, false, not, ◌&&◌, ◌||◌, Option, none, some, List, [], ◌∷◌, GoString,
  String, str, ◌++◌, string_eq, ◌==◌, if◌then◌else◌,
}
use ad_guard_dnscli.Errors.{
  Error, Errs, errorf, wrapf, sentinel, no_value, bad_enum_value, text, Result, ok, err, join,
  error_of,
}
use ad_guard_dnscli.Cmd.Env.{Os, LogEnvs, output_syslog, output_stdout, output_stderr, is_special}

pub record LogConfig : Type 0 where
  pub output : GoString
  pub format : GoString
  pub timestamp : Bool
  pub verbose : Bool

-- `slog.LevelInfo` and `slog.LevelDebug`.
pub data Level : Type 0 where
  level_info level_debug : Level

-- A logger on the system log, or one of `slogutil.New`.
pub data Output : Type 0 where
  stdout stderr : Output
  file : GoString → Output

pub data Logger : Type 0 where
  syslog_logger : Level → Logger
  text_logger : Output → (format : GoString) → (add_timestamp : Bool) → Level → Logger

-- The system logs and the files that are open.
pub record Handles : Type 0 where
  pub syslogs : ℕ
  pub files : ℕ

pub record Options : Type 0 where
  pub service_action : GoString
  pub verbose : Bool
  pub version : Bool
  pub help : Bool

-- `cmp.Or` of two strings.
unfoldable pub or_string : GoString → GoString → GoString
or_string [] b = b
or_string (c ∷ a) b = c ∷ a

-- What opening a logger gives, besides the handles.
pub record Opened : Type 0 where
  pub logger : Logger
  pub log_file : Option GoString
  pub error : Option Error
  pub handles : Handles

abbrev pub syslog_opened : Handles → Handles
syslog_opened h = record h { syslogs = suc h.syslogs }

abbrev pub file_opened : Handles → Handles
file_opened h = record h { files = suc h.files }

abbrev pub syslog_closed : Handles → Handles
syslog_closed h = record h { syslogs = h.syslogs - 1 }

module _ (os : Os) where
  abbrev output_error : GoString → Option Error
  output_error s =
      if is_special s || os.is_abs s
      then none
      else some (wrapf "output: %w: %q" (text s ∷ []) (sentinel bad_enum_value))

  unfoldable pub validate_log : Option LogConfig → Option Error
  validate_log none = some (sentinel no_value)
  validate_log (some c) = join (output_error c.output ∷ error_of (os.new_format c.format) ∷ [])

  -- `newLogger` for the system log, by the error of opening it.
  abbrev pub on_syslog : GoString → Bool → Level → Handles → Option Error → Opened
  on_syslog f ts level h none = record {
    logger = syslog_logger level;
    log_file = none;
    error = none;
    handles = syslog_opened h;
  }
  on_syslog f ts level h (some e) = record {
    logger = text_logger stderr f ts level;
    log_file = none;
    error = some (wrapf "opening syslog: %w" [] e);
    handles = h;
  }

  abbrev pub file_from_str :
      GoString → Handles → Option Error → Handles × (Output × (Bool × Option Error))
  file_from_str s h none = (file_opened h, (file s, (true, none)))
  file_from_str s h (some e) = (h, (stderr, (false, some (wrapf "opening config output: %w" [] e))))

  unfoldable pub output_from_str : GoString → Handles → Handles × (Output × (Bool × Option Error))
  output_from_str s h =
      if s == output_stderr
      then (h, (stderr, (false, none)))
      else if s == output_stdout
      then (h, (stdout, (false, none)))
      else file_from_str s h (os.open_file s)

  -- `newLogger` for the other outputs.
  abbrev pub on_output :
      GoString → GoString → Bool → Level → Handles × (Output × (Bool × Option Error)) → Opened
  on_output s f ts level (h, (out, (needs_close, some e))) = record {
    logger = text_logger out f ts level;
    log_file = none;
    error = some (wrapf "opening log file: %w" [] e);
    handles = h;
  }
  on_output s f ts level (h, (out, (needs_close, none))) = record {
    logger = text_logger out f ts level;
    log_file = if needs_close then some s else none;
    error = none;
    handles = h;
  }

  unfoldable pub new_logger : GoString → GoString → Bool → Level → Handles → Opened
  unfolding output_from_str
  new_logger output f ts level h =
      if output == output_syslog
      then on_syslog f ts level h os.open_syslog
      else on_output output f ts level (output_from_str output h)

  unfoldable pub new_env_logger : Options → LogEnvs → Handles → Opened
  unfolding or_string new_logger
  new_env_logger opts envs h =
      new_logger (or_string envs.output output_syslog) (or_string envs.format os.format_default)
        (envs.timestamp_set && envs.timestamp)
        (if opts.verbose || (envs.verbose_set && envs.verbose) then level_debug else level_info) h

  -- `closeEnv`: whether the previous logger is used, the handles, and the error of closing it.
  abbrev pub close_logger : Logger → Handles → Bool × (Handles × Option Error)
  close_logger (syslog_logger level) h = (false, (syslog_closed h, os.close_syslog))
  close_logger (text_logger out f ts level) h = (false, (h, none))

  unfoldable pub close_env :
      Logger → Options → LogEnvs → LogConfig → Handles → Bool × (Handles × Option Error)
  close_env l opts envs c h =
      if c.output == output_syslog && (not c.verbose || opts.verbose || envs.verbose_set)
      then (true, (h, none))
      else close_logger l h

-- `overridenLogConf`, a function for each of its results.
unfoldable pub overridden_output : LogEnvs → LogConfig → GoString
unfolding or_string
overridden_output envs c = or_string envs.output c.output

unfoldable pub overridden_format : LogEnvs → LogConfig → GoString
unfolding or_string
overridden_format envs c = or_string envs.format c.format

unfoldable pub overridden_timestamp : LogEnvs → LogConfig → Bool
overridden_timestamp envs c = if envs.timestamp_set then envs.timestamp else c.timestamp

unfoldable pub overridden_level : Options → LogEnvs → LogConfig → Level
overridden_level opts envs c =
    if opts.verbose || (envs.verbose_set && envs.verbose) || c.verbose
    then level_debug
    else level_info

-- What `newConfigLogger` gives; its errors are collected.
pub record Configured : Type 0 where
  pub logger : Logger
  pub log_file : Option GoString
  pub errors : Errs
  pub handles : Handles

abbrev pub prefixed : String → Option Error → Errs
prefixed f none = []
prefixed f (some e) = some (wrapf f [] e) ∷ []

abbrev pub created : Errs → Opened → Configured
created errs o = record {
  logger = o.logger;
  log_file = o.log_file;
  errors = errs ++ prefixed "creating conf log: %w" o.error;
  handles = o.handles;
}

module _ (os : Os) where
  abbrev pub new_conf_log : Options → LogEnvs → LogConfig → Errs → Handles → Configured
  new_conf_log opts envs c errs h = created errs (
      new_logger os (overridden_output envs c) (overridden_format envs c)
        (overridden_timestamp envs c) (overridden_level opts envs c) h)

  abbrev pub after_close :
      Logger → Options → LogEnvs → LogConfig → Bool × (Handles × Option Error) → Configured
  after_close l opts envs c (true, (h, e)) = record {
    logger = l;
    log_file = none;
    errors = [];
    handles = h;
  }
  after_close l opts envs c (false, (h, e)) =
      new_conf_log opts envs c (prefixed "closing env syslog: %w" e) h

  abbrev pub on_env_file : Options → LogEnvs → LogConfig → Handles → Option GoString → Configured
  on_env_file opts envs c h (some path) = record {
    logger =
        text_logger (file path) (overridden_format envs c) (overridden_timestamp envs c)
          (overridden_level opts envs c);
    log_file = some path;
    errors = [];
    handles = h;
  }
  on_env_file opts envs c h none = new_conf_log opts envs c [] h

  unfoldable pub new_config_logger : Opened → Options → LogEnvs → Option LogConfig → Configured
  unfolding close_env new_logger overridden_output overridden_format overridden_timestamp
      overridden_level
  new_config_logger o opts envs none = record {
    logger = o.logger;
    log_file = o.log_file;
    errors = [];
    handles = o.handles;
  }
  new_config_logger o opts envs (some c) =
      if envs.output == []
      then after_close o.logger opts envs c (close_env os o.logger opts envs c o.handles)
      else on_env_file opts envs c o.handles o.log_file
