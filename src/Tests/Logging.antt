-- ===== src/Tests/Logging.antt =====
-- The loggers and the environment at concrete values.
use ad_guard_dnscli.Base.{
  ◌≡◌, ◌↔◌, refl, Bool, true, false, none, some, [], GoString, str, string_eq, ◌==◌, arith,
  is_prefix, if◌then◌else◌, bytes_eq,
}
use ad_guard_dnscli.Errors.{Result, errorf, ok, err, join}
use ad_guard_dnscli.Cmd.Env.{Os, LogEnvs, parse_log_envs, output_syslog}
use ad_guard_dnscli.Cmd.Env.Parsing.{IsRead, IsOutput, parse_log_envs-join_iff}
use ad_guard_dnscli.Cmd.Log.{
  LogConfig, Options, level_info, level_debug, overridden_level, new_env_logger, new_config_logger,
}
use ad_guard_dnscli.Cmd.Log.Levels.{
  level_of, new_config_logger-level, new_config_logger-verbose_off,
}
use ad_guard_dnscli.Cmd.Log.Opening.{Owns, nothing_open, new_config_logger-Owns}

abbrev parsed : GoString → Result Bool
parsed s =
    if s == str "1"
    then ok true
    else if s == str "0"
    then ok false
    else err (errorf "invalid syntax" [])

-- Everything can be opened, and `VERBOSE` is 0.
abbrev pub system : Os
system = record {
  getenv = λ s. if s == str "VERBOSE" then str "0" else [];
  is_abs = λ s. is_prefix (str "/") s;
  new_format = λ s. ok s;
  format_default = str "default";
  parse_bool = parsed;
  open_syslog = none;
  open_file = λ path. none;
  close_syslog = none;
}

abbrev pub no_options : Options
no_options = record { service_action = []; verbose = false; version = false; help = false }

abbrev unset : LogEnvs
unset = record {
  output = [];
  format = [];
  timestamp = false;
  timestamp_set = false;
  verbose = false;
  verbose_set = false;
}

abbrev quiet : LogEnvs
quiet = record unset { verbose_set = true }

abbrev verbose_syslog : LogConfig
verbose_syslog = record {
  output = str "syslog";
  format = str "text";
  timestamp = false;
  verbose = true;
}

abbrev to_file : LogConfig
to_file = record verbose_syslog { output = str "/var/log/dns.log" }

parse_log_envs-join_iff_example : (join (parse_log_envs system).1 ≡ none) ↔ (
    IsOutput system (system.getenv (str "LOG_OUTPUT"))
    × IsRead system.new_format (system.getenv (str "LOG_FORMAT"))
    × IsRead system.parse_bool (system.getenv (str "LOG_TIMESTAMP"))
    × IsRead system.parse_bool (system.getenv (str "VERBOSE")))
parse_log_envs-join_iff_example = parse_log_envs-join_iff system

new_config_logger-level_example :
    level_of
      (new_config_logger system
        (new_env_logger system no_options unset nothing_open)
        no_options
        unset
        (some verbose_syslog)).logger
    ≡ overridden_level no_options unset verbose_syslog
new_config_logger-level_example =
    new_config_logger-level system no_options unset verbose_syslog nothing_open refl

new_config_logger-verbose_off_example :
    level_of
      (new_config_logger system
        (new_env_logger system no_options quiet nothing_open)
        no_options
        quiet
        (some verbose_syslog)).logger
    ≡ (if verbose_syslog.output == output_syslog then level_info else level_debug)
new_config_logger-verbose_off_example =
    new_config_logger-verbose_off system no_options quiet verbose_syslog nothing_open refl refl refl
      refl refl

new_config_logger-Owns_example :
    let r =
      new_config_logger system
        (new_env_logger system no_options unset nothing_open)
        no_options
        unset
        (some to_file) in
    Owns r.logger r.log_file r.handles
new_config_logger-Owns_example =
    new_config_logger-Owns system no_options unset (some to_file) (λ e. absurd (ground (arith, e)))

opened : (new_env_logger system no_options unset nothing_open).error ≡ none
unfolding new_env_logger bytes_eq
opened = refl

configured :
    (new_config_logger system
      (new_env_logger system no_options unset nothing_open)
      no_options
      unset
      (some to_file)).errors
    ≡ []
unfolding new_config_logger new_env_logger bytes_eq
configured = refl
