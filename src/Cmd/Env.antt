-- ===== src/Cmd/Env.antt =====
-- internal/cmd/env.go: the variables of the environment that override the configuration of logging.
-- What the operating system, golibs and the standard library decide is a parameter.
pub mod Parsing
use ad_guard_dnscli.Base.{
  ℕ, suc, ◌+◌, ◌-◌, Bool, true, false, not, ◌&&◌, ◌||◌, Option, none, some, List, [], ◌∷◌, GoString,
  str, string_eq, ◌==◌, if◌then◌else◌,
}
use ad_guard_dnscli.Errors.{
  Error, Errs, errorf, wrapf, sentinel, no_value, bad_enum_value, text, Result, ok, err, join,
  error_of,
}

abbrev pub output_syslog : GoString
output_syslog = str "syslog"

abbrev pub output_stdout : GoString
output_stdout = str "stdout"

abbrev pub output_stderr : GoString
output_stderr = str "stderr"

abbrev pub is_special : GoString → Bool
is_special s = s == output_syslog || s == output_stdout || s == output_stderr

-- What the environment answers: `os.Getenv`, `filepath.IsAbs`, `slogutil.NewFormat` and its default,
-- `strconv.ParseBool`, and the errors of opening and closing.
pub record Os : Type 0 where
  pub getenv : GoString → GoString
  pub is_abs : GoString → Bool
  pub new_format : GoString → Result GoString
  pub format_default : GoString
  pub parse_bool : GoString → Result Bool
  pub open_syslog : Option Error
  pub open_file : GoString → Option Error
  pub close_syslog : Option Error

pub record LogEnvs : Type 0 where
  pub output : GoString
  pub format : GoString
  pub timestamp : Bool
  pub timestamp_set : Bool
  pub verbose : Bool
  pub verbose_set : Bool

module _ (os : Os) where
  abbrev pub bool_value : Result Bool → Bool × (Bool × Option Error)
  bool_value (ok b) = (b, (true, none))
  bool_value (err e) = (false, (false, some e))

  unfoldable pub env_bool : GoString → Bool × (Bool × Option Error)
  env_bool env =
      let s = os.getenv env in
      if s == [] then (false, (false, none)) else bool_value (os.parse_bool s)

  abbrev pub env_output : GoString → GoString × Option Error
  env_output s =
      if is_special s || s == []
      then (s, none)
      else if not (os.is_abs s)
      then ([], some (errorf "unsupported log output: %q" (text s ∷ [])))
      else (s, none)

  abbrev pub format_value : GoString → Result GoString → GoString × Option Error
  format_value s (ok f) = (f, none)
  format_value s (err e) = ([], some (wrapf "parsing %q: %w" (text (str "LOG_FORMAT") ∷ []) e))

  abbrev pub env_format : GoString → GoString × Option Error
  env_format s = if s == [] then ([], none) else format_value s (os.new_format s)

  abbrev pub bool_error : GoString → Option Error → Option Error
  bool_error env none = none
  bool_error env (some e) = some (wrapf "parsing %s: %w" (text env ∷ []) e)

  -- A `nil` in the errors stands for no error.
  unfoldable pub parse_log_envs : LogEnvs × Errs
  unfolding env_bool
  parse_log_envs =
      let (out, out_error) = env_output (os.getenv (str "LOG_OUTPUT")) in
      let (form, form_error) = env_format (os.getenv (str "LOG_FORMAT")) in
      let (stamp, (stamp_set, stamp_error)) = env_bool (str "LOG_TIMESTAMP") in
      let (loud, (loud_set, loud_error)) = env_bool (str "VERBOSE") in
      (
        record {
          output = out;
          format = form;
          timestamp = stamp;
          timestamp_set = stamp_set;
          verbose = loud;
          verbose_set = loud_set;
        },
        out_error
            ∷ form_error
            ∷ bool_error (str "LOG_TIMESTAMP") stamp_error
            ∷ bool_error (str "VERBOSE") loud_error
            ∷ [],
      )
