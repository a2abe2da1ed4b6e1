-- ===== src/Cmd/Program/Exits.antt =====
-- internal/cmd: how the program exits.
use ad_guard_dnscli.Base.{
  ◌≡◌, ◌≢◌, ◌⊎◌, refl, subst, inl, inr, true, false, Bool-cases, Option, none, some, Option-cases,
  List, [], ◌∷◌, GoString, string_eq, bytes_eq_iff, ◌==◌, arith,
}
use ad_guard_dnscli.Errors.{Error, Result, ok, err, error_of, join, ◌>>=◌}
use ad_guard_dnscli.ConfigMigrate.Run.{Ended, ended, crashed, run}
use ad_guard_dnscli.Cmd.Env.{output_syslog, parse_log_envs}
use ad_guard_dnscli.Cmd.Log.{
  Options, Logger, syslog_logger, text_logger, stdout, stderr, file, Handles, Configured,
}
use ad_guard_dnscli.Cmd.Log.Opening.{Owns, nothing_open, new_config_logger-Owns}
use ad_guard_dnscli.Cmd.Default.{Validators, Configuration, version_latest, validate_configuration}
use ad_guard_dnscli.Cmd.Service.Control.{success, failure, control, is_action, is_action-Controls}
use ad_guard_dnscli.Cmd.Program.{
  Files, Runner, Finished, exits, handle_config, handle_service_config, logger_for, close_logs,
  without_file, without_syslog, log_of, exit_with, after_run, after_control, with_service,
  with_config, main_logged, with_options, handle_info_opts, main, parse_options, parse_config,
  validated, after_migration, config_for, some_config,
}

-- No action, or one of those that the flag accepts.
abbrev pub HasAction : Options → Type 0
HasAction opts = (opts.service_action ≡ []) ⊎ (is_action opts.service_action ≡ true)

module _ (v : Validators) (fs : Files) (svc : Runner) where
  abbrev Holds : Configured → Type 0
  Holds r = Owns r.logger r.log_file r.handles

  without-Owns :
      (l : Logger) (log_file : Option GoString) (h : Handles)
      → Owns l log_file h
      → without_syslog v fs l (without_file v fs log_file h) ≡ nothing_open
  without-Owns (syslog_logger level) none h (no_file, syslogs, files) = rw (syslogs, files) refl
  without-Owns (syslog_logger level) (some path) h own = absurd (ground (arith, own.0))
  without-Owns (text_logger stdout f ts level) none h (no_file, syslogs, files) =
      rw (syslogs, files) refl
  without-Owns (text_logger stdout f ts level) (some path) h own = absurd (ground (arith, own.0))
  without-Owns (text_logger stderr f ts level) none h (no_file, syslogs, files) =
      rw (syslogs, files) refl
  without-Owns (text_logger stderr f ts level) (some path) h own = absurd (ground (arith, own.0))
  without-Owns (text_logger (file p) f ts level) none h own = absurd (ground (arith, own.0))
  without-Owns (text_logger (file p) f ts level) (some path) h (its_file, syslogs, files) =
      rw (syslogs, files) refl

  close_logs-Owns : (r : Configured) → Holds r → close_logs v fs r ≡ nothing_open
  unfolding close_logs
  close_logs-Owns r own = without-Owns r.logger r.log_file r.handles own

  abbrev Clean : Finished → Type 0
  Clean f = f.handles ≡ nothing_open

  after_run-Clean : (r : Configured) (e : Option Error) → Holds r → Clean (after_run v fs svc r e)
  after_run-Clean r none own = close_logs-Owns r own
  after_run-Clean r (some e) own = close_logs-Owns r own

  after_control-Clean :
      (r : Configured) (action : GoString)
      → is_action action ≡ true
      → Holds r
      → Clean (after_control v fs svc r (control svc.actions action))
  after_control-Clean r action known own =
      let (c, e, same, performs, code) = is_action-Controls svc.actions action known in
      rw same (close_logs-Owns r own)

  with_service-Clean :
      (opts : Options) (r : Configured) (e : Option Error)
      → HasAction opts
      → Holds r
      → Clean (with_service v fs svc opts r e)
  with_service-Clean opts r (some e) act own = close_logs-Owns r own
  with_service-Clean opts r none act own = elim (Bool-cases (opts.service_action == [])) [
    | inl is_none ↦ rw is_none (after_run-Clean r svc.run own)
    | inr is_some ↦ rw is_some (after_control-Clean r opts.service_action (known act is_some) own)
  ]
    where
      known :
          HasAction opts
          → (opts.service_action == []) ≡ false
          → is_action opts.service_action ≡ true
      known (inr accepted) is_some = accepted
      known (inl nothing) is_some =
          absurd (ground (arith, is_some, (bytes_eq_iff opts.service_action []).1 nothing))

  with_config-Clean :
      (opts : Options) (r : Configured) (e : Option Error)
      → HasAction opts
      → Holds r
      → Clean (with_config v fs svc opts r e)
  with_config-Clean opts r (some e) act own = close_logs-Owns r own
  with_config-Clean opts r none act own = with_service-Clean opts r svc.new_service act own

  with_options-Clean :
      (out : Options × Option Error)
      → HasAction out.0
      → (parse_log_envs v.os).0.output ≢ output_syslog
      → Clean (with_options v fs svc nothing_open out)
  unfolding main_logged
  with_options-Clean (opts, some e) act other = refl
  with_options-Clean (opts, none) act other = elim (Bool-cases (handle_info_opts opts)) [
    | inl info ↦ rw info refl
    | inr runs ↦
        let conf : Result (Option Configuration) = handle_service_config v fs opts.service_action in
        rw runs (
          with_config-Clean opts (logger_for v fs svc opts nothing_open) (error_of conf) act
            (new_config_logger-Owns v.os opts (parse_log_envs v.os).0 (log_of v fs svc conf) other))
  ]

  -- Unless the environment names the system log, every log that the program opens is closed when it
  -- exits, whatever the options, the configuration and the service do.
  pub main-nothing_open :
      (opts : Options) (e : Option Error) (args : List GoString)
      → HasAction opts
      → (parse_log_envs v.os).0.output ≢ output_syslog
      → (main v fs svc opts e args nothing_open).handles ≡ nothing_open
  unfolding main parse_options
  main-nothing_open opts e [] act other = with_options-Clean (opts, join (e ∷ [])) act other
  main-nothing_open opts e (a ∷ args) act other =
      with_options-Clean (parse_options opts e (a ∷ args)) act other

  handle_config-valid :
      (c : Configuration) → handle_config v fs ≡ ok c → validate_configuration v (some c) ≡ none
  unfolding handle_config
  handle_config-valid c made = go (run v.golibs fs.migrator version_latest) made
    where
      valid :
          (r : Result Configuration)
          → (r >>= λ c. validated v fs c (validate_configuration v (some c))) ≡ ok c
          → validate_configuration v (some c) ≡ none
      valid (err e) same = absurd (ground (arith, same))
      valid (ok d) same = elim (Option-cases (validate_configuration v (some d))) [
        | inl fine ↦
            let is : d ≡ c = ground (arith, same, fine) in
            subst (λ c. validate_configuration v (some c) ≡ none) is fine
        | inr (e, bad) ↦ absurd (ground (arith, same, bad))
      ]

      go : (m : Ended) → after_migration v fs m ≡ ok c → validate_configuration v (some c) ≡ none
      go crashed same = absurd (ground (arith, same))
      go (ended calls (some e)) same = absurd (ground (arith, same))
      go (ended calls none) same = valid (parse_config v fs) same

  failure_is_no_success : (r : Configured) → (exit_with v fs svc failure r).exit ≢ exits success
  failure_is_no_success r same = ground (arith, same)

  with_config-success :
      (opts : Options) (r : Configured) (e : Option Error)
      → opts.service_action ≡ []
      → (with_config v fs svc opts r e).exit ≡ exits success
      → (e ≡ none) × (svc.run ≡ none)
  with_config-success opts r (some e) no_action done = absurd (failure_is_no_success r done)
  with_config-success opts r none no_action done = (refl, ran svc.new_service done)
    where
      unnamed : (opts.service_action == []) ≡ true
      unnamed = (bytes_eq_iff opts.service_action []).1 no_action

      last : (e : Option Error) → (after_run v fs svc r e).exit ≡ exits success → e ≡ none
      last none done = refl
      last (some e) done = absurd (failure_is_no_success r done)

      ran :
          (e : Option Error)
          → (with_service v fs svc opts r e).exit ≡ exits success
          → svc.run ≡ none
      ran (some e) done = absurd (failure_is_no_success r done)
      ran none done = last svc.run (rw unnamed at done)

  handle_service_config-ok :
      (action : GoString)
      → action ≡ []
      → error_of (handle_service_config v fs action) ≡ none
      → (c : Configuration) × (handle_config v fs ≡ ok c)
  unfolding handle_service_config
  handle_service_config-ok action no_action fine = go fs.absolute_paths fine
    where
      unnamed : (action == []) ≡ true
      unnamed = (bytes_eq_iff action []).1 no_action

      of_some :
          (r : Result Configuration)
          → error_of (some_config v fs r) ≡ none
          → (c : Configuration) × (r ≡ ok c)
      of_some (ok c) fine = (c, refl)
      of_some (err e) fine = absurd (ground (arith, fine))

      go :
          (paths : Result (GoString × GoString))
          → error_of (paths >>= λ p. config_for v fs action p.0) ≡ none
          → (c : Configuration) × (handle_config v fs ≡ ok c)
      go (err e) fine = absurd (ground (arith, fine))
      go (ok p) fine = of_some (handle_config v fs) (rw unnamed at fine)

  abbrev pub Ran : Type 0
  Ran =
      (c : Configuration) × (handle_config v fs ≡ ok c)
      × (validate_configuration v (some c) ≡ none)
      × (svc.run ≡ none)

  main_logged-success :
      (opts : Options) (h : Handles)
      → opts.service_action ≡ []
      → (main_logged v fs svc opts h).exit ≡ exits success
      → Ran
  unfolding main_logged
  main_logged-success opts h no_action done =
      let (fine, ran) =
        with_config-success opts (logger_for v fs svc opts h)
          (error_of (handle_service_config v fs opts.service_action)) no_action done in
      let (c, made) = handle_service_config-ok opts.service_action no_action fine in
      (c, made, handle_config-valid c made, ran)

  with_options-success :
      (out : Options × Option Error) (h : Handles)
      → out.0.service_action ≡ []
      → handle_info_opts out.0 ≡ false
      → (with_options v fs svc h out).exit ≡ exits success
      → Ran
  with_options-success (opts, some e) h no_action no_info done = absurd (ground (arith, done))
  with_options-success (opts, none) h no_action no_info done =
      main_logged-success opts h no_action (rw no_info at done)

  -- Without an action and a request for information, the program exits with success only when its
  -- configuration is valid and the service has run without an error.
  pub main-success :
      (opts : Options) (e : Option Error) (args : List GoString) (h : Handles)
      → opts.service_action ≡ []
      → handle_info_opts opts ≡ false
      → (main v fs svc opts e args h).exit ≡ exits success
      → Ran
  unfolding main parse_options
  main-success opts e [] h no_action no_info done =
      with_options-success (opts, join (e ∷ [])) h no_action no_info done
  main-success opts e (a ∷ args) h no_action no_info done =
      with_options-success (parse_options opts e (a ∷ args)) h no_action no_info done
