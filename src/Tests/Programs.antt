-- ===== src/Tests/Programs.antt =====
-- The whole program at concrete values.
use ad_guard_dnscli.Base.{
  ◌≡◌, ◌≢◌, ◌↔◌, ◌&&◌, refl, inl, Option, none, some, [], ◌∷◌, str, arith, nat_eq, ◌==◌,
  if◌then◌else◌, string_eq, bytes_eq,
}
use ad_guard_dnscli.Errors.{Error, ok, err, errorf, sentinel, not_exist, is_not_exist, join}
use ad_guard_dnscli.Netip.{v4, zero_addr, Prefix, unmap, addr_eq, addr_beq_iff}
use ad_guard_dnscli.ConfigMigrate.Run.{Env, run}
use ad_guard_dnscli.Cmd.Config.{IpPortConfig}
use ad_guard_dnscli.Cmd.Env.{parse_log_envs, output_syslog}
use ad_guard_dnscli.Cmd.Log.Opening.{nothing_open}
use ad_guard_dnscli.Cmd.Default.{
  Validators, Configuration, validate_configuration, new_default_config, configuration_of, dns_of,
  server_of,
}
use ad_guard_dnscli.Cmd.Default.Valid.{IsDocumented, validate_configuration-new_default_config}
use ad_guard_dnscli.Cmd.Service.Control.{success}
use ad_guard_dnscli.Cmd.Program.{Files, created, Runner, handle_config, exits, main}
use ad_guard_dnscli.Cmd.Program.Exits.{main-nothing_open, Ran, main-success}
use ad_guard_dnscli.Tests.Library.{library}
use ad_guard_dnscli.Tests.Logging.{system, no_options}
use ad_guard_dnscli.Tests.Services.{os_service}

abbrev not_zero_addr : IpPortConfig → Option Error
not_zero_addr c = if c.ip == zero_addr && c.port == 0 then some (errorf "empty" []) else none

not_zero_addr_iff :
    (c : IpPortConfig) → (not_zero_addr c ≡ none) ↔ (c ≢ record { ip = zero_addr; port = 0 })
not_zero_addr_iff c = ground (arith, addr_beq_iff c.ip zero_addr)

abbrev validators : Validators
validators = record {
  golibs = library;
  os = system;
  parse_scheme = λ s. ok (str "https");
  not_empty_addr = not_zero_addr;
}

validators-IsDocumented : IsDocumented validators
validators-IsDocumented = record {
  not_empty_addr_iff = not_zero_addr_iff;
  format = system.format_default;
  known = refl;
}

-- One interface, at 192.168.1.1.
abbrev interface : Prefix
interface = record { ip = v4 3_232_235_777; bits_plus_one = 25 }

abbrev default_config : Configuration
default_config =
    configuration_of system (dns_of (server_of (record { ip = v4 3_232_235_777; port = 53 } ∷ [])))

default_config_made :
    new_default_config system (λ s. ok interface) (ok (str "192.168.1.1/24" ∷ []))
    ≡ ok default_config
unfolding new_default_config unmap
default_config_made = refl

validate_configuration-new_default_config_example :
    validate_configuration validators (some default_config) ≡ none
validate_configuration-new_default_config_example =
    validate_configuration-new_default_config validators validators-IsDocumented (λ s. ok interface)
      (ok (str "192.168.1.1/24" ∷ [])) default_config default_config_made

-- The configuration file is missing for the migrator.
abbrev migrator : Env
migrator = record {
  read_file = λ p. err (sentinel not_exist);
  unmarshal = λ s. err (sentinel not_exist);
  encode = λ f. ok [];
  close_encoder = none;
  mkdir_error = λ p. none;
  write_error = λ p s. none;
  now = [];
}

abbrev first_error : Option Error → Option Error → Option Error
first_error none closing = closing
first_error (some e) closing = some e

abbrev files : Files
files = record {
  absolute_paths = ok (str "/opt/dns", str "/opt");
  migrator = migrator;
  open_config = ok [];
  decode = λ s. ok default_config;
  close_config = none;
  validate_exec_path = λ p. none;
  create_config = created;
  parse_prefix = λ s. ok interface;
  interfaces = ok [];
  encode = λ c. none;
  with_deferred = first_error;
}

abbrev runner : Runner
runner = record { new_service = none; actions = os_service; run = none }

silent : (parse_log_envs system).0.output ≡ []
unfolding parse_log_envs bytes_eq
silent = refl

main-nothing_open_example :
    (main validators files runner no_options none [] nothing_open).handles ≡ nothing_open
main-nothing_open_example =
    main-nothing_open validators files runner no_options none [] (inl refl) not_syslog
  where
    not_syslog : (parse_log_envs system).0.output ≢ output_syslog
    not_syslog e = ground (arith, silent, e)

default_valid : validate_configuration validators (some default_config) ≡ none
default_valid =
    validate_configuration-new_default_config validators validators-IsDocumented (λ s. ok interface)
      (ok (str "192.168.1.1/24" ∷ [])) default_config default_config_made

default_handled : handle_config validators files ≡ ok default_config
unfolding handle_config is_not_exist run
default_handled = rw default_valid refl

ran : (main validators files runner no_options none [] nothing_open).exit ≡ exits success
unfolding main bytes_eq join
ran = rw default_handled refl

main-success_example : Ran validators files runner
main-success_example =
    main-success validators files runner no_options none [] nothing_open refl refl ran
