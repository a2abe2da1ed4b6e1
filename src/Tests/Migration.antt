-- ===== src/Tests/Migration.antt =====
-- The configuration and its migrations at concrete values.
use ad_guard_dnscli.Base.{
  ◌≡◌, refl, inr, arith, false, Option, none, some, [], ◌∷◌, GoString, str, pos, bytes_eq,
}
use ad_guard_dnscli.Base.Compare.{compare_strings}
use ad_guard_dnscli.Base.Sort.{sort, insert_sorted}
use ad_guard_dnscli.Base.GoMap
use ad_guard_dnscli.Base.GoMap.{lookup, insert}
use ad_guard_dnscli.Errors.{Result, ok, join}
use ad_guard_dnscli.Netip.{empty_prefix, addr_beq, prefix_beq, masked}
use ad_guard_dnscli.ConfigMigrate.{
  int, obj, Fields, field, end, get, keys, field_val, field_chain_val,
}
use ad_guard_dnscli.ConfigMigrate.Versions.{
  migrate_to2, migrate_to4, migrate_groups, bind_retry_key, bind_retry_default,
}
use ad_guard_dnscli.ConfigMigrate.Additions.{IsAddition, migrate_to2-IsAddition}
use ad_guard_dnscli.ConfigMigrate.Groups.{DisablesAutodevice, migrate_to4-DisablesAutodevice}
use ad_guard_dnscli.ConfigMigrate.Migrate.{migrate, version_latest}
use ad_guard_dnscli.ConfigMigrate.Progress.{Reaches, migrate-Reaches}
use ad_guard_dnscli.ConfigMigrate.Run.{Env, run}
use ad_guard_dnscli.ConfigMigrate.Run.Effects.{IsRun, run-IsRun}
use ad_guard_dnscli.Cmd.Upstream.{UpstreamGroupsConfig, AutodeviceConfig, validate_groups_config}
use ad_guard_dnscli.Cmd.Upstream.Unique.{IsUnique, all_keys, validate_groups_config-IsUnique}
use ad_guard_dnscli.Tests.Library.{library}

-- A configuration of the first version, with one group.
abbrev old : Fields
old = field (str "schema_version") (int (pos 1)) (
    field (str "dns")
      (obj (
        field (str "server") (obj end) (
          field (str "upstream")
            (obj (field (str "groups") (obj (field (str "default") (obj end) end)) end)) end)))
      end)

migrate_to2-IsAddition_example :
    IsAddition bind_retry_key bind_retry_default 2 old (migrate_to2 library old)
migrate_to2-IsAddition_example = migrate_to2-IsAddition library old

old_to4 : (migrate_to4 library old).1 ≡ none
unfolding migrate_to4 field_chain_val field_val get keys migrate_groups sort insert_sorted bytes_eq
    join
old_to4 = refl

migrate_to4-DisablesAutodevice_example : DisablesAutodevice library old (migrate_to4 library old).0
migrate_to4-DisablesAutodevice_example = migrate_to4-DisablesAutodevice library old old_to4

old_version : get (str "schema_version") old ≡ some (int (pos 1))
unfolding get bytes_eq
old_version = refl

migrate-Reaches_example : Reaches 4 (migrate library old 1 4)
migrate-Reaches_example =
    migrate-Reaches library old 1 4 (ground arith) (ground arith) (ground arith) (inr old_version)

-- A file system that holds the old configuration, and on which every call succeeds.
abbrev file_system : Env
file_system = record {
  read_file = λ path. ok (str "old");
  unmarshal = λ contents. ok old;
  encode = λ o. ok (str "new");
  close_encoder = none;
  mkdir_error = λ path. none;
  write_error = λ path contents. none;
  now = str "now";
}

run-IsRun_example :
    IsRun library file_system version_latest (run library file_system version_latest)
run-IsRun_example = run-IsRun library file_system

abbrev disabled : Option AutodeviceConfig
disabled = some (record { profile_id = []; device_type = []; enabled = false })

-- The default group, and one for a subnet.
abbrev groups : UpstreamGroupsConfig
groups =
    (str "default", some (record { address = str "a"; autodevice = disabled; matches = [] }))
    ∷ (
      str "work",
      some (record {
        address = str "b";
        autodevice = disabled;
        matches = some (record { client = empty_prefix; question_domain = str "Work" }) ∷ [];
      }),
    )
    ∷ []

abbrev parse : GoString → Result GoString
parse s = ok (str "https")

groups_valid : validate_groups_config library parse (some groups) ≡ none
unfolding validate_groups_config join lookup bytes_eq sort compare_strings prefix_beq addr_beq
    masked
groups_valid = refl

validate_groups_config-IsUnique_example :
    IsUnique (all_keys library parse groups (sort compare_strings (GoMap.keys groups)))
validate_groups_config-IsUnique_example =
    validate_groups_config-IsUnique library parse groups groups_valid
