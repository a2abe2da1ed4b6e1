-- ===== src/ConfigMigrate/Versions.antt =====
-- The migrations of internal/configmigrate/v2.go, v3.go and v4.go. Each returns the object as its
-- writes leave it, on the error paths too.
use ad_guard_dnscli.Base.{
  ℕ, true, false, Option, none, some, List, [], ◌∷◌, ◌++◌, GoString, str as text_of, pos,
}
use ad_guard_dnscli.Base.Compare.{compare_strings}
use ad_guard_dnscli.Base.Sort.{sort}
use ad_guard_dnscli.Errors.{
  Error, wrapf, sentinel, unexpected_value, text, Result, ok, err, Errs, join,
}
use ad_guard_dnscli.Golibs.{Golibs}
use ad_guard_dnscli.ConfigMigrate.{
  Value, bool, int, duration, version, obj, Fields, end, field, get, put, keys, modify, as_obj,
  field_val, field_chain_val,
}

abbrev pub schema_version_key : GoString
schema_version_key = text_of "schema_version"

abbrev pub dns_key : GoString
dns_key = text_of "dns"

abbrev pub server_key : GoString
server_key = text_of "server"

abbrev pub upstream_key : GoString
upstream_key = text_of "upstream"

abbrev pub groups_key : GoString
groups_key = text_of "groups"

-- An object and the error of the function that wrote to it.
abbrev pub Migrated : Type 0
Migrated = Fields × Option Error

-- One new field in the object at dns.server, as both `migrateTo2` and `migrateTo3` add it.
abbrev pub add_checked : GoString → Value → ℕ → Fields → Option Value → Migrated
add_checked key value target conf (some _) =
    (conf, some (wrapf "%s: %w" (text key ∷ []) (sentinel unexpected_value)))
add_checked key value target conf none = (
  put schema_version_key (version target)
      (modify dns_key (λ dns. modify server_key (put key value) dns) conf),
  none,
)

abbrev pub add_to_server : GoString → Value → ℕ → Fields → Result Fields → Migrated
add_to_server key value target conf (err e) = (conf, some e)
add_to_server key value target conf (ok server) = add_checked key value target conf (get key server)

abbrev pub bind_retry_key : GoString
bind_retry_key = text_of "bind_retry"

abbrev pub bind_retry_default : Value
bind_retry_default = obj (
    field (text_of "enabled") (bool true) (
      field (text_of "interval") (duration 1_000_000_000)
        (field (text_of "count") (int (pos 4)) end)))

abbrev pub pending_requests_key : GoString
pending_requests_key = text_of "pending_requests"

abbrev pub pending_requests_default : Value
pending_requests_default = obj (field (text_of "enabled") (bool true) end)

abbrev pub autodevice_key : GoString
autodevice_key = text_of "autodevice"

abbrev pub disabled_autodevice : Value
disabled_autodevice = obj (field (text_of "enabled") (bool false) end)

module _ (g : Golibs) where
  unfoldable pub migrate_to2 : Fields → Migrated
  migrate_to2 conf =
      add_to_server bind_retry_key bind_retry_default 2 conf
        (field_chain_val g as_obj conf dns_key (server_key ∷ []))

  unfoldable pub migrate_to3 : Fields → Migrated
  migrate_to3 conf =
      add_to_server pending_requests_key pending_requests_default 3 conf
        (field_chain_val g as_obj conf dns_key (server_key ∷ []))

  abbrev group_error : GoString → Option Value → Option Error
  group_error name none = none
  group_error name (some _) =
      some (wrapf "%q: %s: %w" (text name ∷ text autodevice_key ∷ []) (sentinel unexpected_value))

  -- The error of one round of the loop over the groups, if it has one.
  abbrev pub check_group : GoString → Result Fields → Option Error
  check_group name (err e) = some (wrapf "%q: %w" (text name ∷ []) e)
  check_group name (ok group) = group_error name (get autodevice_key group)

  abbrev pub write_group : GoString → Option Error → Fields → Fields
  write_group name none groups = modify name (put autodevice_key disabled_autodevice) groups
  write_group name (some e) groups = groups

  abbrev pub keep_error : Option Error → Errs → Errs
  keep_error none errs = errs
  keep_error (some e) errs = errs ++ some e ∷ []

  -- The loop: the groups as they are written, and the errors.
  unfoldable pub migrate_groups : List GoString → Fields → Errs → Fields × Errs
  migrate_groups [] groups errs = (groups, errs)
  migrate_groups (name ∷ names) groups errs =
      let e = check_group name (field_val g as_obj groups name) in
      migrate_groups names (write_group name e groups) (keep_error e errs)

  abbrev pub with_groups : Fields → Fields → Fields
  with_groups groups conf =
      modify dns_key (λ dns. modify upstream_key (modify groups_key (λ _. groups)) dns) conf

  abbrev pub finish_to4 : Fields → Fields → Option Error → Migrated
  finish_to4 conf groups (some e) =
      (with_groups groups conf, some (wrapf "dns: upstream: groups: %w" [] e))
  finish_to4 conf groups none = (put schema_version_key (version 4) (with_groups groups conf), none)

  abbrev pub migrate_found : Fields → Result Fields → Migrated
  migrate_found conf (err e) = (conf, some e)
  migrate_found conf (ok groups) =
      let (groups', errs) = migrate_groups (sort compare_strings (keys groups)) groups [] in
      finish_to4 conf groups' (join errs)

  unfoldable pub migrate_to4 : Fields → Migrated
  migrate_to4 conf =
      migrate_found conf (field_chain_val g as_obj conf dns_key (upstream_key ∷ groups_key ∷ []))
