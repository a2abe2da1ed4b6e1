-- ===== src/Tests/Building.antt =====
-- The creation of upstreams, and combined sources of identifiers, at concrete values.
use ad_guard_dnscli.Base.{
  to_lower, ℕ, none, false, string_eq, ◌+◌, ◌*◌, ◌^◌, replace_all, bytes_eq, true, some, ◌≡◌, refl,
  List, [], ◌∷◌, GoString, str,
}
use ad_guard_dnscli.Base.GoMap.{GoMap, lookup}
use ad_guard_dnscli.Base.Nested
use ad_guard_dnscli.Errors.{join, Result, ok}
use ad_guard_dnscli.Netip.{
  Prefix, masked, prefix_eq, v6, unmap, is_4, empty_prefix, prefix_beq, addr_beq,
}
use ad_guard_dnscli.Netip.Text.{string_expanded, groups, dotted}
use ad_guard_dnscli.Client.Autodevice.{AutodeviceUpstreamConfig}
use ad_guard_dnscli.Client.Sources.{default_source}
use ad_guard_dnscli.Cmd.Internal.{int_of_uint64}
use ad_guard_dnscli.Cmd.Upstream.{UpstreamMatchConfig, validate_groups_config}
use ad_guard_dnscli.Cmd.Build.{add_devices, ValidGroup, new_upstreams}
use ad_guard_dnscli.Cmd.Build.Configured.{as_config}
use ad_guard_dnscli.Cmd.Build.Ready.{nothing}
use ad_guard_dnscli.Cmd.Build.Valid.{new_upstreams-valid}
use ad_guard_dnscli.Base.Sort.{sort}
use ad_guard_dnscli.Base.Compare.{compare_strings}
use ad_guard_dnscli.Tests.Library.{library}
use ad_guard_dnscli.Cmd.Build.Devices.{AddsAll, AreApart, add_devices-AddsAll}
use ad_guard_dnscli.Cmd.Config.{CacheConfig}
use ad_guard_dnscli.Cmd.Clients.{new_static_clients}
use ad_guard_dnscli.Cmd.Clients.Configured.{new_static_clients-matches}
use ad_guard_dnscli.Client.HumanId.{new_profile_id, check_printable, new_device_type}
use ad_guard_dnscli.Tests.Clients.{numbers}

abbrev parse : GoString → Result GoString
parse s = ok s

abbrev conf : AutodeviceUpstreamConfig numbers
conf = record {
  upstream_template = str "u";
  options = 1;
  device_type = str "ios";
  profile_id = str "ab12cd34";
}

abbrev work : List UpstreamMatchConfig
work = record { client = empty_prefix; question_domain = str "Work" } ∷ []

work_apart : AreApart work
unfolding AreApart
work_apart = (tt, tt)

add_devices-AddsAll_example :
    AddsAll numbers parse conf work [] (add_devices numbers parse conf 0 work [])
unfolding lookup
add_devices-AddsAll_example = add_devices-AddsAll numbers parse conf 0 work [] work_apart (refl, tt)

abbrev caching : CacheConfig
caching = record { enabled = true; size = 100; client_size = 40 }

-- ::ffff:10.0.203.7, and fd00::1a.
default_source_mapped :
    default_source 5 60 (v6 281_470_849_567_495 [])
    ≡ ok (record { id = str "dev-10-0-203-7"; until = 65 })
unfolding default_source string_expanded dotted unmap is_4 replace_all
default_source_mapped = refl

default_source_unique_local :
    default_source 5 60 (v6 (0xfd00 * 2 ^ 112 + 0x1a) [])
    ≡ ok (record { id = str "dev-fd00-0000-0000-0000-0000-0000-0000-001a"; until = 65 })
unfolding default_source string_expanded groups unmap is_4 replace_all
default_source_unique_local = refl

abbrev working : ValidGroup
working = record {
  address = str "https://work";
  autodevice = record { profile_id = []; device_type = []; enabled = false };
  matches = work;
}

abbrev house : GoMap GoString ValidGroup
house =
    (
      str "default",
      record {
        address = str "https://dns";
        autodevice = record {
          profile_id = str "ab12cd34";
          device_type = str "ios";
          enabled = true;
        };
        matches = [];
      },
    )
    ∷ (str "work", working)
    ∷ []

abbrev scheme : GoString → Result GoString
scheme s = ok (str "https")

house_valid : validate_groups_config library scheme (some (as_config house)) ≡ none
unfolding validate_groups_config join lookup bytes_eq sort compare_strings prefix_beq addr_beq
    masked new_profile_id check_printable new_device_type
house_valid = refl

new_upstreams-valid_example :
    (new_upstreams numbers parse library (λ name. 1) house (nothing numbers parse)).1 ≡ none
new_upstreams-valid_example =
    new_upstreams-valid numbers parse library scheme (λ name. 1) house house_valid
      (λ name c e. record { url = c.address; parsed = refl; upstream = 1; addressed = refl })

abbrev served : GoMap Prefix (GoMap GoString (List ℕ))
served = (new_upstreams numbers parse library (λ name. 1) house (nothing numbers parse)).0.static

work_found : lookup (str "work") house ≡ some working
unfolding lookup bytes_eq
work_found = refl

new_static_clients-matches_example :
    (Nested.at empty_prefix (str "work") (new_static_clients numbers served caching) ≡ some 40)
    × Unit {0}
unfolding to_lower bytes_eq int_of_uint64
new_static_clients-matches_example =
    new_static_clients-matches numbers parse library scheme (λ name. 1) house caching (str "work")
      working 1 house_valid
      (λ name c e. record { url = c.address; parsed = refl; upstream = 1; addressed = refl })
      work_found refl refl refl
