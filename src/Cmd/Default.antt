-- ===== src/Cmd/Default.antt =====
-- internal/cmd/default.go and config.go: the whole configuration, its validation, and the default
-- one. The addresses of the interfaces, `netip.ParsePrefix`, the addresses of the literals and the
-- file are parameters; the messages on standard error are left out.
pub mod Valid
use ad_guard_dnscli.Base.{
  ℕ, suc, ◌+◌, ◌*◌, ◌/◌, ◌^◌, Bool, true, false, ◌&&◌, ◌||◌, Option, none, some, List, [], ◌∷◌,
  GoString, String, str, nat_eq, ◌==◌, leb, ltb, ℤ, pos, if◌then◌else◌, map,
}
use ad_guard_dnscli.Errors.{
  Error, Arg, wrapf, sentinel, no_value, Result, ok, err, ◌>>=◌, wrap, join,
}
use ad_guard_dnscli.Golibs.{Golibs}
use ad_guard_dnscli.Netip.{Addr, zero_addr, v4, v6, unmap, Prefix}
use ad_guard_dnscli.Cmd.Upstream.{
  AutodeviceConfig, UpstreamGroupConfig, UpstreamConfig, group_name_default,
}
use ad_guard_dnscli.Cmd.Config.{
  CacheConfig, BindRetryConfig, PendingRequestsConfig, IpPortConfig, ServerConfig, BootstrapConfig,
  UrlConfig, FallbackConfig, DnsConfig, PprofConfig, DebugConfig, validate_dns, validate_debug,
}
use ad_guard_dnscli.Cmd.Env.{Os, output_syslog}
use ad_guard_dnscli.Cmd.Log.{LogConfig, validate_log}
use ad_guard_dnscli.Client.Rdns.{second}

-- `configmigrate.VersionLatest`.
abbrev pub version_latest : ℕ
version_latest = 4

pub record Configuration : Type 0 where
  pub dns : Option DnsConfig
  pub debug : Option DebugConfig
  pub log : Option LogConfig
  pub schema_version : ℕ

-- What the validation calls: golibs, the environment, `url.Parse` and the test for zero addresses.
pub record Validators : Type 0 where
  pub golibs : Golibs
  pub os : Os
  pub parse_scheme : GoString → Result GoString
  pub not_empty_addr : IpPortConfig → Option Error

unfoldable pub validate_configuration : Validators → Option Configuration → Option Error
validate_configuration v none = some (sentinel no_value)
validate_configuration v (some c) = join (
    v.golibs.append
      (v.golibs.append
        (v.golibs.append [] "dns" (validate_dns v.golibs v.not_empty_addr v.parse_scheme c.dns))
        "log" (validate_log v.os c.log))
      "debug" (validate_debug v.golibs c.debug))

abbrev pub default_upstream_address : GoString
default_upstream_address = str "https://unfiltered.adguard-dns.com/dns-query"

abbrev pub default_fallback_address : GoString
default_fallback_address = str "tls://94.140.14.140"

abbrev pub default_plain_dns_port : ℕ
default_plain_dns_port = 53

abbrev pub default_upstream_timeout : ℤ
default_upstream_timeout = pos (2 * second)

abbrev pub default_bind_retry_ivl : ℤ
default_bind_retry_ivl = pos second

abbrev pub default_bind_retry_count : ℕ
default_bind_retry_count = 4

-- 128 MB and 4 MB.
abbrev pub default_cache_size : ℕ
default_cache_size = 134_217_728

abbrev pub default_cache_client_size : ℕ
default_cache_client_size = 4_194_304

abbrev pub default_pprof_port : ℕ
default_pprof_port = 6060

-- `Addr.IsPrivate`: 10.0.0.0/8, 172.16.0.0/12, 192.168.0.0/16 and fc00::/7.
unfoldable pub is_private : Addr → Bool
is_private a = elim (unmap a) [
  | zero_addr ↦ false
  | v4 n ↦ n / 2 ^ 24 == 10 || n / 2 ^ 20 == 2753 || n / 2 ^ 16 == 49320
  | v6 n z ↦ n / 2 ^ 121 == 126
]

-- `Addr.IsLoopback`: 127.0.0.0/8 and ::1.
unfoldable pub is_loopback : Addr → Bool
is_loopback a = elim (unmap a) [ zero_addr ↦ false | v4 n ↦ n / 2 ^ 24 == 127 | v6 n z ↦ n == 1 ]

unfoldable pub is_listenable : Addr → Bool
unfolding is_private is_loopback
is_listenable a = is_private a || is_loopback a

abbrev pub kept : (Addr → Bool) → ℕ → Result Prefix → List IpPortConfig → List IpPortConfig
kept set p (err e) rest = rest
kept set p (ok pref) rest = if set pref.ip then record { ip = pref.ip; port = p } ∷ rest else rest

-- The interfaces' addresses as texts, and the prefix that a text gives.
unfoldable pub filter_interface_addrs :
    (GoString → Result Prefix) → (Addr → Bool) → ℕ → List GoString → List IpPortConfig
filter_interface_addrs parse set p [] = []
filter_interface_addrs parse set p (a ∷ addrs) =
    kept set p (parse a) (filter_interface_addrs parse set p addrs)

unfoldable pub all_listenable_addresses :
    (GoString → Result Prefix) → Result (List GoString) → Result (List IpPortConfig)
unfolding filter_interface_addrs is_listenable
all_listenable_addresses parse interfaces = do
  addrs ← wrap "getting interfaces addresses: %w" [] interfaces
  ok (filter_interface_addrs parse is_listenable default_plain_dns_port addrs)

abbrev pub listed : {A : Type 0} → List A → List (Option A)
listed [] = []
listed (x ∷ xs) = some x ∷ listed xs

abbrev pub server_of : List IpPortConfig → ServerConfig
server_of local_addrs = record {
  bind_retry = some (record {
    enabled = true;
    interval = default_bind_retry_ivl;
    count = default_bind_retry_count;
  });
  pending_requests = some (record { enabled = true });
  listen_addresses = listed local_addrs;
}

unfoldable pub new_default_server_config :
    (GoString → Result Prefix) → Result (List GoString) → Result ServerConfig
unfolding all_listenable_addresses
new_default_server_config parse interfaces =
    wrap "creating default server configuration: %w" []
      (do local_addrs ← all_listenable_addresses parse interfaces; ok (server_of local_addrs))

-- 9.9.9.10, 149.112.112.10, 2620:fe::10 and 2620:fe::fe:10.
abbrev pub bootstrap_addrs : List Addr
bootstrap_addrs =
    v4 151_587_082
    ∷ v4 2_507_173_898
    ∷ v6 (0x2620_00fe * 2 ^ 96 + 0x10) []
    ∷ v6 (0x2620_00fe * 2 ^ 96 + 0xfe_0010) []
    ∷ []

abbrev pub plain : Addr → Option IpPortConfig
plain a = some (record { ip = a; port = default_plain_dns_port })

abbrev pub default_group : UpstreamGroupConfig
default_group = record {
  address = default_upstream_address;
  autodevice = some (record { profile_id = []; device_type = []; enabled = false });
  matches = [];
}

abbrev pub dns_of : ServerConfig → DnsConfig
dns_of server = record {
  cache = some (record {
    enabled = true;
    size = default_cache_size;
    client_size = default_cache_client_size;
  });
  server = some server;
  bootstrap =
      some (record { servers = map plain bootstrap_addrs; timeout = default_upstream_timeout });
  upstream = some (record {
    groups = some ((group_name_default, some default_group) ∷ []);
    timeout = default_upstream_timeout;
  });
  fallback = some (record {
    servers = some (record { address = default_fallback_address }) ∷ [];
    timeout = default_upstream_timeout;
  });
}

unfoldable pub new_default_dns_config :
    (GoString → Result Prefix) → Result (List GoString) → Result DnsConfig
unfolding new_default_server_config
new_default_dns_config parse interfaces =
    wrap "creating default dns configuration: %w" []
      (do server ← new_default_server_config parse interfaces; ok (dns_of server))

abbrev pub configuration_of : Os → DnsConfig → Configuration
configuration_of os dns = record {
  dns = some dns;
  debug = some (record { pprof = some (record { port = default_pprof_port; enabled = false }) });
  log = some (record {
    output = output_syslog;
    format = os.format_default;
    timestamp = false;
    verbose = false;
  });
  schema_version = version_latest;
}

unfoldable pub new_default_config :
    Os → (GoString → Result Prefix) → Result (List GoString) → Result Configuration
unfolding new_default_dns_config
new_default_config os parse interfaces =
    wrap "creating default configuration: %w" []
      (do dns ← new_default_dns_config parse interfaces; ok (configuration_of os dns))
