-- ===== src/Cmd/Config.antt =====
-- The other parts of the configuration in internal/cmd: cache.go, server.go, bootstrap.go,
-- fallback.go, dns.go and debug.go, with their validation and their conversion for
-- internal/dnssvc. A pointer that can be `nil` is an option.
use ad_guard_dnscli.Base.{
  ℕ, Bool, not, Option, none, some, List, [], ◌∷◌, GoString, if◌then◌else◌, ℤ, pos, map,
}
use ad_guard_dnscli.Errors.{Error, wrapf, sentinel, no_value, Result, join}
use ad_guard_dnscli.Golibs.{Golibs}
use ad_guard_dnscli.Netip.{Addr}
use ad_guard_dnscli.Cmd.Upstream.{UpstreamConfig, validate_upstream}

pub record CacheConfig : Type 0 where
  pub enabled : Bool
  pub size : ℕ
  pub client_size : ℕ

pub record BindRetryConfig : Type 0 where
  pub enabled : Bool
  pub interval : ℤ
  pub count : ℕ

pub record PendingRequestsConfig : Type 0 where
  pub enabled : Bool

-- `netip.AddrPort`; the zero value has an invalid address and the port 0.
pub record IpPortConfig : Type 0 where
  pub ip : Addr
  pub port : ℕ

pub record ServerConfig : Type 0 where
  pub bind_retry : Option BindRetryConfig
  pub pending_requests : Option PendingRequestsConfig
  pub listen_addresses : List (Option IpPortConfig)

pub record BootstrapConfig : Type 0 where
  pub servers : List (Option IpPortConfig)
  pub timeout : ℤ

pub record UrlConfig : Type 0 where
  pub address : GoString

pub record FallbackConfig : Type 0 where
  pub servers : List (Option UrlConfig)
  pub timeout : ℤ

pub record DnsConfig : Type 0 where
  pub cache : Option CacheConfig
  pub server : Option ServerConfig
  pub bootstrap : Option BootstrapConfig
  pub upstream : Option UpstreamConfig
  pub fallback : Option FallbackConfig

pub record PprofConfig : Type 0 where
  pub port : ℕ
  pub enabled : Bool

pub record DebugConfig : Type 0 where
  pub pprof : Option PprofConfig

-- `math.MaxInt` of a 64-bit platform.
abbrev pub max_int : ℕ
max_int = 9_223_372_036_854_775_807

module _ (g : Golibs) where
  unfoldable pub validate_cache : Option CacheConfig → Option Error
  validate_cache none = some (sentinel no_value)
  validate_cache (some c) =
      if not c.enabled
      then none
      else join (
          g.in_range "size" (pos c.size) (pos 1) (pos max_int)
          ∷ g.in_range "client_size" (pos c.client_size) (pos 1) (pos max_int)
          ∷ [])

  unfoldable pub validate_bind_retry : Option BindRetryConfig → Option Error
  validate_bind_retry none = some (sentinel no_value)
  validate_bind_retry (some c) = if not c.enabled then none else g.positive "interval" c.interval

  unfoldable pub validate_pending_requests : Option PendingRequestsConfig → Option Error
  validate_pending_requests none = some (sentinel no_value)
  validate_pending_requests (some c) = none

  unfoldable pub validate_url : Option UrlConfig → Option Error
  validate_url none = some (sentinel no_value)
  validate_url (some c) = g.not_empty "address" c.address

  unfoldable pub validate_fallback : Option FallbackConfig → Option Error
  unfolding validate_url
  validate_fallback none = some (sentinel no_value)
  validate_fallback (some c) =
      join (
        g.append_slice (g.positive "timeout" c.timeout ∷ []) "servers" (map validate_url c.servers))

  -- `validate.NotEmpty` on an address with a port is a parameter: the type is net/netip's.
  module _ (not_empty_addr : IpPortConfig → Option Error) where
    unfoldable pub validate_ip_port : Option IpPortConfig → Option Error
    validate_ip_port none = some (sentinel no_value)
    validate_ip_port (some c) = not_empty_addr c

    unfoldable pub validate_server : Option ServerConfig → Option Error
    unfolding validate_bind_retry validate_pending_requests validate_ip_port
    validate_server none = some (sentinel no_value)
    validate_server (some c) = join (
        g.append
          (g.append (g.append_slice [] "listen_addresses" (map validate_ip_port c.listen_addresses))
            "bind_retry" (validate_bind_retry c.bind_retry))
          "pending_requests" (validate_pending_requests c.pending_requests))

    unfoldable pub validate_bootstrap : Option BootstrapConfig → Option Error
    unfolding validate_ip_port
    validate_bootstrap none = some (sentinel no_value)
    validate_bootstrap (some c) = join (
        g.append_slice (g.positive "timeout" c.timeout ∷ []) "servers"
          (map validate_ip_port c.servers))

    unfoldable pub validate_dns : (GoString → Result GoString) → Option DnsConfig → Option Error
    unfolding validate_cache validate_server validate_bootstrap validate_fallback
    validate_dns parse_scheme none = some (sentinel no_value)
    validate_dns parse_scheme (some c) = join (
        g.append
          (g.append
            (g.append
              (g.append (g.append [] "cache" (validate_cache c.cache)) "server"
                (validate_server c.server))
              "bootstrap" (validate_bootstrap c.bootstrap))
            "upstream" (validate_upstream g parse_scheme c.upstream))
          "fallback" (validate_fallback c.fallback))

  unfoldable pub validate_pprof : Option PprofConfig → Option Error
  validate_pprof none = some (sentinel no_value)
  validate_pprof (some c) = none

  abbrev pprof_error : Option Error → Option Error
  pprof_error none = none
  pprof_error (some e) = some (wrapf "pprof: %w" [] e)

  unfoldable pub validate_debug : Option DebugConfig → Option Error
  unfolding validate_pprof
  validate_debug none = some (sentinel no_value)
  validate_debug (some c) = pprof_error (validate_pprof c.pprof)
