-- ===== src/Cmd/Internal.antt =====
-- internal/cmd: the conversion of the configuration for internal/dnssvc (`toInternal` of dns.go,
-- cache.go, server.go and fallback.go). The program converts valid configurations only, where no
-- pointer is `nil`.
pub mod Converted
use ad_guard_dnscli.Base.{
  ℕ, ◌-◌, ◌^◌, Bool, Option, none, some, List, [], ◌∷◌, GoString, ℤ, pos, negsuc, ltb, map,
  if◌then◌else◌,
}
use ad_guard_dnscli.Dnssvc.{AddrPort}
use ad_guard_dnscli.Dnssvc.Proxy
use ad_guard_dnscli.Cmd.Config.{
  CacheConfig, BindRetryConfig, PendingRequestsConfig, IpPortConfig, UrlConfig,
}

-- `int` of an unsigned 64-bit number: from 2^63 on, a number n is n - 2^64.
unfoldable pub int_of_uint64 : ℕ → ℤ
int_of_uint64 n = if ltb n (2 ^ 63) then pos n else negsuc (2 ^ 64 - n - 1)

unfoldable pub cache_to_internal : CacheConfig → Proxy.CacheConfig
unfolding int_of_uint64
cache_to_internal c = record { enabled = c.enabled; size = int_of_uint64 c.size }

unfoldable pub bind_retry_to_internal : BindRetryConfig → Proxy.BindRetryConfig
bind_retry_to_internal c = record { enabled = c.enabled; interval = c.interval; count = c.count }

unfoldable pub pending_to_internal : PendingRequestsConfig → Proxy.PendingRequestsConfig
pending_to_internal c = record { enabled = c.enabled }

unfoldable pub fallback_to_internal : List UrlConfig → ℤ → Proxy.FallbackConfig
fallback_to_internal servers timeout = record {
  addresses = map (λ s. s.address) servers;
  timeout = timeout;
}

abbrev pub addr_port : IpPortConfig → AddrPort
addr_port c = record { ip = c.ip; port = c.port }

-- The parts of a valid `dnsConfig` that `toInternal` reads.
pub record ValidDnsConfig : Type 0 where
  pub cache : CacheConfig
  pub listen_addresses : List IpPortConfig
  pub bind_retry : BindRetryConfig
  pub pending_requests : PendingRequestsConfig
  pub fallback_servers : List UrlConfig
  pub fallback_timeout : ℤ

module _ (Upstream Fallbacks : Type 0) where
  abbrev pub unless_empty : List Upstream → Option (List Upstream)
  unless_empty [] = none
  unless_empty (up ∷ ups) = some (up ∷ ups)

  unfoldable pub dns_to_internal :
      ValidDnsConfig → List Upstream → List Upstream → Proxy.Config Upstream Fallbacks
  unfolding cache_to_internal bind_retry_to_internal pending_to_internal fallback_to_internal
  dns_to_internal c general private_ups = record {
    general_upstreams = general;
    private_rdns_upstreams = unless_empty private_ups;
    cache = cache_to_internal c.cache;
    fallbacks = fallback_to_internal c.fallback_servers c.fallback_timeout;
    bind_retry = bind_retry_to_internal c.bind_retry;
    pending_requests = pending_to_internal c.pending_requests;
    listen_addrs = map addr_port c.listen_addresses;
  }
