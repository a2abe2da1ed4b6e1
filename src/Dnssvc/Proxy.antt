-- ===== src/Dnssvc/Proxy.antt =====
-- internal/dnssvc: the configuration of the proxy. The parser of dnsproxy for the fallback servers
-- and its constructor are parameters.
use ad_guard_dnscli.Base.{ℕ, Bool, true, false, Option, none, some, List, [], ◌∷◌, GoString, ℤ}
use ad_guard_dnscli.Errors.{Result, ok, ◌>>=◌, wrap}
use ad_guard_dnscli.Netip.{Prefix, v4, v6}
use ad_guard_dnscli.Dnssvc.{AddrPort}

pub record CacheConfig : Type 0 where
  pub enabled : Bool
  pub size : ℤ

pub record FallbackConfig : Type 0 where
  pub addresses : List GoString
  pub timeout : ℤ

pub record BindRetryConfig : Type 0 where
  pub enabled : Bool
  pub interval : ℤ
  pub count : ℕ

pub record PendingRequestsConfig : Type 0 where
  pub enabled : Bool

pub data UdpAddr : Type 0 where
  udp_addr : AddrPort → UdpAddr

pub data TcpAddr : Type 0 where
  tcp_addr : AddrPort → TcpAddr

unfoldable pub new_listen_addrs : List AddrPort → List UdpAddr × List TcpAddr
new_listen_addrs [] = ([], [])
new_listen_addrs (a ∷ addrs) =
    let (udp, tcp) = new_listen_addrs addrs in (udp_addr a ∷ udp, tcp_addr a ∷ tcp)

-- 0.0.0.0/0 and ::/0.
abbrev pub trusted : List Prefix
trusted = record { ip = v4 0; bits_plus_one = 1 } ∷ record { ip = v6 0 []; bits_plus_one = 1 } ∷ []

-- An upstream, and a list of fallback upstreams that has been parsed. The configuration's loggers,
-- subnets, storage, client getter and resolver are left out: `Peers` has what is used of them. The
-- mode of the upstreams, which is always the same, is left out too.
module _ (Upstream Fallbacks : Type 0) where
  pub record Config : Type 0 where
    pub general_upstreams : List Upstream
    pub private_rdns_upstreams : Option (List Upstream)
    pub cache : CacheConfig
    pub fallbacks : FallbackConfig
    pub bind_retry : BindRetryConfig
    pub pending_requests : PendingRequestsConfig
    pub listen_addrs : List AddrPort

  pub record ProxyConfig : Type 0 where
    pub udp_listen_addr : List UdpAddr
    pub tcp_listen_addr : List TcpAddr
    pub upstream_config : List Upstream
    pub private_rdns_upstream_config : Option (List Upstream)
    pub use_private_rdns : Bool
    pub fallbacks : Fallbacks
    pub trusted_proxies : List Prefix
    pub cache_size_bytes : ℤ
    pub cache_enabled : Bool
    pub bind_retry_config : BindRetryConfig
    pub pending_requests : PendingRequestsConfig

  abbrev pub not_nil : Option (List Upstream) → Bool
  not_nil none = false
  not_nil (some ups) = true

  module _ (parse : List GoString → ℤ → Result Fallbacks) where
    unfoldable pub new_fallbacks : FallbackConfig → Result Fallbacks
    new_fallbacks c = wrap "creating fallbacks: %w" [] (parse c.addresses c.timeout)

    abbrev proxy_config : Config → Fallbacks → ProxyConfig
    proxy_config c falls =
        let (udp, tcp) = new_listen_addrs c.listen_addrs in
        record {
          udp_listen_addr = udp;
          tcp_listen_addr = tcp;
          upstream_config = c.general_upstreams;
          private_rdns_upstream_config = c.private_rdns_upstreams;
          use_private_rdns = not_nil c.private_rdns_upstreams;
          fallbacks = falls;
          trusted_proxies = trusted;
          cache_size_bytes = c.cache.size;
          cache_enabled = c.cache.enabled;
          bind_retry_config = c.bind_retry;
          pending_requests = c.pending_requests;
        }

    unfoldable pub new_proxy_config : Config → Result ProxyConfig
    unfolding new_fallbacks new_listen_addrs
    new_proxy_config c =
        wrap "creating proxy configuration: %w" []
          (do falls ← new_fallbacks c.fallbacks; ok (proxy_config c falls))

    -- `New`; `proxy.New` is a parameter.
    unfoldable pub new_service : {P : Type 0} → (ProxyConfig → Result P) → Config → Result P
    unfolding new_proxy_config
    new_service new_proxy c = do
      conf ← new_proxy_config c
      wrap "creating proxy: %w" [] (new_proxy conf)
