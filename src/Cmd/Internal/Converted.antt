-- ===== src/Cmd/Internal/Converted.antt =====
-- internal/cmd and internal/dnssvc: what the proxy is configured with.
use ad_guard_dnscli.Base.{
  ℕ, ◌≤◌, ◌≡◌, ◌≢◌, ◌↔◌, refl, subst, ap, inl, inr, true, none, some, List, [], ◌∷◌, map, GoString,
  ℤ, pos, arith,
}
use ad_guard_dnscli.Errors.{Result, ok, err, Result-cases, join_iff}
use ad_guard_dnscli.Golibs.{Golibs}
use ad_guard_dnscli.Dnssvc.{AddrPort}
use ad_guard_dnscli.Dnssvc.Proxy
use ad_guard_dnscli.Dnssvc.Proxy.{
  udp_addr, tcp_addr, new_listen_addrs, trusted, not_nil, new_proxy_config,
}
use ad_guard_dnscli.Cmd.Config.{CacheConfig, validate_cache, max_int}
use ad_guard_dnscli.Cmd.Internal.{
  int_of_uint64, ValidDnsConfig, addr_port, unless_empty, dns_to_internal,
}

int_of_uint64_lem : (n : ℕ) → n ≤ max_int → int_of_uint64 n ≡ pos n
unfolding int_of_uint64
int_of_uint64_lem n bound = ground (arith, bound)

-- In a valid configuration whose cache is enabled, the sizes of the caches are kept by the conversion
-- to Go's `int`, and they are positive.
pub validate_cache-int_of_uint64 :
    (g : Golibs) (c : CacheConfig)
    → validate_cache g (some c) ≡ none
    → c.enabled ≡ true
    → ((int_of_uint64 c.size ≡ pos c.size) × (1 ≤ c.size))
      × ((int_of_uint64 c.client_size ≡ pos c.client_size) × (1 ≤ c.client_size))
unfolding validate_cache
validate_cache-int_of_uint64 g c valid enabled =
    let (size, (client_size, _)) = (join_iff _).0 (rw enabled at valid) in
    let (least, most) = (g.in_range_iff "size" (pos c.size) (pos 1) (pos max_int)).0 size in
    let (client_least, client_most) =
      (g.in_range_iff "client_size" (pos c.client_size) (pos 1) (pos max_int)).0 client_size in
    (
      (int_of_uint64_lem c.size (ground (arith, most)), ground (arith, least)),
      (int_of_uint64_lem c.client_size (ground (arith, client_most)), ground (arith, client_least)),
    )

new_listen_addrs_lem :
    (addrs : List AddrPort)
    → ((new_listen_addrs addrs).0 ≡ map udp_addr addrs)
      × ((new_listen_addrs addrs).1 ≡ map tcp_addr addrs)
unfolding new_listen_addrs
new_listen_addrs_lem [] = (refl, refl)
new_listen_addrs_lem (a ∷ addrs) =
    let (udp, tcp) = new_listen_addrs_lem addrs in
    (ap (λ l. udp_addr a ∷ l) udp, ap (λ l. tcp_addr a ∷ l) tcp)

module _ (Upstream Fallbacks : Type 0) (parse : List GoString → ℤ → Result Fallbacks) where
  -- What the proxy is given for a configuration and its upstreams.
  pub record IsProxyFor (c : ValidDnsConfig) (general private_ups : List Upstream)
      (p : Proxy.ProxyConfig Upstream Fallbacks) : Type 0 where
    pub udp : p.udp_listen_addr ≡ map udp_addr (map addr_port c.listen_addresses)
    pub tcp : p.tcp_listen_addr ≡ map tcp_addr (map addr_port c.listen_addresses)
    pub upstreams : p.upstream_config ≡ general
    pub private_rdns : (p.use_private_rdns ≡ true) ↔ (private_ups ≢ [])
    pub private_upstreams :
        p.use_private_rdns ≡ true → p.private_rdns_upstream_config ≡ some private_ups
    pub cached : p.cache_enabled ≡ c.cache.enabled
    pub cache_size : c.cache.enabled ≡ true → p.cache_size_bytes ≡ pos c.cache.size
    pub parsed : parse (map (λ s. s.address) c.fallback_servers) c.fallback_timeout ≡ ok p.fallbacks

  unless_empty-not_nil_iff :
      (ups : List Upstream)
      → (not_nil Upstream Fallbacks (unless_empty Upstream Fallbacks ups) ≡ true) ↔ (ups ≢ [])
  unless_empty-not_nil_iff [] = ((λ h. absurd (ground (arith, h))), λ h. absurd (h refl))
  unless_empty-not_nil_iff (up ∷ ups) = ((λ _. λ e. ground (arith, e)), λ _. refl)

  unless_empty-some :
      (ups : List Upstream)
      → not_nil Upstream Fallbacks (unless_empty Upstream Fallbacks ups) ≡ true
      → unless_empty Upstream Fallbacks ups ≡ some ups
  unless_empty-some [] h = absurd (ground (arith, h))
  unless_empty-some (up ∷ ups) h = refl

  abbrev Meets :
      ValidDnsConfig
      → List Upstream
      → List Upstream
      → Result (Proxy.ProxyConfig Upstream Fallbacks)
      → Type 0
  Meets c general private_ups (err e) = Unit
  Meets c general private_ups (ok p) = IsProxyFor c general private_ups p

  new_proxy_config-Meets :
      (g : Golibs) (c : ValidDnsConfig) (general private_ups : List Upstream)
      → validate_cache g (some c.cache) ≡ none
      → Meets c general private_ups (
          new_proxy_config Upstream Fallbacks parse
            (dns_to_internal Upstream Fallbacks c general private_ups))
  unfolding new_proxy_config dns_to_internal
  new_proxy_config-Meets g c general private_ups valid =
      elim (Result-cases (parse (map (λ s. s.address) c.fallback_servers) c.fallback_timeout)) [
        | inr (e, bad) ↦ rw bad tt
        | inl (falls, parsed) ↦ rw parsed (record {
          udp = (new_listen_addrs_lem (map addr_port c.listen_addresses)).0;
          tcp = (new_listen_addrs_lem (map addr_port c.listen_addresses)).1;
          upstreams = refl;
          private_rdns = unless_empty-not_nil_iff private_ups;
          private_upstreams = unless_empty-some private_ups;
          cached = refl;
          cache_size = λ on. (validate_cache-int_of_uint64 g c.cache valid on).0.0;
          parsed = parsed;
        })
      ]

  -- The proxy for a valid configuration listens on all its addresses, with UDP and TCP, gets its
  -- upstreams and fallbacks and the size of its cache, and looks private addresses up exactly when there are
  -- private upstreams.
  pub new_proxy_config-dns_to_internal :
      (g : Golibs) (c : ValidDnsConfig) (general private_ups : List Upstream)
      (p : Proxy.ProxyConfig Upstream Fallbacks)
      → validate_cache g (some c.cache) ≡ none
      → new_proxy_config Upstream Fallbacks parse
          (dns_to_internal Upstream Fallbacks c general private_ups)
        ≡ ok p
      → IsProxyFor c general private_ups p
  new_proxy_config-dns_to_internal g c general private_ups p valid made =
      subst (Meets c general private_ups) made
        (new_proxy_config-Meets g c general private_ups valid)
