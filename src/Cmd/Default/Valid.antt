-- ===== src/Cmd/Default/Valid.antt =====
-- internal/cmd/default.go: the default configuration passes the validation.
use ad_guard_dnscli.Base.{
  ◌≡◌, ◌≢◌, ◌↔◌, refl, subst, inl, inr, Bool, Bool-cases, none, some, List, [], ◌∷◌, map, All,
  GoString, bytes_eq, arith,
}
use ad_guard_dnscli.Base.Sort.{sort}
use ad_guard_dnscli.Errors.{IsNil, Result, ok, err, join, join_iff}
use ad_guard_dnscli.Netip.{Addr, zero_addr, Prefix}
use ad_guard_dnscli.Base.GoMap.{lookup}
use ad_guard_dnscli.Cmd.Upstream.{
  group_name_default, validate_autodevice, validate_as_predefined, validate_groups,
  validate_groups_config, validate_upstream,
}
use ad_guard_dnscli.Cmd.Config.{
  IpPortConfig, validate_ip_port, validate_bind_retry, validate_pending_requests, validate_url,
  validate_pprof, validate_server, validate_bootstrap, validate_fallback, validate_cache,
  validate_dns, validate_debug,
}
use ad_guard_dnscli.Cmd.Log.{validate_log}
use ad_guard_dnscli.Cmd.Default.{
  Validators, Configuration, validate_configuration, kept, filter_interface_addrs,
  new_default_config, server_of, dns_of, configuration_of, listed, bootstrap_addrs, plain,
  is_listenable, default_upstream_timeout, default_group,
}

-- `validate.NotEmpty` rejects the zero address with a port only, and `slogutil.NewFormat` knows the
-- default format.
pub record IsDocumented (v : Validators) : Type 0 where
  pub not_empty_addr_iff :
      (c : IpPortConfig) → (v.not_empty_addr c ≡ none) ↔ (c ≢ record { ip = zero_addr; port = 0 })
  pub format : GoString
  pub known : v.os.new_format v.os.format_default ≡ ok format

module _ (v : Validators) (h : IsDocumented v) where
  has_port : (ip : Addr) → v.not_empty_addr (record { ip = ip; port = 53 }) ≡ none
  has_port ip = (h.not_empty_addr_iff _).1 (λ e. absurd (ground (arith, e)))

  -- Addresses on the port of plain DNS.
  abbrev OnPlainPort : IpPortConfig → Type 0
  OnPlainPort c = c.port ≡ 53

  kept-OnPlainPort :
      (set : Addr → Bool) (r : Result Prefix) (rest : List IpPortConfig)
      → All OnPlainPort rest
      → All OnPlainPort (kept set 53 r rest)
  kept-OnPlainPort set (err e) rest hs = hs
  kept-OnPlainPort set (ok pref) rest hs = elim (Bool-cases (set pref.ip)) [
    | inl inside ↦ rw inside (refl, hs)
    | inr outside ↦ rw outside hs
  ]

  filter_interface_addrs-OnPlainPort :
      (parse : GoString → Result Prefix) (set : Addr → Bool) (addrs : List GoString)
      → All OnPlainPort (filter_interface_addrs parse set 53 addrs)
  unfolding filter_interface_addrs
  filter_interface_addrs-OnPlainPort parse set [] = tt
  filter_interface_addrs-OnPlainPort parse set (a ∷ addrs) =
      kept-OnPlainPort set (parse a) _ (filter_interface_addrs-OnPlainPort parse set addrs)

  ip_port-none : (c : IpPortConfig) → OnPlainPort c → v.not_empty_addr c ≡ none
  ip_port-none c port = (h.not_empty_addr_iff c).1 (λ e. absurd (ground (arith, port, e)))

  listed-none :
      (cs : List IpPortConfig)
      → All OnPlainPort cs
      → All IsNil (map (validate_ip_port v.golibs v.not_empty_addr) (listed cs))
  unfolding validate_ip_port
  listed-none [] hs = tt
  listed-none (c ∷ cs) (port, hs) = (ip_port-none c port, listed-none cs hs)

  server-none :
      (cs : List IpPortConfig)
      → All OnPlainPort cs
      → validate_server v.golibs v.not_empty_addr (some (server_of cs)) ≡ none
  unfolding validate_server validate_bind_retry validate_pending_requests
  server-none cs hs = (join_iff _).1 (
      (v.golibs.append_iff _ _ _).1 (
        (v.golibs.append_iff _ _ _).1 (
          (v.golibs.append_slice_iff [] "listen_addresses" _).1 (tt, listed-none cs hs),
          (v.golibs.positive_iff "interval" _).1 (ground arith),
        ),
        refl,
      ))

  bootstrap-none :
      validate_bootstrap v.golibs v.not_empty_addr
        (some (record { servers = map plain bootstrap_addrs; timeout = default_upstream_timeout }))
      ≡ none
  unfolding validate_bootstrap validate_ip_port
  bootstrap-none = (join_iff _).1 (
      (v.golibs.append_slice_iff _ "servers" _).1 (
        ((v.golibs.positive_iff "timeout" _).1 (ground arith), tt),
        (has_port _, (has_port _, (has_port _, (has_port _, tt)))),
      ))

  cache-none : validate_cache v.golibs (dns_of (server_of [])).cache ≡ none
  unfolding validate_cache
  cache-none = (join_iff _).1 (
    (v.golibs.in_range_iff "size" _ _ _).1 (ground arith),
    ((v.golibs.in_range_iff "client_size" _ _ _).1 (ground arith), tt),
  )

  fallback-none : validate_fallback v.golibs (dns_of (server_of [])).fallback ≡ none
  unfolding validate_fallback validate_url
  fallback-none = (join_iff _).1 (
      (v.golibs.append_slice_iff _ "servers" _).1 (
        ((v.golibs.positive_iff "timeout" _).1 (ground arith), tt),
        ((v.golibs.not_empty_iff "address" _).1 (λ e. ground (arith, e)), tt),
      ))

  default_group-none :
      validate_as_predefined v.golibs v.parse_scheme (some default_group) group_name_default ≡ none
  unfolding validate_as_predefined validate_autodevice
  default_group-none = (join_iff _).1 (
    (v.golibs.empty_slice_iff "match" 0).1 refl,
    ((v.golibs.not_empty_iff "address" _).1 (λ e. ground (arith, e)), tt),
  )

  groups-none :
      validate_groups_config v.golibs v.parse_scheme
        (some ((group_name_default, some default_group) ∷ []))
      ≡ none
  unfolding validate_groups_config validate_groups lookup bytes_eq sort
  groups-none = (join_iff _).1 (refl, (rw default_group-none refl, tt))

  upstream-none : validate_upstream v.golibs v.parse_scheme (dns_of (server_of [])).upstream ≡ none
  unfolding validate_upstream
  upstream-none = (join_iff _).1 (
      (v.golibs.append_iff _ "groups" _).1
        (((v.golibs.positive_iff "timeout" _).1 (ground arith), tt), groups-none))

  dns-none :
      (cs : List IpPortConfig)
      → All OnPlainPort cs
      → validate_dns v.golibs v.not_empty_addr v.parse_scheme (some (dns_of (server_of cs))) ≡ none
  unfolding validate_dns
  dns-none cs hs = (join_iff _).1 (
      (v.golibs.append_iff _ "fallback" _).1 (
        (v.golibs.append_iff _ "upstream" _).1 (
          (v.golibs.append_iff _ "bootstrap" _).1 (
            (v.golibs.append_iff _ "server" _).1
                ((v.golibs.append_iff [] "cache" _).1 (tt, cache-none), server-none cs hs),
            bootstrap-none,
          ),
          upstream-none,
        ),
        fallback-none,
      ))

  debug-none : validate_debug v.golibs (configuration_of v.os (dns_of (server_of []))).debug ≡ none
  unfolding validate_debug validate_pprof
  debug-none = refl

  log-none : validate_log v.os (configuration_of v.os (dns_of (server_of []))).log ≡ none
  unfolding validate_log bytes_eq join
  log-none = rw h.known refl

  -- The configuration passes.
  configuration-none :
      (cs : List IpPortConfig)
      → All OnPlainPort cs
      → validate_configuration v (some (configuration_of v.os (dns_of (server_of cs)))) ≡ none
  unfolding validate_configuration
  configuration-none cs hs = (join_iff _).1 (
      (v.golibs.append_iff _ "debug" _).1 (
        (v.golibs.append_iff _ "log" _).1
            ((v.golibs.append_iff [] "dns" _).1 (tt, dns-none cs hs), log-none),
        debug-none,
      ))

  abbrev Passes : Result Configuration → Type 0
  Passes (err e) = Unit
  Passes (ok c) = validate_configuration v (some c) ≡ none

  new_default_config-Passes :
      (parse : GoString → Result Prefix) (interfaces : Result (List GoString))
      → Passes (new_default_config v.os parse interfaces)
  unfolding new_default_config
  new_default_config-Passes parse (err e) = tt
  new_default_config-Passes parse (ok addrs) =
      configuration-none _ (filter_interface_addrs-OnPlainPort parse is_listenable addrs)

  -- The default configuration that is made on installation, whatever the addresses of the machine's
  -- interfaces are, passes the validation that the program does when it starts.
  pub validate_configuration-new_default_config :
      (parse : GoString → Result Prefix) (interfaces : Result (List GoString)) (c : Configuration)
      → new_default_config v.os parse interfaces ≡ ok c
      → validate_configuration v (some c) ≡ none
  validate_configuration-new_default_config parse interfaces c made =
      subst Passes made (new_default_config-Passes parse interfaces)
