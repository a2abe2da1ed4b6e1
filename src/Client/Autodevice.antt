-- ===== src/Client/Autodevice.antt =====
-- internal/client/autodevice.go: clients that are created on demand, and how they are stored. The
-- URLs and upstreams of net/url and dnsproxy are a parameter.
pub mod ExtId
use mathlib.Core.Option
use ad_guard_dnscli.Base.{
  ℤ, ℕ, Bool, true, false, not, ◌&&◌, ◌||◌, Option, none, some, List, [], ◌∷◌, ◌++◌, GoString, str,
  string_eq, ◌==◌, if◌then◌else◌, to_lower,
}
use ad_guard_dnscli.Base.GoMap.{GoMap}
use ad_guard_dnscli.Base.Compare.{Ordering, or_else}
use ad_guard_dnscli.Errors.{
  Error, wrapf, text, addr, sentinel, bad_enum_value, Result, ok, err, ◌>>=◌, wrap, Errs, join,
}
use ad_guard_dnscli.Golibs.{Golibs}
use ad_guard_dnscli.Netip.{Addr, Prefix, empty_prefix, prefix_eq}
use ad_guard_dnscli.Netip.Order.{compare_prefix}
use ad_guard_dnscli.Client.Domains.{compare_domains, matches_domain}
use ad_guard_dnscli.Client.Static.{matches_prefix}

-- What the code uses of `url.URL`, of `upstream.Options`, of the `UpstreamConstructor` interface
-- and of `proxy.CustomUpstreamConfig`; `with_host` is `netutil.CloneURL` and a write of the host.
pub record Upstreams : Type 1 where
  pub Url : Type 0
  pub scheme : Url → GoString
  pub host : Url → GoString
  pub join_path : Url → GoString → Url
  pub with_host : Url → GoString → Url
  pub to_string : Url → GoString
  pub Options : Type 0
  pub Upstream : Type 0
  pub address_to_upstream : GoString → Options → Result Upstream
  pub CustomConfig : Type 0
  pub new_custom_config : List Upstream → Bool → ℤ → CustomConfig
  pub close : CustomConfig → Option Error

-- `ValidHumanID`: an identifier and the time until which it is valid.
pub record ValidHumanId : Type 0 where
  pub until : ℕ
  pub id : GoString

abbrev pub scheme_https : GoString
scheme_https = str "https"

abbrev pub scheme_quic : GoString
scheme_quic = str "quic"

abbrev pub scheme_tls : GoString
scheme_tls = str "tls"

-- The `extID` of `upstreamURL`: the device type, the profile and the identifier.
unfoldable pub ext_id : GoString → GoString → GoString → GoString
ext_id device_type profile_id id = device_type ++ (str "-" ++ (profile_id ++ (str "-" ++ id)))

module _ (u : Upstreams) where
  pub record AutodeviceUpstreamConfig : Type 0 where
    pub upstream_template : u.Url
    pub options : u.Options
    pub device_type : GoString
    pub profile_id : GoString

  unfoldable pub upstream_url : AutodeviceUpstreamConfig → GoString → Result u.Url
  unfolding ext_id
  upstream_url c id =
      let ext = ext_id c.device_type c.profile_id id in
      let scheme = to_lower (u.scheme c.upstream_template) in
      if scheme == scheme_https
      then ok (u.join_path c.upstream_template ext)
      else if scheme == scheme_quic || scheme == scheme_tls
      then ok (u.with_host c.upstream_template (ext ++ str "." ++ u.host c.upstream_template))
      else err (
          wrapf "upstream template: %w: %q" (text (u.scheme c.upstream_template) ∷ [])
            (sentinel bad_enum_value))

  unfoldable pub to_upstream_config : AutodeviceUpstreamConfig → GoString → Result (List u.Upstream)
  to_upstream_config c hid = wrap "client with human id %q: %w" (text hid ∷ []) (do
    url ← upstream_url c hid
    up ← u.address_to_upstream (u.to_string url) c.options
    ok (up ∷ []))

  pub record AutodeviceClient : Type 0 where
    pub upstreams : u.CustomConfig
    pub valid_until : ℕ

  unfoldable pub new_autodevice_client :
      ValidHumanId → AutodeviceUpstreamConfig → Bool → ℤ → Result AutodeviceClient
  new_autodevice_client hid c cache_enabled cache_size = do
    conf ←
        wrap "creating upstream configuration for autodevice client: %w" []
          (to_upstream_config c hid.id)
    ok (record {
      upstreams = u.new_custom_config conf cache_enabled cache_size;
      valid_until = hid.until;
    })

  pub record StoredAutodevice : Type 0 where
    pub clients : GoMap Addr AutodeviceClient
    pub conf : AutodeviceUpstreamConfig
    pub prefix : Prefix
    pub domain : GoString
    pub cache_size : ℤ
    pub cache_enabled : Bool

  unfoldable pub compare_autodevice : StoredAutodevice → StoredAutodevice → Ordering
  compare_autodevice c other =
      if c.prefix == empty_prefix
      then (if other.prefix == empty_prefix
          then compare_domains c.domain other.domain
          else Ordering.gt)
      else if other.prefix == empty_prefix
      then Ordering.lt
      else or_else (compare_prefix c.prefix other.prefix) (compare_domains c.domain other.domain)

  unfoldable pub matches_autodevice : Golibs → StoredAutodevice → Addr → GoString → Bool
  matches_autodevice g c address domain =
      if not (matches_prefix c.prefix address)
      then false
      else if not (matches_domain g domain c.domain)
      then false
      else true

  -- The errors of `Close`, in the order of the map's iteration.
  pub close_errors : GoMap Addr AutodeviceClient → Errs
  close_errors [] = []
  close_errors ((address, cli) ∷ clients) = elim (u.close cli.upstreams) [
    | none ↦ close_errors clients
    | some e ↦
        some (wrapf "closing upstreams for %s: %w" (addr address ∷ []) e) ∷ close_errors clients
  ]

  unfoldable pub close_autodevice : StoredAutodevice → Option Error
  unfolding close_errors
  close_autodevice c = join (close_errors c.clients)
