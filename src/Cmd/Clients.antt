-- ===== src/Cmd/Clients.antt =====
-- internal/cmd/clientstorage.go: the storage of clients that is made of the upstreams of the
-- configuration.
pub mod Added
pub mod Configured
use ad_guard_dnscli.Base.{
  ◌≡◌, ◌↔◌, refl, sym, ap, subst, ◌∙◌, inl, inr, Bool, true, false, ◌&&◌, ◌||◌, Bool-cases, Option,
  none, some, Option-cases, List, [], ◌∷◌, GoString, string_eq, bytes_eq_iff, ◌==◌, eq_refl,
  if◌then◌else◌, arith, Eq,
}
use ad_guard_dnscli.Base.Compare.{Ordering, compare_strings}
use ad_guard_dnscli.Base.GoMap.{GoMap, keys, lookup, insert, lookup-insert}
use ad_guard_dnscli.Base.Nested.{inner}
use ad_guard_dnscli.Base.Sort.{insert_sorted, sort}
use ad_guard_dnscli.Netip.{Prefix, prefix_eq, prefix_beq_iff}
use ad_guard_dnscli.Netip.Order.{compare_prefix}
use ad_guard_dnscli.Client.Static.{StaticClientConfig}
use ad_guard_dnscli.Client.Autodevice.{Upstreams, AutodeviceUpstreamConfig}
use ad_guard_dnscli.Client.Storage.{HumanIdSource}
use ad_guard_dnscli.Client.Storage.Default.{DefaultStorage, new_default_storage}
use ad_guard_dnscli.Client.Sources.{empty_source, consequent_source}
use ad_guard_dnscli.Cmd.Config.{CacheConfig}
use ad_guard_dnscli.Cmd.Internal.{int_of_uint64}

module _ (u : Upstreams) where
  abbrev pub StaticUpstreamConfigs : Type 0
  StaticUpstreamConfigs = GoMap Prefix (GoMap GoString (List u.Upstream))

  abbrev pub StaticClients : Type 0
  StaticClients = GoMap Prefix (StaticClientConfig u.CustomConfig)

  abbrev pub custom : CacheConfig → List u.Upstream → u.CustomConfig
  custom c ups = u.new_custom_config ups c.enabled (int_of_uint64 c.client_size)

  unfoldable pub add_static_client :
      Prefix → GoString → List u.Upstream → CacheConfig → StaticClients → StaticClients
  add_static_client pref domain ups c cs =
      insert pref (insert domain (custom c ups) (inner (lookup pref cs))) cs

  abbrev pub add_if_there :
      Prefix → GoString → CacheConfig → StaticClients → Option (List u.Upstream) → StaticClients
  add_if_there pref domain c cs none = cs
  add_if_there pref domain c cs (some ups) = add_static_client pref domain ups c cs

  -- The loop over the domains of a prefix, which all have upstreams.
  unfoldable pub add_domains :
      Prefix
      → GoMap GoString (List u.Upstream)
      → CacheConfig
      → List GoString
      → StaticClients
      → StaticClients
  unfolding add_static_client
  add_domains pref ups c [] cs = cs
  add_domains pref ups c (domain ∷ domains) cs =
      add_domains pref ups c domains (add_if_there pref domain c cs (lookup domain ups))

  -- The loop over the prefixes.
  unfoldable pub add_prefixes :
      StaticUpstreamConfigs → CacheConfig → List Prefix → StaticClients → StaticClients
  unfolding add_domains
  add_prefixes conf c [] cs = cs
  add_prefixes conf c (pref ∷ prefs) cs =
      let ups = inner (lookup pref conf) in
      add_prefixes conf c prefs (add_domains pref ups c (sort compare_strings (keys ups)) cs)

  unfoldable pub new_static_clients : StaticUpstreamConfigs → CacheConfig → StaticClients
  unfolding add_prefixes
  new_static_clients conf c = add_prefixes conf c (sort compare_prefix (keys conf)) []

  -- `newHumanIDSource`: the source of the names in the private upstreams before the default one.
  unfoldable pub new_human_id_source :
      List u.Upstream → HumanIdSource → HumanIdSource → HumanIdSource
  new_human_id_source [] rdns default = default
  new_human_id_source (up ∷ ups) rdns default = consequent_source (rdns ∷ default ∷ [])

  abbrev source_for :
      GoMap Prefix (GoMap GoString (AutodeviceUpstreamConfig u)) → HumanIdSource → HumanIdSource
  source_for [] source = empty_source
  source_for (p ∷ ps) source = source

  -- `newClientStorage`: the source of identifiers and the storage.
  unfoldable pub new_client_storage :
      List u.Upstream
      → StaticUpstreamConfigs
      → GoMap Prefix (GoMap GoString (AutodeviceUpstreamConfig u))
      → CacheConfig
      → HumanIdSource
      → HumanIdSource
      → HumanIdSource × DefaultStorage u
  unfolding new_static_clients new_human_id_source
  new_client_storage private_ups static autodevice c rdns default = (
    source_for autodevice (new_human_id_source private_ups rdns default),
    new_default_storage u (new_static_clients static c) autodevice c.enabled
        (int_of_uint64 c.client_size),
  )
