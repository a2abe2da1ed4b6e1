-- ===== src/Client/Storage/Default.antt =====
-- `DefaultStorage` of internal/client/defaultstorage.go itself: its creation, `Get` and `Shutdown`.
use ad_guard_dnscli.Base.{
  ℤ, ℕ, Bool, true, false, Option, none, some, List, [], ◌∷◌, ◌++◌, GoString, string_eq,
}
use ad_guard_dnscli.Base.GoMap.{GoMap}
use ad_guard_dnscli.Base.Sort.{sort}
use ad_guard_dnscli.Errors.{Error, wrapf, text, prefix, ok, err, Errs, join}
use ad_guard_dnscli.Golibs.{Golibs}
use ad_guard_dnscli.Netip.{Addr, Prefix, addr_eq}
use ad_guard_dnscli.Client.Static.{StoredClient, StaticClientConfig, new_static, find_static_client}
use ad_guard_dnscli.Client.Autodevice.{
  Upstreams, ValidHumanId, AutodeviceUpstreamConfig, AutodeviceClient, StoredAutodevice,
  compare_autodevice, close_autodevice,
}
use ad_guard_dnscli.Client.Storage.{
  HumanIdSource, Identified, Pushed, Search, Found, find_autodevice,
}
use ad_guard_dnscli.Client.Storage.Clean.{clean_each, clean_identified}

module _ (u : Upstreams) where
  pub record DefaultStorage : Type 0 where
    pub autodevice : List (StoredAutodevice u)
    pub identified : Identified
    pub static : List (StoredClient u.CustomConfig)

  -- `Client`: a static client, or one of a search.
  pub data Client : Type 0 where
    static_client : u.CustomConfig → Client
    autodevice_client : AutodeviceClient u → Client

  pub stored_devices :
      Bool → ℤ → Prefix → GoMap GoString (AutodeviceUpstreamConfig u) → List (StoredAutodevice u)
  stored_devices enabled size p [] = []
  stored_devices enabled size p ((domain, conf) ∷ confs) =
      record {
        clients = [];
        conf = conf;
        prefix = p;
        domain = domain;
        cache_size = size;
        cache_enabled = enabled;
      }
      ∷ stored_devices enabled size p confs

  pub all_devices :
      Bool
      → ℤ
      → GoMap Prefix (GoMap GoString (AutodeviceUpstreamConfig u))
      → List (StoredAutodevice u)
  unfolding stored_devices
  all_devices enabled size [] = []
  all_devices enabled size ((p, conf) ∷ confs) =
      stored_devices enabled size p conf ++ all_devices enabled size confs

  unfoldable pub new_default_storage :
      GoMap Prefix (StaticClientConfig u.CustomConfig)
      → GoMap Prefix (GoMap GoString (AutodeviceUpstreamConfig u))
      → Bool
      → ℤ
      → DefaultStorage
  unfolding all_devices
  new_default_storage static autodevice cache_enabled cache_size = record {
    autodevice = sort (compare_autodevice u) (all_devices cache_enabled cache_size autodevice);
    identified = [];
    static = new_static static;
  }

  abbrev client_of : Option (Search u) → Option Client
  client_of none = none
  client_of (some s) = elim s.client [ ok auto ↦ some (autodevice_client auto) | err e ↦ none ]

  abbrev get_after :
      DefaultStorage → Option u.CustomConfig → Found u → DefaultStorage × Option Client
  get_after d (some c) f = (d, some (static_client c))
  get_after d none f =
      (record d { autodevice = f.autodevice; identified = f.registered }, client_of f.search)

  -- `Get`: a static client comes before a search, which `queued` starts where it is needed.
  unfoldable pub get :
      Golibs
      → (Addr → Bool)
      → HumanIdSource
      → Pushed ValidHumanId
      → Pushed (AutodeviceClient u)
      → ℕ
      → DefaultStorage
      → Addr
      → GoString
      → DefaultStorage × Option Client
  get g identifiable source id_push push now d address domain =
      get_after d (find_static_client g d.static address domain) (
        find_autodevice u source id_push g identifiable push address domain now d.identified
          d.autodevice)

  unfoldable pub clean_expired : DefaultStorage → ℕ → DefaultStorage
  clean_expired d now = record d {
    autodevice = clean_each u d.autodevice now;
    identified = clean_identified d.identified now d.identified;
  }

  -- `Start` runs the garbage collection in the background exactly where there is something to
  -- collect.
  abbrev pub starts_gc : DefaultStorage → Bool
  starts_gc d = elim d.autodevice [ [] ↦ false | _ ∷ _ ↦ true ]

  pub static_errors : List (StoredClient u.CustomConfig) → Errs
  static_errors [] = []
  static_errors (c ∷ cs) = elim (u.close c.client) [
    | none ↦ static_errors cs
    | some e ↦
        some (wrapf "closing upstreams for %q and %s: %w" (text c.domain ∷ prefix c.prefix ∷ []) e)
        ∷ static_errors cs
  ]

  pub autodevice_errors : List (StoredAutodevice u) → Errs
  autodevice_errors [] = []
  autodevice_errors (c ∷ cs) = elim (close_autodevice u c) [
    | none ↦ autodevice_errors cs
    | some e ↦
        some (
          wrapf "closing autodevice client for %q and %s: %w" (text c.domain ∷ prefix c.prefix ∷ [])
            e)
        ∷ autodevice_errors cs
  ]

  unfoldable pub shutdown : DefaultStorage → Option Error
  unfolding static_errors autodevice_errors
  shutdown d = join (static_errors d.static ++ autodevice_errors d.autodevice)
