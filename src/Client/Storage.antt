-- ===== src/Client/Storage.antt =====
-- `DefaultStorage` of internal/client/defaultstorage.go: static clients, and clients that are
-- created for identified addresses. The two queues are modelled in Client.Queue: here, the result of
-- each `push` is an argument, and what the deferred `done` publishes is returned.
-- A panic of the source or of the library, on which `done` would publish `nil` twice, is left out.
pub mod Clean
pub mod Default
pub mod Searches
pub mod Cleaning
pub mod Exclusive
pub mod Gc
use mathlib.Core.Option
use ad_guard_dnscli.Base.{
  ℕ, Bool, true, false, not, ◌&&◌, Option, none, some, List, [], ◌∷◌, ◌++◌, GoString, string_eq,
  ◌==◌, if◌then◌else◌, ltb,
}
use ad_guard_dnscli.Base.GoMap.{GoMap, lookup, insert, delete}
use ad_guard_dnscli.Base.Sort.{sort}
use ad_guard_dnscli.Errors.{
  Error, wrapf, text, addr, prefix, sentinel, duplicated, Result, ok, err, ◌>>=◌, wrap, error_of,
  Errs, join,
}
use ad_guard_dnscli.Golibs.{Golibs}
use ad_guard_dnscli.Netip.{Addr, Prefix, addr_eq}
use ad_guard_dnscli.Client.Static.{StoredClient, StaticClientConfig, new_static, find_static_client}
use ad_guard_dnscli.Client.Autodevice.{
  Upstreams, ValidHumanId, AutodeviceUpstreamConfig, AutodeviceClient, StoredAutodevice,
  new_autodevice_client, compare_autodevice, matches_autodevice, close_autodevice,
}

-- `HumanIDSource.Identify`, which the environment answers.
abbrev pub HumanIdSource : Type 0
HumanIdSource = Addr → Result ValidHumanId

pub record Identity : Type 0 where
  pub address : Addr
  pub hid : ValidHumanId

-- The map `identified`.
abbrev pub Identified : Type 0
Identified = GoMap GoString Identity

-- What `push` returned: nothing yet, so that the caller leads, or the leader's result.
pub data Pushed (V : Type 0) : Type 0 where
  leads : Pushed V
  answered : V → Pushed V
  refused : Error → Pushed V

-- What the deferred `done` publishes: the value and the error, where the caller leads.
abbrev pub Published : Type 0 → Type 0
Published V = Option (Option V × Option Error)

abbrev pub published_of : {V : Type 0} → Result V → Option V × Option Error
published_of (ok v) = (some v, none)
published_of (err e) = (none, some e)

-- The test for an identifier that another address has.
abbrev pub conflicts : Addr → ℕ → Option Identity → Bool
conflicts address now none = false
conflicts address now (some existing) =
    not (existing.address == address) && ltb now existing.hid.until

abbrev conflict_error : Addr → Option Identity → Error
conflict_error address none = sentinel duplicated
conflict_error address (some existing) =
    wrapf "identifying address %s: %w: conflicts with %s"
      (addr address ∷ addr existing.address ∷ []) (sentinel duplicated)

-- The part of `identify` under the lock.
abbrev pub register : Addr → ℕ → Identified → Result ValidHumanId → Identified × Result ValidHumanId
register address now identified (err e) =
    (identified, err (wrapf "identifying client %q: %w" (addr address ∷ []) e))
register address now identified (ok hid) =
    let existing = lookup hid.id identified in
    if conflicts address now existing
    then (identified, err (conflict_error address existing))
    else (insert hid.id (record { address = address; hid = hid }) identified, ok hid)

-- What `identify` leaves: the map, its result, and what it publishes.
unfoldable pub identify :
    HumanIdSource
    → Pushed ValidHumanId
    → Addr
    → ℕ
    → Identified
    → Identified × Result ValidHumanId × Published ValidHumanId
identify source (refused e) address now identified = (identified, err e, none)
identify source (answered hid) address now identified = (identified, ok hid, none)
identify source leads address now identified =
    let (identified', r) = register address now identified (source address) in
    (identified', r, some (published_of r))

module _ (u : Upstreams) where
  -- The result of one search: the configuration's clients, the map `identified`, the client, and
  -- the upstreams that `setFinalizer` was called with.
  pub record Search : Type 0 where
    pub stored : StoredAutodevice u
    pub identified : Identified
    pub client : Result (AutodeviceClient u)
    pub finalized : List u.CustomConfig
    pub shared : Published (AutodeviceClient u)
    pub shared_id : Published ValidHumanId

  -- What `findAutodevice` leaves: the configurations, the map `identified`, and what the search
  -- itself did, if one was made.
  pub record Found : Type 0 where
    pub autodevice : List (StoredAutodevice u)
    pub registered : Identified
    pub search : Option Search

  -- `findValidAutodeviceClient`, by what is in the map for the address.
  abbrev pub valid_client :
      Addr
      → StoredAutodevice u
      → ℕ
      → Option (AutodeviceClient u)
      → StoredAutodevice u × Option (AutodeviceClient u) × List u.CustomConfig
  valid_client address sac now none = (sac, none, [])
  valid_client address sac now (some auto) =
      if ltb now auto.valid_until
      then (sac, some auto, [])
      else (record sac { clients = delete address sac.clients }, none, auto.upstreams ∷ [])

  unfoldable pub find_valid_autodevice_client :
      Addr
      → StoredAutodevice u
      → ℕ
      → StoredAutodevice u × Option (AutodeviceClient u) × List u.CustomConfig
  find_valid_autodevice_client address sac now =
      valid_client address sac now (lookup address sac.clients)

  abbrev create : Addr → StoredAutodevice u → Result ValidHumanId → Result (AutodeviceClient u)
  create address sac r = do
    hid ← wrap "identifying client within %s: %w" (prefix sac.prefix ∷ []) r
    wrap "creating autodevice for %q and %s: %w" (text sac.domain ∷ addr address ∷ [])
        (new_autodevice_client u hid sac.conf sac.cache_enabled sac.cache_size)

  abbrev pub store : Addr → StoredAutodevice u → Result (AutodeviceClient u) → StoredAutodevice u
  store address sac (err e) = sac
  store address sac (ok auto) = record sac { clients = insert address auto sac.clients }

  module _ (source : HumanIdSource) (id_push : Pushed ValidHumanId) where
    -- `newAutodeviceClient`: the configuration, the map, the client, and what `identify` publishes.
    unfoldable pub create_client :
        Addr
        → StoredAutodevice u
        → ℕ
        → Identified
        → StoredAutodevice u × Identified × Result (AutodeviceClient u) × Published ValidHumanId
    unfolding identify
    create_client address sac now identified =
        let (identified', r, p) = identify source id_push address now identified in
        let client = create address sac r in (store address sac client, identified', client, p)

    abbrev create_after :
        Addr
        → ℕ
        → Identified
        → StoredAutodevice u × Option (AutodeviceClient u) × List u.CustomConfig
        → Search
    create_after address now identified (sac, some auto, old) = record {
      stored = sac;
      identified = identified;
      client = ok auto;
      finalized = old;
      shared = some (some auto, none);
      shared_id = none;
    }
    create_after address now identified (sac, none, old) =
        let (sac', identified', client, p) = create_client address sac now identified in
        record {
          stored = sac';
          identified = identified';
          client = client;
          finalized = old;
          shared = some (published_of client);
          shared_id = p;
        }

    -- `newAutodeviceOrStored`; a client that could not be made is an error here, which the source
    -- logs and returns as `nil`.
    unfoldable pub new_autodevice_or_stored :
        Pushed (AutodeviceClient u) → Addr → StoredAutodevice u → ℕ → Identified → Search
    unfolding find_valid_autodevice_client create_client
    new_autodevice_or_stored (refused e) address sac now identified = record {
      stored = sac;
      identified = identified;
      client = err e;
      finalized = [];
      shared = none;
      shared_id = none;
    }
    new_autodevice_or_stored (answered auto) address sac now identified = record {
      stored = sac;
      identified = identified;
      client = ok auto;
      finalized = [];
      shared = none;
      shared_id = none;
    }
    new_autodevice_or_stored leads address sac now identified =
        create_after address now identified (find_valid_autodevice_client address sac now)

    abbrev after_search : List (StoredAutodevice u) → Search → Found
    after_search rest s = record {
      autodevice = s.stored ∷ rest;
      registered = s.identified;
      search = some s;
    }

    abbrev behind : StoredAutodevice u → Found → Found
    behind sac f = record f { autodevice = sac ∷ f.autodevice }

    -- The loop over the sorted configurations; the first one that matches is searched.
    unfoldable pub search_first :
        Golibs
        → Pushed (AutodeviceClient u)
        → Addr
        → GoString
        → ℕ
        → Identified
        → List (StoredAutodevice u)
        → Found
    unfolding new_autodevice_or_stored
    search_first g push address domain now identified [] = record {
      autodevice = [];
      registered = identified;
      search = none;
    }
    search_first g push address domain now identified (sac ∷ rest) =
        let later = search_first g push address domain now identified rest in
        if not (matches_autodevice u g sac address domain)
        then behind sac later
        else after_search rest (new_autodevice_or_stored push address sac now identified)

    unfoldable pub find_autodevice :
        Golibs
        → (Addr → Bool)
        → Pushed (AutodeviceClient u)
        → Addr
        → GoString
        → ℕ
        → Identified
        → List (StoredAutodevice u)
        → Found
    unfolding search_first
    find_autodevice g identifiable push address domain now identified autodevice =
        if not (identifiable address)
        then record { autodevice = autodevice; registered = identified; search = none }
        else search_first g push address domain now identified autodevice
