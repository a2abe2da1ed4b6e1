-- ===== src/Client/Storage/Clean.antt =====
-- `cleanExpired` of internal/client/defaultstorage.go: the removal of what has expired.
use ad_guard_dnscli.Base.{ℕ, List, [], ◌∷◌, string_eq, if◌then◌else◌, ltb}
use ad_guard_dnscli.Base.GoMap.{GoMap, delete}
use ad_guard_dnscli.Netip.{Addr, addr_eq}
use ad_guard_dnscli.Client.Autodevice.{Upstreams, AutodeviceClient, StoredAutodevice}
use ad_guard_dnscli.Client.Storage.{Identified}

module _ (u : Upstreams) where
  -- The loop of `maps.DeleteFunc` over the clients that are in the map at its start.
  unfoldable pub delete_expired :
      GoMap Addr (AutodeviceClient u)
      → ℕ
      → GoMap Addr (AutodeviceClient u)
      → GoMap Addr (AutodeviceClient u)
  delete_expired [] now clients = clients
  delete_expired ((address, cli) ∷ rest) now clients =
      if ltb now cli.valid_until
      then delete_expired rest now clients
      else delete_expired rest now (delete address clients)

  unfoldable pub clean_expired_clients : StoredAutodevice u → ℕ → StoredAutodevice u
  unfolding delete_expired
  clean_expired_clients c now = record c { clients = delete_expired c.clients now c.clients }

  unfoldable pub clean_each : List (StoredAutodevice u) → ℕ → List (StoredAutodevice u)
  unfolding clean_expired_clients
  clean_each [] now = []
  clean_each (c ∷ cs) now = clean_expired_clients c now ∷ clean_each cs now

-- The second loop of `cleanExpired`.
unfoldable pub clean_identified : Identified → ℕ → Identified → Identified
clean_identified [] now identified = identified
clean_identified ((key, id) ∷ rest) now identified =
    if ltb id.hid.until now
    then clean_identified rest now (delete id.hid.id identified)
    else clean_identified rest now identified
