-- ===== src/Client/Static.antt =====
-- The static clients of internal/client/defaultstorage.go: how they are stored, and how one is found.
pub mod Order
pub mod Within
pub mod FirstMatch
use ad_guard_dnscli.Base.{
  Bool, true, false, not, ◌&&◌, Option, List, [], ◌∷◌, ◌++◌, GoString, ◌==◌, bool_eq, if◌then◌else◌,
}
use mathlib.Core.Option
use ad_guard_dnscli.Base.GoMap.{GoMap}
use ad_guard_dnscli.Base.Compare.{Ordering, or_else}
use ad_guard_dnscli.Base.Sort.{sort, first}
use ad_guard_dnscli.Golibs.{Golibs}
use ad_guard_dnscli.Netip.{Addr, Prefix, empty_prefix, prefix_eq, is_single_ip}
use ad_guard_dnscli.Netip
use ad_guard_dnscli.Netip.Order.{compare_prefix}
use ad_guard_dnscli.Client.Domains.{compare_domains, matches_domain}

-- `C` is the type of the clients.
pub record StoredClient (C : Type 0) : Type 0 where
  pub client : C
  pub prefix : Prefix
  pub domain : GoString

-- `StaticClientConfig`, and the mapping of prefixes to such.
abbrev pub StaticClientConfig : Type 0 → Type 0
StaticClientConfig C = GoMap GoString C

-- The test that `storedClient.matches` and `storedAutodeviceClient.matches` share.
unfoldable pub matches_prefix : Prefix → Addr → Bool
matches_prefix p addr = not (not (p == empty_prefix) && not (Netip.contains p addr))

unfoldable pub matches : {C : Type 0} → Golibs → StoredClient C → Addr → GoString → Bool
unfolding matches_prefix
matches g c addr domain =
    if not (matches_prefix c.prefix addr)
    then false
    else if not (matches_domain g domain c.domain)
    then false
    else true

unfoldable pub compare_stored : {C : Type 0} → StoredClient C → StoredClient C → Ordering
compare_stored c other =
    if c.prefix == empty_prefix
    then (if other.prefix == empty_prefix
        then compare_domains c.domain other.domain
        else Ordering.gt)
    else if other.prefix == empty_prefix
    then Ordering.lt
    else if not (is_single_ip c.prefix == is_single_ip other.prefix)
    then (if is_single_ip c.prefix then Ordering.lt else Ordering.gt)
    else or_else (compare_prefix c.prefix other.prefix) (compare_domains c.domain other.domain)

module _ {C : Type 0} where
  -- The two nested loops of `NewDefaultStorage` over the configured static clients.
  unfoldable pub stored_of : Prefix → StaticClientConfig C → List (StoredClient C)
  stored_of prefix [] = []
  stored_of prefix ((domain, client) ∷ conf) =
      record { client = client; prefix = prefix; domain = domain } ∷ stored_of prefix conf

  unfoldable pub stored_clients : GoMap Prefix (StaticClientConfig C) → List (StoredClient C)
  unfolding stored_of
  stored_clients [] = []
  stored_clients ((prefix, conf) ∷ static) = stored_of prefix conf ++ stored_clients static

  unfoldable pub new_static : GoMap Prefix (StaticClientConfig C) → List (StoredClient C)
  unfolding stored_clients
  new_static static = sort compare_stored (stored_clients static)

  unfoldable pub find_static_client : Golibs → List (StoredClient C) → Addr → GoString → Option C
  find_static_client g static addr domain =
      Option.map (λ (cli : StoredClient C). cli.client)
        (first (λ cli. matches g cli addr domain) static)
