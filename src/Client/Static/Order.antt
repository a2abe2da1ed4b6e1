-- ===== src/Client/Static/Order.antt =====
-- `storedClient.compare` orders the static clients totally, so that their order does not depend on
-- the order in which Go ranges over the configuration.
use ad_guard_dnscli.Base.{◌≡◌, ◌≢◌, not, List, [], ◌∷◌, arith, ◌==◌, bool_eq, All}
use mathlib.Core.Path.{fun_ext}
use mathlib.Core.List.{Permᴰ}
use ad_guard_dnscli.Base.Compare.{
  Ordering, or_else, Lawful, or_else-Lawful, on-Lawful, compare_bool, compare_bool-Lawful,
  compare_self,
}
use ad_guard_dnscli.Base.Sort.{sort-perm, IsStrict}
use ad_guard_dnscli.Netip.{Prefix, empty_prefix, prefix_eq, prefix_beq_iff, is_single_ip}
use ad_guard_dnscli.Netip.Order.{compare_prefix, compare_prefix-Lawful, eq_of_compare_prefix}
use ad_guard_dnscli.Client.Domains.{compare_domains}
use ad_guard_dnscli.Base.GoMap.{GoMap}
use ad_guard_dnscli.Client.Domains.Labels.{NoLeadingDot}
use ad_guard_dnscli.Client.Domains.Order.{compare_domains-Lawful, eq_of_compare_domains}
use ad_guard_dnscli.Client.Static.{
  StoredClient, StaticClientConfig, compare_stored, stored_clients, new_static,
}

module _ {C : Type 0} where
  -- An empty prefix last, a single address first, then by prefix, then by domain.
  unfoldable pub compare_fields : StoredClient C → StoredClient C → Ordering
  compare_fields c o =
      or_else (compare_bool (c.prefix == empty_prefix) (o.prefix == empty_prefix)) (
        or_else (compare_bool (not (is_single_ip c.prefix)) (not (is_single_ip o.prefix)))
          (or_else (compare_prefix c.prefix o.prefix) (compare_domains c.domain o.domain)))

  pub compare_stored-fields : (c o : StoredClient C) → compare_stored c o ≡ compare_fields c o
  unfolding compare_stored compare_fields compare_bool
  compare_stored-fields c o = ground (
    arith,
    prefix_beq_iff c.prefix empty_prefix,
    prefix_beq_iff o.prefix empty_prefix,
    compare_self compare_prefix-Lawful empty_prefix,
  )

  compare_fields-Lawful : Lawful compare_fields
  unfolding compare_fields
  compare_fields-Lawful =
      or_else-Lawful _ _
        (on-Lawful (λ (c : StoredClient C). c.prefix == empty_prefix) compare_bool
          compare_bool-Lawful)
        (or_else-Lawful _ _
          (on-Lawful (λ (c : StoredClient C). not (is_single_ip c.prefix)) compare_bool
            compare_bool-Lawful)
          (or_else-Lawful _ _
            (on-Lawful (λ (c : StoredClient C). c.prefix) compare_prefix compare_prefix-Lawful)
            (on-Lawful (λ (c : StoredClient C). c.domain) compare_domains compare_domains-Lawful)))

  pub compare_stored-Lawful : Lawful (compare_stored {C = C})
  compare_stored-Lawful =
      rw (fun_ext (λ c. fun_ext (compare_stored-fields c))) compare_fields-Lawful

  -- No two entries are for the same prefix and domain, as in a map of maps.
  abbrev pub HasDistinctKeys : List (StoredClient C) → Type 0
  HasDistinctKeys [] = Unit
  HasDistinctKeys (c ∷ cs) =
      All (λ o. ¬ ((c.prefix ≡ o.prefix) × (c.domain ≡ o.domain))) cs × HasDistinctKeys cs

  abbrev pub HasValidDomains : List (StoredClient C) → Type 0
  HasValidDomains = All (λ c. NoLeadingDot c.domain)

  keys_of_compare_stored :
      (c o : StoredClient C)
      → NoLeadingDot c.domain
      → NoLeadingDot o.domain
      → compare_stored c o ≡ Ordering.eq
      → (c.prefix ≡ o.prefix) × (c.domain ≡ o.domain)
  unfolding compare_fields
  keys_of_compare_stored c o m n e = ground (
    arith,
    compare_stored-fields c o,
    eq_of_compare_prefix c.prefix o.prefix,
    eq_of_compare_domains c.domain o.domain m n,
  )

  stored-IsStrict :
      (cs : List (StoredClient C))
      → HasDistinctKeys cs
      → HasValidDomains cs
      → IsStrict compare_stored cs
  stored-IsStrict [] d v = tt
  stored-IsStrict (c ∷ cs) (d, ds) (v, vs) = (apart cs d vs, stored-IsStrict cs ds vs)
    where
      apart :
          (os : List (StoredClient C))
          → All (λ o. ¬ ((c.prefix ≡ o.prefix) × (c.domain ≡ o.domain))) os
          → HasValidDomains os
          → All (λ o. compare_stored c o ≢ Ordering.eq) os
      apart [] d' vs' = tt
      apart (o ∷ os) (d', ds') (v', vs') =
          ((λ e. d' (keys_of_compare_stored c o v v' e)), apart os ds' vs')

  -- However Go ranges over the two levels of the configuration's maps, the storage holds the same
  -- clients in the same order, as no two of them are for the same prefix and domain.
  pub new_static-order :
      (static other : GoMap Prefix (StaticClientConfig C))
      → Permᴰ (stored_clients static) (stored_clients other)
      → HasDistinctKeys (stored_clients static)
      → HasValidDomains (stored_clients static)
      → new_static static ≡ new_static other
  unfolding new_static
  new_static-order static other r d v =
      (sort-perm compare_stored compare_stored-Lawful r (stored-IsStrict _ d v)).0
