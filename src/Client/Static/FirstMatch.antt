-- ===== src/Client/Static/FirstMatch.antt =====
-- Which static client is found: the first one that matches, in an order described here without
-- the comparison of internal/client/defaultstorage.go.
use ad_guard_dnscli.Base.{
  ◌≡◌, ◌≢◌, ◌↔◌, Bool, true, false, none, some, List, arith, GoString, string_eq, bool_eq, Any, All,
  All-map, All-zip, All-Any_self, All-at,
}
use mathlib.Core.Option
use ad_guard_dnscli.Base.Compare.{Ordering, compare_bool, compare_self}
use ad_guard_dnscli.Base.GoMap.{GoMap}
use ad_guard_dnscli.Base.Sort.{
  sort, sort-IsSorted, All-sort, All-of-sort, first, first-passes, first-All, first-least,
  first-none_iff,
}
use ad_guard_dnscli.Golibs.{Golibs}
use ad_guard_dnscli.Netip.{Addr, Prefix, empty_prefix, prefix_eq, prefix_beq_iff, is_single_ip}
use ad_guard_dnscli.Netip.Order.{compare_prefix, compare_prefix-Lawful}
use ad_guard_dnscli.Client.Domains.{compare_domains, matches_domain}
use ad_guard_dnscli.Client.Domains.Labels.{NoLeadingDot}
use ad_guard_dnscli.Client.Static.{
  StoredClient, StaticClientConfig, matches, compare_stored, stored_clients, new_static,
  find_static_client,
}
use ad_guard_dnscli.Client.Static.Order.{
  HasValidDomains, compare_fields, compare_stored-fields, compare_stored-Lawful,
}
use ad_guard_dnscli.Client.Static.Within.{IsWithin, first_IsWithin}

module _ {C : Type 0} where
  -- Ways in which one entry takes precedence over another.
  pub record Precedes (found y : StoredClient C) : Type 0 where
    pub within : found.prefix ≡ y.prefix → compare_domains found.domain y.domain ≢ Ordering.gt
    pub single : is_single_ip y.prefix ≡ true → is_single_ip found.prefix ≡ true
    pub general : found.prefix ≡ empty_prefix → y.prefix ≡ empty_prefix
    pub ordered :
        y.prefix ≢ empty_prefix
        → is_single_ip found.prefix ≡ is_single_ip y.prefix
        → compare_prefix found.prefix y.prefix ≢ Ordering.gt

  precedes : (c y : StoredClient C) → compare_stored c y ≢ Ordering.gt → Precedes c y
  unfolding compare_fields compare_bool is_single_ip
  precedes c y le = record {
    within = λ e gt.
        le (ground (arith, compare_stored-fields c y, compare_self compare_prefix-Lawful y.prefix));
    single = λ e. ground (
      arith,
      compare_stored-fields c y,
      prefix_beq_iff c.prefix empty_prefix,
      prefix_beq_iff y.prefix empty_prefix,
    );
    general = λ e. ground (
      arith,
      compare_stored-fields c y,
      prefix_beq_iff c.prefix empty_prefix,
      prefix_beq_iff y.prefix empty_prefix,
    );
    ordered = λ ne same gt. le (
        ground (
          arith,
          compare_stored-fields c y,
          prefix_beq_iff c.prefix empty_prefix,
          prefix_beq_iff y.prefix empty_prefix,
          ne,
          same,
          gt,
        ));
  }

  -- What makes an entry the right one for an address and a question.
  pub record IsFirstMatch (g : Golibs) (entries : List (StoredClient C)) (addr : Addr)
      (question : GoString) (found : StoredClient C) : Type 0 where
    pub listed : Any (λ y. y ≡ found) entries
    pub matching : matches g found addr question ≡ true
    pub within :
        All
          (λ y.
            matches g y addr question ≡ true
            → found.prefix ≡ y.prefix
            → IsWithin found.domain y.domain)
          entries
    pub single :
        All
          (λ y.
            matches g y addr question ≡ true
            → is_single_ip y.prefix ≡ true
            → is_single_ip found.prefix ≡ true)
          entries
    pub general :
        All
          (λ y.
            matches g y addr question ≡ true
            → found.prefix ≡ empty_prefix
            → y.prefix ≡ empty_prefix)
          entries
    pub ordered :
        All
          (λ y.
            matches g y addr question ≡ true
            → y.prefix ≢ empty_prefix
            → is_single_ip found.prefix ≡ is_single_ip y.prefix
            → compare_prefix found.prefix y.prefix ≢ Ordering.gt)
          entries

module _ {C : Type 0} (g : Golibs) (static : GoMap Prefix (StaticClientConfig C)) (addr : Addr)
    (question : GoString) where
  abbrev entries : List (StoredClient C)
  entries = stored_clients static

  abbrev test : StoredClient C → Bool
  test y = matches g y addr question

  matching_domain : (y : StoredClient C) → test y ≡ true → matches_domain g question y.domain ≡ true
  unfolding matches
  matching_domain y h = ground arith

  first_match :
      (found : StoredClient C)
      → HasValidDomains entries
      → first test (sort compare_stored entries) ≡ some found
      → IsFirstMatch g entries addr question found
  first_match found v hit =
      let sorted : List (StoredClient C) = sort compare_stored entries in
      let listed : Any (λ y. y ≡ found) entries =
        first-All test (λ x. Any (λ y. y ≡ x) entries) sorted found
          (All-sort (λ x. Any (λ y. y ≡ x) entries) compare_stored entries (All-Any_self entries))
          hit in
      let hits : test found ≡ true = first-passes test sorted found hit in
      let valid : NoLeadingDot found.domain =
        All-at (λ y. NoLeadingDot y.domain) found entries v listed in
      let before : All (λ y. test y ≡ true → Precedes found y) entries =
        All-map (λ y h m. precedes found y (h m)) entries
          (All-of-sort (λ y. test y ≡ true → compare_stored found y ≢ Ordering.gt) compare_stored
            entries
            (first-least test compare_stored compare_stored-Lawful sorted found
              (sort-IsSorted compare_stored compare_stored-Lawful entries) hit)) in
      record {
        listed = listed;
        matching = hits;
        within =
            All-map
              (λ y h m same.
                first_IsWithin g question found.domain y.domain valid h.1
                  (matching_domain found hits) (matching_domain y m) ((h.0 m).within same))
              entries (All-zip _ _ entries before v);
        single = All-map (λ y h m. (h m).single) entries before;
        general = All-map (λ y h m. (h m).general) entries before;
        ordered = All-map (λ y h m. (h m).ordered) entries before;
      }

  -- The client that is found is that of an entry which matches the address and the question. It is
  -- for a single address if any matching entry is, and for the empty prefix only if all matching
  -- entries are; of the matching subnets, its own is the first in the order of package netip, by
  -- address and then by the number of bits, so that it need not be the narrowest one; and its domain
  -- lies within that of every other matching entry for the same prefix. The domains must not begin
  -- with a dot.
  pub find_static_client-IsFirstMatch :
      (c : C)
      → HasValidDomains (stored_clients static)
      → find_static_client g (new_static static) addr question ≡ some c
      → (found : StoredClient C) × (found.client ≡ c)
        × IsFirstMatch g (stored_clients static) addr question found
  unfolding find_static_client new_static
  find_static_client-IsFirstMatch c v e =
      let (found, hit, same) = (Option.map-eq-some_iff _ _).0 e in
      (found, same, first_match found v hit)

  -- No client is found exactly when no entry of the configuration matches.
  pub find_static_client-none_iff :
      (find_static_client g (new_static static) addr question ≡ none)
      ↔ All (λ y. matches g y addr question ≡ false) (stored_clients static)
  unfolding find_static_client new_static
  find_static_client-none_iff = (
    (λ e.
        All-of-sort (λ y. test y ≡ false) compare_stored entries
          ((first-none_iff test (sort compare_stored entries)).0
            ((Option.map-eq-none_iff _ _).0 e))),
    (λ h. (Option.map-eq-none_iff _ _).1 (
        (first-none_iff test (sort compare_stored entries)).1
          (All-sort (λ y. test y ≡ false) compare_stored entries h))),
  )
