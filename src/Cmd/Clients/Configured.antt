-- ===== src/Cmd/Clients/Configured.antt =====
-- A match of a valid configuration has a static client with its group's upstream.
use ad_guard_dnscli.Base.{
  ◌≡◌, ◌≢◌, refl, sym, All-map, All-zip, true, false, arith, if◌then◌else◌, to_lower, ap, subst,
  ◌∙◌, inl, inr, Bool-cases, Option, none, some, List, [], ◌∷◌, map, All, GoString, ◌==◌, string_eq,
  pair_eq,
}
use ad_guard_dnscli.Base.GoMap.{GoMap, lookup, keys}
use ad_guard_dnscli.Base.Compare.{compare_strings}
use ad_guard_dnscli.Base.Sort.{sort}
use ad_guard_dnscli.Errors.{Result, Error, ok}
use ad_guard_dnscli.Golibs.{Golibs}
use ad_guard_dnscli.Netip.{prefix_eq}
use ad_guard_dnscli.Client.Autodevice.{Upstreams}
use ad_guard_dnscli.Cmd.Upstream.{
  IndexedMatch, to_indexed_match, group_name_default, group_name_private, is_predefined,
  validate_groups_config,
}
use ad_guard_dnscli.Cmd.Upstream.Unique.{IsUnique, empty_match}
use ad_guard_dnscli.Cmd.Build.{ValidGroup, Made, add_autodevice_group}
use ad_guard_dnscli.Cmd.Build.Configured.{All-of-map, map-IsUnique, All-split, as_config, own_keys}
use ad_guard_dnscli.Cmd.Build.Adding.{IsAccepted, Free}
use ad_guard_dnscli.Cmd.Build.Ready.{
  nothing, AllAccepted, IsReady, Advances, run_keys, round-Advances, valid-IsReady,
}
use ad_guard_dnscli.Cmd.Build.{add_groups, new_upstreams, add_common_group, add_named}
use ad_guard_dnscli.Cmd.Build.Devices.{at}
use ad_guard_dnscli.Base.Nested
use ad_guard_dnscli.Cmd.Build.Statics.{add_static-AddsStatic}
use ad_guard_dnscli.Cmd.Clients.Added.{made, has, sorted_keys-none, at-new_static_clients}
use ad_guard_dnscli.Cmd.Clients.{new_static_clients, custom}
use ad_guard_dnscli.Cmd.Config.{CacheConfig}

-- The upstreams of a match, once it has any.
All-flip :
    (xs ys : List IndexedMatch)
    → All (λ y. All (λ x. x ≢ y) xs) ys
    → All (λ x. All (λ y. y ≢ x) ys) xs
All-flip [] ys h = tt
All-flip (x ∷ xs) ys h =
    (All-map (λ y p e. p.0 (sym e)) ys h, All-flip xs ys (All-map (λ y p. p.1) ys h))

module _ (u : Upstreams) (parse_url : GoString → Result u.Url) where
  module _ (g : Golibs) (parse_scheme : GoString → Result GoString) (opts : GoString → u.Options)
      (groups : GoMap GoString ValidGroup)
      (accepted : AllAccepted u parse_url g parse_scheme opts groups) where
    -- The later groups leave other pairs alone.
    names-kept :
        (names : List GoString) (ups : Made u parse_url)
        → IsReady u parse_url g parse_scheme groups names ups
        → (k : IndexedMatch) → k ≢ empty_match
        → All (λ j. j ≢ k) (run_keys u parse_url g parse_scheme groups names)
        → at u parse_url k (add_groups u parse_url opts groups names ups).0.static
          ≡ at u parse_url k ups.static
    unfolding add_groups
    names-kept [] ups h k p d = refl
    names-kept (name ∷ names) ups h k p d =
        let r = round-Advances u parse_url g parse_scheme opts groups name names ups accepted h in
        let (here, later) =
          All-split (λ j. j ≢ k) _ (run_keys u parse_url g parse_scheme groups names) d in
        names-kept names _ r.ready k p later ∙ (r.adds.kept k p here).0

    module _ (name : GoString) (c : ValidGroup) (up : u.Upstream)
        (found : lookup name groups ≡ some c) (custom : is_predefined g parse_scheme name ≡ false)
        (off : c.autodevice.enabled ≡ false)
        (addressed : u.address_to_upstream c.address (opts name) ≡ ok up) where
      own_matches :
          own_keys (is_predefined g parse_scheme name) (lookup name groups)
          ≡ map to_indexed_match c.matches
      own_matches = rw (custom, found) refl

      -- All matches of the group have its upstream.
      abbrev HasAll : Made u parse_url → Type 0
      HasAll ups =
          All (λ m. at u parse_url (to_indexed_match m) ups.static ≡ some (up ∷ [])) c.matches

      round-HasAll :
          (names : List GoString) (ups : Made u parse_url)
          → Advances u parse_url g parse_scheme opts groups name names ups
          → HasAll (add_named u parse_url name (lookup name groups) (opts name) ups).0
      unfolding add_common_group
      round-HasAll names ups r =
          let default' : (name == group_name_default) ≡ false = ground (arith, custom) in
          let private' : (name == group_name_private) ≡ false = ground (arith, custom) in
          let common : add_named u parse_url name (lookup name groups) (opts name) ups
              ≡ add_common_group u parse_url c (opts name) ups =
            rw (found, default', private')
              (ap
                (λ b.
                  if b
                  then add_autodevice_group u parse_url c (opts name) ups
                  else add_common_group u parse_url c (opts name) ups)
                off) in
          let unique = subst IsUnique own_matches r.unique_own in
          let free = subst (λ ks. Free u parse_url ks ups) own_matches r.free_own in
          let added =
            add_static-AddsStatic u parse_url c.address (opts name) up 0 c.matches ups.static
              addressed (map-IsUnique c.matches unique)
              (All-map (λ m p. p.0) c.matches (All-of-map _ c.matches free)) in
          subst (λ (r : Made u parse_url × Option Error). HasAll r.0) (sym common) added.has

      kept-HasAll :
          (names : List GoString) (ups : Made u parse_url)
          → Advances u parse_url g parse_scheme opts groups name names ups
          → HasAll (add_groups u parse_url opts groups (name ∷ names) ups).0
      unfolding add_groups
      kept-HasAll names ups r =
          let rest = run_keys u parse_url g parse_scheme groups names in
          let proper =
            All-of-map _ c.matches (subst (All (λ k. k ≢ empty_match)) own_matches r.proper_own) in
          let apart =
            All-of-map _ c.matches
              (subst (All (λ x. All (λ y. y ≢ x) rest)) own_matches (All-flip _ rest r.apart)) in
          All-map (λ m p. names-kept names _ r.ready (to_indexed_match m) p.0.0 p.0.1 ∙ p.1)
            c.matches
            (All-zip _ _ c.matches (All-zip _ _ c.matches proper apart) (round-HasAll names ups r))

      names-HasAll :
          (names : List GoString) (ups : Made u parse_url)
          → IsReady u parse_url g parse_scheme groups names ups
          → has name names ≡ true
          → HasAll (add_groups u parse_url opts groups names ups).0
      unfolding add_groups has
      names-HasAll [] ups h there = absurd (ground (arith, there))
      names-HasAll (n ∷ names) ups h there =
          let r = round-Advances u parse_url g parse_scheme opts groups n names ups accepted h in
          elim (Bool-cases (n == name)) [
            | inl same ↦
                let e = (string_eq.beq_iff n name).0 same in
                subst (λ x. HasAll (add_groups u parse_url opts groups (x ∷ names) ups).0) (sym e)
                  (kept-HasAll names ups
                    (subst (λ x. Advances u parse_url g parse_scheme opts groups x names ups) e r))
            | inr other ↦ names-HasAll names _ r.ready (ground (arith, other, there))
          ]

module _ (u : Upstreams) (parse_url : GoString → Result u.Url) where
  module _ (g : Golibs) (parse_scheme : GoString → Result GoString) where
    -- From a valid configuration of which the library accepts all addresses: every match of a group
    -- that is neither predefined nor made on demand gets a static client, at its prefix and its domain
    -- in lower case, with the upstream at the group's address alone.
    pub new_static_clients-matches :
        (opts : GoString → u.Options) (groups : GoMap GoString ValidGroup) (cache : CacheConfig)
        (name : GoString) (c : ValidGroup) (up : u.Upstream)
        → validate_groups_config g parse_scheme (some (as_config groups)) ≡ none
        → ((n : GoString) (d : ValidGroup)
            → lookup n groups ≡ some d
            → IsAccepted u parse_url (opts n) d)
        → lookup name groups ≡ some c
        → is_predefined g parse_scheme name ≡ false
        → c.autodevice.enabled ≡ false
        → u.address_to_upstream c.address (opts name) ≡ ok up
        → let ups = (new_upstreams u parse_url g opts groups (nothing u parse_url)).0 in
          All
            (λ m.
              Nested.at m.client
                (to_lower m.question_domain)
                (new_static_clients u ups.static cache)
              ≡ some (custom u cache (up ∷ [])))
            c.matches
    unfolding new_upstreams to_indexed_match
    new_static_clients-matches opts groups cache name c up valid accepted found own off addressed =
        let names = sort compare_strings (keys groups) in
        let ready = valid-IsReady u parse_url g parse_scheme groups valid in
        let listed : has name names ≡ true = elim (Bool-cases (has name names)) [
          | inl yes' ↦ yes'
          | inr missing ↦
              let gone = sorted_keys-none compare_strings name groups missing in
              absurd (ground (arith, found, gone))
        ] in
        All-map
          (λ m p.
            at-new_static_clients u cache _ m.client (to_lower m.question_domain)
            ∙ ap (made u cache) p)
          c.matches
          (names-HasAll u parse_url g parse_scheme opts groups accepted name c up found own off
            addressed names (nothing u parse_url) ready listed)
