-- ===== src/Cmd/Build/Ready.antt =====
-- What is left to do for a valid configuration before and after each round of `newUpstreams`.
use ad_guard_dnscli.Base.{
  ◌≡◌, ◌≢◌, refl, ap, subst, ◌∙◌, inl, inr, Bool-cases, Option, none, some, List, [], ◌∷◌, ◌++◌,
  map, All, GoString, ◌==◌, string_eq, pair_eq,
}
use ad_guard_dnscli.Base.GoMap.{GoMap, lookup, keys}
use ad_guard_dnscli.Base.Compare.{compare_strings}
use ad_guard_dnscli.Base.Sort.{sort}
use ad_guard_dnscli.Errors.{Result, Error}
use ad_guard_dnscli.Golibs.{Golibs}
use ad_guard_dnscli.Netip.{prefix_eq}
use ad_guard_dnscli.Client.Autodevice.{Upstreams}
use ad_guard_dnscli.Cmd.Upstream.{
  IndexedMatch, UpstreamGroupConfig, to_indexed_match, group_name_default, group_name_private,
  is_predefined, group_of, validate_groups_config,
}
use ad_guard_dnscli.Cmd.Upstream.Unique.{
  IsUnique, empty_match, all_keys, keys_of, validate_groups_config-IsUnique,
  validate_groups_config-proper,
}
use ad_guard_dnscli.Cmd.Build.{ValidGroup, Made, add_group, add_named}
use ad_guard_dnscli.Cmd.Build.Configured.{
  All-split, append-IsUnique_split, as_config, keys-as_config, keys_of-as_group, lookup-as_config,
  own_keys,
}
use ad_guard_dnscli.Cmd.Build.Adding.{
  IsAccepted, Free, Adds, private-Adds, default-Adds, autodevice-Adds, common-Adds, either,
}

module _ (u : Upstreams) (parse_url : GoString → Result u.Url) where
  -- Before the first group.
  abbrev pub nothing : Made u parse_url
  nothing = record { general = []; private_ups = []; static = []; autodevice = [] }

  module _ (g : Golibs) (parse_scheme : GoString → Result GoString) where
    group-Adds :
        (name : GoString) (opts : u.Options) (c : ValidGroup) (ups : Made u parse_url)
        → IsAccepted u parse_url opts c
        → let own = own_keys (is_predefined g parse_scheme name) (some c) in
          IsUnique own
          → Free u parse_url own ups
          → Adds u parse_url own ups (add_group u parse_url name c opts ups)
    group-Adds name opts c ups a unique free = elim (Bool-cases (name == group_name_default)) [
      | inl e ↦ rw e (default-Adds u parse_url _ opts c ups a)
      | inr n ↦ elim (Bool-cases (name == group_name_private)) [
        | inl e ↦ rw (n, e) (private-Adds u parse_url _ opts c ups a)
        | inr n' ↦
            let custom : own_keys (is_predefined g parse_scheme name) (some c)
                ≡ map to_indexed_match c.matches =
              rw (n, n') refl in
            let unique' = subst IsUnique custom unique in
            let free' = subst (λ ks. Free u parse_url ks ups) custom free in
            rw (n, n')
              (either u parse_url c.autodevice.enabled
                (autodevice-Adds u parse_url opts c ups a unique' free')
                (common-Adds u parse_url opts c ups a unique' free'))
      ]
    ]

    -- The pairs of the groups that the loop over the names meets.
    abbrev pub run_keys : GoMap GoString ValidGroup → List GoString → List IndexedMatch
    run_keys groups [] = []
    run_keys groups (name ∷ names) =
        own_keys (is_predefined g parse_scheme name) (lookup name groups) ++ run_keys groups names

    named-Adds :
        (name : GoString) (o : Option ValidGroup) (opts : u.Options) (ups : Made u parse_url)
        → ((c : ValidGroup) → o ≡ some c → IsAccepted u parse_url opts c)
        → let own = own_keys (is_predefined g parse_scheme name) o in
          IsUnique own
          → Free u parse_url own ups
          → Adds u parse_url own ups (add_named u parse_url name o opts ups)
    named-Adds name none opts ups a unique free = record {
      fine = refl;
      kept = λ k p h. (refl, refl);
    }
    named-Adds name (some c) opts ups a unique free =
        group-Adds name opts c ups (a c refl) unique free

    -- What is free stays free after a group, where its pairs are others.
    Free-kept :
        (own rest : List IndexedMatch) (ups : Made u parse_url)
        (r : Made u parse_url × Option Error)
        → Adds u parse_url own ups r
        → All (λ k. k ≢ empty_match) rest
        → All (λ k. All (λ j. j ≢ k) own) rest
        → Free u parse_url rest ups
        → Free u parse_url rest r.0
    Free-kept own [] ups r a p d f = tt
    Free-kept own (k ∷ ks) ups r a (p, ps) (d, ds) (f, fs) =
        let (static, devices) = a.kept k p d in
        ((static ∙ f.0, devices ∙ f.1), Free-kept own ks ups r a ps ds fs)

    -- The validated configuration and the groups have the same pairs.
    group_of-as_config :
        (name : GoString) (groups : GoMap GoString ValidGroup)
        → keys_of
            (is_predefined g parse_scheme name)
            (group_of g parse_scheme (as_config groups) name)
          ≡ own_keys (is_predefined g parse_scheme name) (lookup name groups)
    group_of-as_config name groups =
        let pre = is_predefined g parse_scheme name in
        ap
          (λ (o : Option (Option UpstreamGroupConfig)).
            keys_of pre (elim o [ none ↦ none | some c ↦ c ]))
          (lookup-as_config name groups)
        ∙ keys_of-as_group pre (lookup name groups)

    all_keys-as_config :
        (groups : GoMap GoString ValidGroup) (names : List GoString)
        → all_keys g parse_scheme (as_config groups) names ≡ run_keys groups names
    unfolding all_keys
    all_keys-as_config groups [] = refl
    all_keys-as_config groups (name ∷ names) =
        rw (group_of-as_config name groups, all_keys-as_config groups names) refl

    Free-nothing : (ks : List IndexedMatch) → Free u parse_url ks nothing
    unfolding lookup
    Free-nothing [] = tt
    Free-nothing (k ∷ ks) = ((refl, refl), Free-nothing ks)

    abbrev pub AllAccepted : (GoString → u.Options) → GoMap GoString ValidGroup → Type 0
    AllAccepted opts groups =
        (name : GoString) (c : ValidGroup)
        → lookup name groups ≡ some c
        → IsAccepted u parse_url (opts name) c

    -- The pairs of the groups that are left differ from each other, none is the default one, and
    -- nothing is configured for them.
    pub record IsReady (groups : GoMap GoString ValidGroup) (names : List GoString)
        (ups : Made u parse_url) : Type 0 where
      pub unique : IsUnique (run_keys groups names)
      pub proper : All (λ k. k ≢ empty_match) (run_keys groups names)
      pub free : Free u parse_url (run_keys groups names) ups

    -- One round of the loop over the names.
    pub record Advances (opts : GoString → u.Options) (groups : GoMap GoString ValidGroup)
        (name : GoString) (names : List GoString) (ups : Made u parse_url) : Type 0 where
      pub unique_own : IsUnique (own_keys (is_predefined g parse_scheme name) (lookup name groups))
      pub free_own :
          Free u parse_url (own_keys (is_predefined g parse_scheme name) (lookup name groups)) ups
      pub proper_own :
          All
            (λ k. k ≢ empty_match)
            (own_keys (is_predefined g parse_scheme name) (lookup name groups))
      pub apart :
          All
            (λ k.
              All (λ j. j ≢ k) (own_keys (is_predefined g parse_scheme name) (lookup name groups)))
            (run_keys groups names)
      pub adds :
          Adds u parse_url
            (own_keys (is_predefined g parse_scheme name) (lookup name groups))
            ups
            (add_named u parse_url name (lookup name groups) (opts name) ups)
      pub ready :
          IsReady groups names (add_named u parse_url name (lookup name groups) (opts name) ups).0

    pub round-Advances :
        (opts : GoString → u.Options) (groups : GoMap GoString ValidGroup) (name : GoString)
        (names : List GoString) (ups : Made u parse_url)
        → AllAccepted opts groups
        → IsReady groups (name ∷ names) ups
        → Advances opts groups name names ups
    round-Advances opts groups name names ups a h =
        let own = own_keys (is_predefined g parse_scheme name) (lookup name groups) in
        let rest = run_keys groups names in
        let (unique_own, unique_rest, apart) = append-IsUnique_split own rest h.unique in
        let (free_own, free_rest) = All-split _ own rest h.free in
        let (proper_own, proper_rest) = All-split _ own rest h.proper in
        let r = add_named u parse_url name (lookup name groups) (opts name) ups in
        let added =
          named-Adds name (lookup name groups) (opts name) ups (a name) unique_own free_own in
        record {
          unique_own = unique_own;
          free_own = free_own;
          proper_own = proper_own;
          apart = apart;
          adds = added;
          ready = record {
            unique = unique_rest;
            proper = proper_rest;
            free = Free-kept own rest ups r added proper_rest apart free_rest;
          };
        }

    -- Before the first group of a valid configuration.
    pub valid-IsReady :
        (groups : GoMap GoString ValidGroup)
        → validate_groups_config g parse_scheme (some (as_config groups)) ≡ none
        → IsReady groups (sort compare_strings (keys groups)) nothing
    valid-IsReady groups valid =
        let names = sort compare_strings (keys groups) in
        let same : all_keys g parse_scheme (as_config groups)
              (sort compare_strings (keys (as_config groups)))
            ≡ run_keys groups names =
          rw (keys-as_config groups) (all_keys-as_config groups names) in
        record {
          unique =
              subst IsUnique same
                (validate_groups_config-IsUnique g parse_scheme (as_config groups) valid);
          proper =
              subst (All (λ k. k ≢ empty_match)) same
                (validate_groups_config-proper g parse_scheme (as_config groups) valid);
          free = Free-nothing (run_keys groups names);
        }
