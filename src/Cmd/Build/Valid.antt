-- ===== src/Cmd/Build/Valid.antt =====
-- `newUpstreams` of a valid configuration fails only where the library refuses an address.
use ad_guard_dnscli.Base.{◌≡◌, refl, none, some, List, [], ◌∷◌, All, GoString, string_eq, pair_eq}
use ad_guard_dnscli.Base.GoMap.{GoMap, lookup, keys}
use ad_guard_dnscli.Base.Compare.{compare_strings}
use ad_guard_dnscli.Base.Sort.{sort}
use ad_guard_dnscli.Errors.{Result, IsNil, join_iff}
use ad_guard_dnscli.Golibs.{Golibs}
use ad_guard_dnscli.Netip.{prefix_eq}
use ad_guard_dnscli.Client.Autodevice.{Upstreams}
use ad_guard_dnscli.Cmd.Upstream.{validate_groups_config}
use ad_guard_dnscli.Cmd.Build.{ValidGroup, Made, add_groups, new_upstreams}
use ad_guard_dnscli.Cmd.Build.Configured.{as_config}
use ad_guard_dnscli.Cmd.Build.Adding.{IsAccepted}
use ad_guard_dnscli.Cmd.Build.Ready.{nothing, AllAccepted, IsReady, round-Advances, valid-IsReady}

module _ (u : Upstreams) (parse_url : GoString → Result u.Url) where
  module _ (g : Golibs) (parse_scheme : GoString → Result GoString) where
    names-fine :
        (opts : GoString → u.Options) (groups : GoMap GoString ValidGroup) (names : List GoString)
        (ups : Made u parse_url)
        → AllAccepted u parse_url g parse_scheme opts groups
        → IsReady u parse_url g parse_scheme groups names ups
        → All IsNil (add_groups u parse_url opts groups names ups).1
    unfolding add_groups
    names-fine opts groups [] ups a h = tt
    names-fine opts groups (name ∷ names) ups a h =
        let r = round-Advances u parse_url g parse_scheme opts groups name names ups a h in
        (rw r.adds.fine refl, names-fine opts groups names _ a r.ready)

    -- A configuration that its validation accepts makes its upstreams without an error, where the
    -- library accepts the address of every group: in particular, no pair of a client and a domain is
    -- met twice.
    pub new_upstreams-valid :
        (opts : GoString → u.Options) (groups : GoMap GoString ValidGroup)
        → validate_groups_config g parse_scheme (some (as_config groups)) ≡ none
        → ((name : GoString) (c : ValidGroup)
            → lookup name groups ≡ some c
            → IsAccepted u parse_url (opts name) c)
        → (new_upstreams u parse_url g opts groups (nothing u parse_url)).1 ≡ none
    unfolding new_upstreams
    new_upstreams-valid opts groups valid accepted = (g.annotate_iff _ _ _).1 (
        (join_iff _).1 (
          names-fine opts groups (sort compare_strings (keys groups)) (nothing u parse_url) accepted
            (valid-IsReady u parse_url g parse_scheme groups valid)))
