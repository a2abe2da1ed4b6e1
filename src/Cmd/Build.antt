-- ===== src/Cmd/Build.antt =====
-- `newUpstreams` of internal/cmd/upstream.go: the upstreams that are made of a configuration. The
-- program calls it with valid configurations, where no pointer is `nil`.
pub mod Adding
pub mod Configured
pub mod Devices
pub mod Ready
pub mod Statics
pub mod Valid
use ad_guard_dnscli.Base.{
  ℕ, suc, Option, none, some, List, [], ◌∷◌, ◌++◌, GoString, string_eq, ◌==◌, if◌then◌else◌,
  to_lower,
}
use ad_guard_dnscli.Base.GoMap.{GoMap, keys, lookup, insert}
use ad_guard_dnscli.Base.Nested.{inner}
use ad_guard_dnscli.Base.Compare.{compare_strings}
use ad_guard_dnscli.Base.Sort.{sort}
use ad_guard_dnscli.Errors.{
  Error, Errs, wrapf, sentinel, duplicated, text, num, prefix, Result, ok, err, join,
}
use ad_guard_dnscli.Golibs.{Golibs}
use ad_guard_dnscli.Netip.{Prefix, empty_prefix, prefix_eq}
use ad_guard_dnscli.Client.Autodevice.{Upstreams, AutodeviceUpstreamConfig}
use ad_guard_dnscli.Cmd.Upstream.{
  UpstreamMatchConfig, AutodeviceConfig, group_name_default, group_name_private, wrapped,
}

-- A group of a valid configuration.
pub record ValidGroup : Type 0 where
  pub address : GoString
  pub autodevice : AutodeviceConfig
  pub matches : List UpstreamMatchConfig

-- `url.Parse`, and `upstream.AddressToUpstream` with the options of the group, are parameters.
module _ (u : Upstreams) (parse_url : GoString → Result u.Url) where
  pub record Made : Type 0 where
    pub general : List u.Upstream
    pub private_ups : List u.Upstream
    pub static : GoMap Prefix (GoMap GoString (List u.Upstream))
    pub autodevice : GoMap Prefix (GoMap GoString (AutodeviceUpstreamConfig u))

  abbrev pub device_conf : ValidGroup → u.Url → u.Options → AutodeviceUpstreamConfig u
  device_conf c url opts = record {
    upstream_template = url;
    options = opts;
    device_type = c.autodevice.device_type;
    profile_id = c.autodevice.profile_id;
  }

  abbrev pub general_added : ValidGroup → u.Options → Made → Made × Option Error
  general_added c opts ups = elim (u.address_to_upstream c.address opts) [
    | ok up ↦ (record ups { general = ups.general ++ up ∷ [] }, none)
    | err e ↦ (ups, some e)
  ]

  unfoldable pub add_default_group : ValidGroup → u.Options → Made → Made × Option Error
  add_default_group c opts ups =
      if c.autodevice.enabled
      then (elim (parse_url c.address) [
        | ok url ↦
            let conf =
              insert [] (device_conf c url opts) (inner (lookup empty_prefix ups.autodevice)) in
            general_added c opts
              (record ups { autodevice = insert empty_prefix conf ups.autodevice })
        | err e ↦ (
          record ups {
            autodevice =
                insert empty_prefix (inner (lookup empty_prefix ups.autodevice)) ups.autodevice;
          },
          some (wrapf "address: %w" [] e),
        )
      ])
      else general_added c opts ups

  unfoldable pub add_private_group : ValidGroup → u.Options → Made → Made × Option Error
  add_private_group c opts ups = elim (u.address_to_upstream c.address opts) [
    | ok up ↦ (record ups { private_ups = ups.private_ups ++ up ∷ [] }, none)
    | err e ↦ (ups, some e)
  ]

  abbrev duplicate : ℕ → UpstreamMatchConfig → Error
  duplicate i m =
      wrapf "match: at index %d: for client %q and domain %q: %w"
        (num i ∷ prefix m.client ∷ text m.question_domain ∷ []) (sentinel duplicated)

  -- One round of the loops over the matches: a value for a new pair of a prefix and a domain.
  abbrev pub put_new :
      {V : Type 0}
      → ℕ
      → UpstreamMatchConfig
      → V
      → GoMap Prefix (GoMap GoString V)
      → GoMap Prefix (GoMap GoString V) × Option Error
  put_new i m v ups =
      let conf = inner (lookup m.client ups) in
      let domain = to_lower m.question_domain in
      elim (lookup domain conf) [
        | some _ ↦ (insert m.client conf ups, some (duplicate i m))
        | none ↦ (insert m.client (insert domain v conf) ups, none)
      ]

  -- The loop of `addAutodeviceGroup`, from the index `i` on.
  unfoldable pub add_devices :
      AutodeviceUpstreamConfig u
      → ℕ
      → List UpstreamMatchConfig
      → GoMap Prefix (GoMap GoString (AutodeviceUpstreamConfig u))
      → GoMap Prefix (GoMap GoString (AutodeviceUpstreamConfig u)) × Option Error
  add_devices conf i [] ups = (ups, none)
  add_devices conf i (m ∷ ms) ups =
      let (ups', e) = put_new i m conf ups in
      let rest = add_devices conf (suc i) ms ups' in
      elim e [ none ↦ rest | some x ↦ (ups', some x) ]

  unfoldable pub add_autodevice_group : ValidGroup → u.Options → Made → Made × Option Error
  unfolding add_devices
  add_autodevice_group c opts ups = elim (parse_url c.address) [
    | ok url ↦
        let (devices, e) = add_devices (device_conf c url opts) 0 c.matches ups.autodevice in
        (record ups { autodevice = devices }, e)
    | err e ↦ (ups, some (wrapf "address: %w" [] e))
  ]

  -- The loop of `addCommonGroup`; the upstream is made anew for each match.
  unfoldable pub add_static :
      GoString
      → u.Options
      → ℕ
      → List UpstreamMatchConfig
      → GoMap Prefix (GoMap GoString (List u.Upstream))
      → GoMap Prefix (GoMap GoString (List u.Upstream)) × Option Error
  add_static address opts i [] ups = (ups, none)
  add_static address opts i (m ∷ ms) ups =
      let made = u.address_to_upstream address opts in
      elim made [
        | err e ↦ (ups, some (wrapf "match: at index %d: address: %w" (num i ∷ []) e))
        | ok up ↦
            let (ups', e) = put_new i m (up ∷ []) ups in
            let rest = add_static address opts (suc i) ms ups' in
            elim e [ none ↦ rest | some x ↦ (ups', some x) ]
      ]

  unfoldable pub add_common_group : ValidGroup → u.Options → Made → Made × Option Error
  unfolding add_static
  add_common_group c opts ups =
      let (static, e) = add_static c.address opts 0 c.matches ups.static in
      (record ups { static = static }, e)

  abbrev pub add_group : GoString → ValidGroup → u.Options → Made → Made × Option Error
  add_group name c opts ups =
      if name == group_name_default
      then add_default_group c opts ups
      else if name == group_name_private
      then add_private_group c opts ups
      else if c.autodevice.enabled
      then add_autodevice_group c opts ups
      else add_common_group c opts ups

  abbrev pub add_named : GoString → Option ValidGroup → u.Options → Made → Made × Option Error
  add_named name none opts ups = (ups, none)
  add_named name (some c) opts ups = add_group name c opts ups

  -- The loop over the sorted names; the options depend on the group's name.
  unfoldable pub add_groups :
      (GoString → u.Options) → GoMap GoString ValidGroup → List GoString → Made → Made × Errs
  unfolding add_default_group add_private_group add_autodevice_group add_common_group
  add_groups opts groups [] ups = (ups, [])
  add_groups opts groups (name ∷ names) ups =
      let (ups', e) = add_named name (lookup name groups) (opts name) ups in
      let (ups'', errs) = add_groups opts groups names ups' in
      (ups'', wrapped "group %q: %w" (text name ∷ []) e ∷ errs)

  unfoldable pub new_upstreams :
      Golibs → (GoString → u.Options) → GoMap GoString ValidGroup → Made → Made × Option Error
  unfolding add_groups
  new_upstreams g opts groups ups =
      let (ups', errs) = add_groups opts groups (sort compare_strings (keys groups)) ups in
      (ups', g.annotate (join errs) "creating upstreams: %w" [])
