-- ===== src/Cmd/Upstream.antt =====
-- internal/cmd/upstream.go and autodevice.go: the configuration of the upstream groups and its
-- validation. `Match` and `Group` pointers in the configuration can be `nil`, which is `none`.
pub mod Unique
use ad_guard_dnscli.Base.{
  ℕ, suc, ◌+◌, Bool, true, false, not, ◌&&◌, ◌||◌, Option, none, some, List, [], ◌∷◌, ◌++◌,
  GoString, String, str, string_eq, pair_eq, ◌==◌, if◌then◌else◌, to_lower, length, ℤ, pos, negsuc,
  nat_eq,
}
use ad_guard_dnscli.Base.GoMap.{GoMap, keys, lookup, insert}
use ad_guard_dnscli.Base.Compare.{compare_strings}
use ad_guard_dnscli.Base.Sort.{sort}
use ad_guard_dnscli.Errors.{
  Error, Errs, errorf, wrapf, sentinel, no_value, empty_value, duplicated, bad_enum_value, text,
  num, int, prefix, Result, ok, err, ◌>>=◌, ◌>>◌, check, wrap, error_of, join,
}
use ad_guard_dnscli.Golibs.{Golibs}
use ad_guard_dnscli.Netip.{Prefix, empty_prefix, prefix_eq, masked, bits}
use ad_guard_dnscli.Client.HumanId.{new_profile_id, new_device_type}
use ad_guard_dnscli.Client.Autodevice.{scheme_https, scheme_quic, scheme_tls}

pub record AutodeviceConfig : Type 0 where
  pub profile_id : GoString
  pub device_type : GoString
  pub enabled : Bool

pub record UpstreamMatchConfig : Type 0 where
  pub client : Prefix
  pub question_domain : GoString

pub record UpstreamGroupConfig : Type 0 where
  pub address : GoString
  pub autodevice : Option AutodeviceConfig
  pub matches : List (Option UpstreamMatchConfig)

-- `upstreamGroupsConfig`, a map that is not `nil`.
abbrev pub UpstreamGroupsConfig : Type 0
UpstreamGroupsConfig = GoMap GoString (Option UpstreamGroupConfig)

pub record UpstreamConfig : Type 0 where
  pub groups : Option UpstreamGroupsConfig
  pub timeout : ℤ

abbrev pub group_name_default : GoString
group_name_default = str "default"

abbrev pub group_name_private : GoString
group_name_private = str "private"

abbrev pub IndexedMatch : Type 0
IndexedMatch = GoString × Prefix

abbrev pub MatchSet : Type 0
MatchSet = GoMap IndexedMatch GoString

unfoldable pub to_indexed_match : UpstreamMatchConfig → IndexedMatch
to_indexed_match c = (to_lower c.question_domain, c.client)

abbrev pub added : MatchSet → GoString → IndexedMatch → Option GoString → MatchSet × Option Error
added s name key none = (insert key name s, none)
added s name key (some another) = (
  s,
  some (
      if another == name
      then sentinel duplicated
      else errorf "conflicts with group %q" (text another ∷ [])),
)

unfoldable pub add_match : MatchSet → GoString → UpstreamMatchConfig → MatchSet × Option Error
unfolding to_indexed_match
add_match s name m = added s name (to_indexed_match m) (lookup (to_indexed_match m) s)

-- `if err != nil { errs = append(errs, …) }`.
abbrev pub wrapped : String → List ad_guard_dnscli.Errors.Arg → Option Error → Option Error
wrapped f args none = none
wrapped f args (some e) = some (wrapf f args e)

module _ (g : Golibs) where
  abbrev domain_error : UpstreamMatchConfig → Option Error
  domain_error c =
      if c.question_domain == []
      then none
      else wrapped "question_domain: %w" [] (g.validate_domain_name c.question_domain)

  -- `Prefix.Bits`, which is -1 for a prefix that is not valid.
  abbrev int_bits : Prefix → ℤ
  int_bits p = if p.bits_plus_one == 0 then negsuc 0 else pos (bits p)

  abbrev client_error : UpstreamMatchConfig → Option Error
  client_error c =
      if not (c.client == masked c.client)
      then some (
          errorf "client: %s must has at most %d significant bits"
            (prefix c.client ∷ int (int_bits c.client) ∷ []))
      else none

  unfoldable pub validate_values :
      UpstreamMatchConfig → MatchSet → GoString → MatchSet × Option Error
  unfolding add_match
  validate_values c s name =
      let (s', e) = add_match s name c in (s', join (domain_error c ∷ client_error c ∷ e ∷ []))

  abbrev pub is_empty_match : UpstreamMatchConfig → Bool
  is_empty_match c = c.question_domain == [] && c.client == empty_prefix

  unfoldable pub validate_match :
      Option UpstreamMatchConfig → MatchSet → GoString → MatchSet × Option Error
  unfolding validate_values
  validate_match none s name = (s, some (sentinel no_value))
  validate_match (some c) s name =
      if is_empty_match c then (s, some (sentinel empty_value)) else validate_values c s name

  -- The loop over the matches, from the index `i` on.
  unfoldable pub validate_matches :
      ℕ → List (Option UpstreamMatchConfig) → MatchSet → GoString → MatchSet × Errs
  unfolding validate_match
  validate_matches i [] s name = (s, [])
  validate_matches i (m ∷ ms) s name =
      let (s', e) = validate_match m s name in
      let (s'', errs) = validate_matches (suc i) ms s' name in
      (s'', wrapped "match: at index %d: %w" (num i ∷ []) e ∷ errs)

  -- `autodeviceConfig.Validate`.
  unfoldable pub validate_autodevice : Option AutodeviceConfig → Option Error
  validate_autodevice none = some (sentinel no_value)
  validate_autodevice (some c) =
      if not c.enabled
      then none
      else join (
          wrapped "profile_id: %w" [] (error_of (new_profile_id g c.profile_id))
          ∷ wrapped "device_type: %w" [] (error_of (new_device_type c.device_type))
          ∷ [])

  module _ (parse_scheme : GoString → Result GoString) where
    abbrev check_scheme : GoString → Option Error
    check_scheme s =
        if s == scheme_https || s == scheme_tls || s == scheme_quic
        then none
        else some (wrapf "address: scheme: %w, %q" (text s ∷ []) (sentinel bad_enum_value))

    -- `url.Parse` is a parameter, by the scheme of the URL that it returns.
    unfoldable pub validate_autodevice_address : GoString → Option Error
    validate_autodevice_address address = error_of (do
      check (g.not_empty "address" address)
      s ← wrap "address: %w" [] (parse_scheme address)
      check (check_scheme s))

    abbrev is_enabled : Option AutodeviceConfig → Bool
    is_enabled none = false
    is_enabled (some c) = c.enabled

    -- The errors on the group's autodevice and address, by the result of the validation of the
    -- former and whether it is enabled.
    abbrev predefined_errors : GoString → GoString → Option Error → Bool → Errs
    predefined_errors name address (some e) enabled =
        some (wrapf "autodevice: %w" [] e) ∷ g.not_empty "address" address ∷ []
    predefined_errors name address none enabled =
        if not enabled
        then g.not_empty "address" address ∷ []
        else if name == group_name_private
        then some (errorf "autodevice: %q group doesn't support autodevice" (text name ∷ [])) ∷ []
        else validate_autodevice_address address ∷ []

    unfoldable pub validate_as_predefined : Option UpstreamGroupConfig → GoString → Option Error
    unfolding validate_autodevice validate_autodevice_address
    validate_as_predefined none name = some (sentinel no_value)
    validate_as_predefined (some c) name = join (
        g.empty_slice "match" (length c.matches)
        ∷ predefined_errors name c.address (validate_autodevice c.autodevice)
            (is_enabled c.autodevice))

    abbrev custom_error : GoString → Option Error → Bool → Option Error
    custom_error address (some e) enabled = some (wrapf "autodevice: %w" [] e)
    custom_error address none enabled =
        if not enabled then g.not_empty "address" address else validate_autodevice_address address

    unfoldable pub validate_as_custom :
        Option UpstreamGroupConfig → MatchSet → GoString → MatchSet × Option Error
    unfolding validate_matches
    validate_as_custom none s n = (s, some (sentinel no_value))
    validate_as_custom (some c) s n =
        let (s', errs) = validate_matches 0 c.matches s n in
        (
          s',
          join (
              custom_error c.address (validate_autodevice c.autodevice) (is_enabled c.autodevice)
              ∷ errs),
        )

    -- `slices.Contains(predefinedGroups, name)`.
    abbrev pub is_predefined : GoString → Bool
    is_predefined name = name == group_name_default || name == group_name_private

    abbrev pub group_of : UpstreamGroupsConfig → GoString → Option UpstreamGroupConfig
    group_of c name = elim (lookup name c) [ none ↦ none | some o ↦ o ]

    abbrev pub validate_group :
        GoString → Option UpstreamGroupConfig → MatchSet → MatchSet × Option Error
    validate_group name o s =
        if is_predefined name
        then (s, validate_as_predefined o name)
        else validate_as_custom o s name

    -- The loop over the sorted names.
    unfoldable pub validate_groups : UpstreamGroupsConfig → List GoString → MatchSet → Errs
    unfolding validate_as_predefined validate_as_custom
    validate_groups c [] s = []
    validate_groups c (name ∷ names) s =
        let (s', e) = validate_group name (group_of c name) s in
        wrapped "group %q: %w" (text name ∷ []) e ∷ validate_groups c names s'

    abbrev required_error : Option (Option UpstreamGroupConfig) → Option Error
    required_error none = some (errorf "group %q: must be present" (text group_name_default ∷ []))
    required_error (some _) = none

    -- `upstreamGroupsConfig.Validate`.
    unfoldable pub validate_groups_config : Option UpstreamGroupsConfig → Option Error
    unfolding validate_groups
    validate_groups_config none = some (sentinel no_value)
    validate_groups_config (some c) = join (
        required_error (lookup group_name_default c)
        ∷ validate_groups c (sort compare_strings (keys c)) [])

    -- `upstreamConfig.Validate`.
    unfoldable pub validate_upstream : Option UpstreamConfig → Option Error
    unfolding validate_groups_config
    validate_upstream none = some (sentinel no_value)
    validate_upstream (some c) =
        join (
          g.append (g.positive "timeout" c.timeout ∷ []) "groups" (validate_groups_config c.groups))
