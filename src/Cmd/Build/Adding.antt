-- ===== src/Cmd/Build/Adding.antt =====
-- What each kind of group adds to the upstreams, where the library accepts its address.
use ad_guard_dnscli.Base.{
  ◌≡◌, ◌≢◌, refl, sym, ap, ◌∙◌, inl, inr, Bool, true, false, ◌&&◌, Bool-cases, Option, none, some,
  List, [], ◌∷◌, ◌++◌, map, arith, All, All-map, GoString, beq-false, ◌==◌, string_eq, pair_eq,
  if◌then◌else◌,
}
use ad_guard_dnscli.Base.GoMap.{lookup, insert}
use ad_guard_dnscli.Base.Nested.{inner, at-insert}
use ad_guard_dnscli.Errors.{Result, Error, ok}
use ad_guard_dnscli.Netip.{empty_prefix, prefix_eq}
use ad_guard_dnscli.Client.Autodevice.{Upstreams}
use ad_guard_dnscli.Cmd.Upstream.{IndexedMatch, to_indexed_match}
use ad_guard_dnscli.Cmd.Upstream.Unique.{IsUnique, empty_match}
use ad_guard_dnscli.Cmd.Build.{
  ValidGroup, Made, add_default_group, add_private_group, add_autodevice_group, add_common_group,
  general_added, device_conf,
}
use ad_guard_dnscli.Cmd.Build.Devices.{at, add_devices-AddsAll}
use ad_guard_dnscli.Cmd.Build.Statics.{add_static-AddsStatic}
use ad_guard_dnscli.Cmd.Build.Configured.{All-of-map, map-IsUnique}

module _ (u : Upstreams) (parse_url : GoString → Result u.Url) where
  -- Nothing is configured for the pairs.
  abbrev pub Free : List IndexedMatch → Made u parse_url → Type 0
  Free ks ups =
      All (λ k. (at u parse_url k ups.static ≡ none) × (at u parse_url k ups.autodevice ≡ none)) ks

  -- The library accepts the address of the group.
  pub record IsAccepted (opts : u.Options) (c : ValidGroup) : Type 0 where
    pub url : u.Url
    pub parsed : parse_url c.address ≡ ok url
    pub upstream : u.Upstream
    pub addressed : u.address_to_upstream c.address opts ≡ ok upstream

  -- No error, and what is configured stays, but for the pairs of the group and the default one.
  pub record Adds (own : List IndexedMatch) (ups : Made u parse_url)
      (r : Made u parse_url × Option Error) : Type 0 where
    pub fine : r.1 ≡ none
    pub kept :
        (k : IndexedMatch)
        → k ≢ empty_match
        → All (λ j. j ≢ k) own
        → (at u parse_url k r.0.static ≡ at u parse_url k ups.static)
          × (at u parse_url k r.0.autodevice ≡ at u parse_url k ups.autodevice)

  pub private-Adds :
      (own : List IndexedMatch) (opts : u.Options) (c : ValidGroup) (ups : Made u parse_url)
      → IsAccepted opts c
      → Adds own ups (add_private_group u parse_url c opts ups)
  unfolding add_private_group
  private-Adds own opts c ups a =
      rw (a.addressed, add_private_group) (record { fine = refl; kept = λ k p h. (refl, refl) })

  general_added_lem :
      (opts : u.Options) (c : ValidGroup) (ups : Made u parse_url) (a : IsAccepted opts c)
      → general_added u parse_url c opts ups
        ≡ (record ups { general = ups.general ++ a.upstream ∷ [] }, none)
  general_added_lem opts c ups a = rw (a.addressed, general_added) refl

  apart-default :
      (k : IndexedMatch) → k ≢ empty_match → ((empty_prefix == k.1) && ([] == k.0)) ≡ false
  apart-default (d, p) other =
      let apart = beq-false empty_match (d, p) (λ e. other (sym e)) in ground (arith, apart)

  pub default-Adds :
      (own : List IndexedMatch) (opts : u.Options) (c : ValidGroup) (ups : Made u parse_url)
      → IsAccepted opts c
      → Adds own ups (add_default_group u parse_url c opts ups)
  unfolding add_default_group
  default-Adds own opts c ups a = elim (Bool-cases c.autodevice.enabled) [
    | inr off ↦
        rw (off, general_added_lem opts c ups a)
          (record { fine = refl; kept = λ k p h. (refl, refl) })
    | inl on ↦
        let conf = device_conf u parse_url c a.url opts in
        let devices =
          insert empty_prefix (insert [] conf (inner (lookup empty_prefix ups.autodevice)))
            ups.autodevice in
        let kept_at : (k : IndexedMatch)
            → k ≢ empty_match
            → at u parse_url k devices ≡ at u parse_url k ups.autodevice =
          λ k other.
            at-insert empty_prefix k.1 [] k.0 conf ups.autodevice
            ∙ ap (λ b. if b then some conf else at u parse_url k ups.autodevice)
                (apart-default k other) in
        rw (on, a.parsed, general_added_lem opts c (record ups { autodevice = devices }) a)
          (record { fine = refl; kept = λ k other h. (refl, kept_at k other) })
  ]

  pub autodevice-Adds :
      (opts : u.Options) (c : ValidGroup) (ups : Made u parse_url)
      → IsAccepted opts c
      → IsUnique (map to_indexed_match c.matches)
      → Free (map to_indexed_match c.matches) ups
      → Adds (map to_indexed_match c.matches) ups (add_autodevice_group u parse_url c opts ups)
  unfolding add_autodevice_group
  autodevice-Adds opts c ups a unique free =
      let added =
        add_devices-AddsAll u parse_url (device_conf u parse_url c a.url opts) 0 c.matches
          ups.autodevice (map-IsUnique c.matches unique)
          (All-map (λ m p. p.1) c.matches (All-of-map _ c.matches free)) in
      rw (a.parsed, add_autodevice_group)
        (record {
          fine = added.fine;
          kept = λ k other h. (refl, added.kept k (All-of-map (λ j. j ≢ k) c.matches h));
        })

  pub common-Adds :
      (opts : u.Options) (c : ValidGroup) (ups : Made u parse_url)
      → IsAccepted opts c
      → IsUnique (map to_indexed_match c.matches)
      → Free (map to_indexed_match c.matches) ups
      → Adds (map to_indexed_match c.matches) ups (add_common_group u parse_url c opts ups)
  unfolding add_common_group
  common-Adds opts c ups a unique free =
      let added =
        add_static-AddsStatic u parse_url c.address opts a.upstream 0 c.matches ups.static
          a.addressed (map-IsUnique c.matches unique)
          (All-map (λ m p. p.0) c.matches (All-of-map _ c.matches free)) in
      record {
        fine = added.fine;
        kept = λ k other h. (added.kept k (All-of-map (λ j. j ≢ k) c.matches h), refl);
      }

  pub either :
      {own : List IndexedMatch} {ups : Made u parse_url} {x y : Made u parse_url × Option Error}
      (b : Bool)
      → Adds own ups x
      → Adds own ups y
      → Adds own ups (if b then x else y)
  either true p q = p
  either false p q = q
