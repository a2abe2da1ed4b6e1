-- ===== src/ConfigMigrate/Groups.antt =====
-- `migrateTo4` of internal/configmigrate/v4.go: the whole migration.
use ad_guard_dnscli.Base.{
  ◌≡◌, ◌≢◌, ◌⊎◌, inl, inr, ◌∙◌, bytes_eq, bytes_eq_iff, string_eq, none, some, [], ◌∷◌, arith,
  GoString, All, Option-cases,
}
use ad_guard_dnscli.Base.Compare.{compare_strings}
use ad_guard_dnscli.Base.Sort.{sort, All-of-sort}
use ad_guard_dnscli.Errors.{ok, IsNil, join, join_iff, Result-cases}
use ad_guard_dnscli.Golibs.{Golibs}
use ad_guard_dnscli.ConfigMigrate.{obj, version, Fields, get, keys, modify, as_obj, field_chain_val}
use ad_guard_dnscli.ConfigMigrate.Versions.{
  schema_version_key, dns_key, upstream_key, groups_key, migrate_groups, migrate_found, migrate_to4,
}
use ad_guard_dnscli.ConfigMigrate.Frame.{get-put, get-modify, field_chain_val-objects}
use ad_guard_dnscli.ConfigMigrate.GroupLoop.{
  IsDisabled, visited, skipped, keys-absent, migrate_groups-IsLoop,
}

module _ (g : Golibs) where
  -- What the last migration does: the groups are at dns.upstream.groups.
  pub record DisablesAutodevice (conf conf' : Fields) : Type 0 where
    pub dns : Fields
    pub upstream : Fields
    pub groups : Fields
    pub had_dns : get dns_key conf ≡ some (obj dns)
    pub had_upstream : get upstream_key dns ≡ some (obj upstream)
    pub had_groups : get groups_key upstream ≡ some (obj groups)
    pub dns' : Fields
    pub upstream' : Fields
    pub groups' : Fields
    pub has_dns : get dns_key conf' ≡ some (obj dns')
    pub has_upstream : get upstream_key dns' ≡ some (obj upstream')
    pub has_groups : get groups_key upstream' ≡ some (obj groups')
    pub disabled :
        (k : GoString)
        → IsDisabled k groups groups' ⊎ ((get k groups ≡ none) × (get k groups' ≡ none))
    pub versioned : get schema_version_key conf' ≡ some (version 4)
    pub upstream_kept : (k : GoString) → k ≢ groups_key → get k upstream' ≡ get k upstream
    pub dns_kept : (k : GoString) → k ≢ upstream_key → get k dns' ≡ get k dns
    pub conf_kept : (k : GoString) → k ≢ schema_version_key → k ≢ dns_key → get k conf' ≡ get k conf

  migrate_groups-IsDisabled :
      (groups : Fields) (k : GoString)
      → All IsNil (migrate_groups g (sort compare_strings (keys groups)) groups []).1
      → IsDisabled k groups (migrate_groups g (sort compare_strings (keys groups)) groups []).0
        ⊎ ((get k groups ≡ none)
            × (get k (migrate_groups g (sort compare_strings (keys groups)) groups []).0 ≡ none))
  migrate_groups-IsDisabled groups k h =
      elim (migrate_groups-IsLoop g (sort compare_strings (keys groups)) groups k h) [
        | visited a d ↦ inl d
        | skipped a same ↦
            let gone =
              keys-absent k groups (All-of-sort (λ n. n ≢ k) compare_strings (keys groups) a) in
            inr (gone, same ∙ gone)
      ]

  found-DisablesAutodevice :
      (conf groups : Fields)
      → ((dns up : Fields) × (get dns_key conf ≡ some (obj dns))
          × (get upstream_key dns ≡ some (obj up))
          × (get groups_key up ≡ some (obj groups)))
      → (migrate_found g conf (ok groups)).1 ≡ none
      → DisablesAutodevice conf (migrate_found g conf (ok groups)).0
  unfolding bytes_eq
  found-DisablesAutodevice conf groups (dns, up, d, u, gr) h =
      let (groups', errs) = migrate_groups g (sort compare_strings (keys groups)) groups [] in
      let clean : join errs ≡ none = elim (Option-cases (join errs)) [
        | inl e ↦ e
        | inr (e, eq) ↦ absurd (ground arith)
      ] in
      let set_up : Fields → Fields = λ o. modify groups_key (λ _. groups') o in
      let set_dns : Fields → Fields = λ o. modify upstream_key set_up o in
      rw clean (record {
        dns = dns;
        upstream = up;
        groups = groups;
        had_dns = d;
        had_upstream = u;
        had_groups = gr;
        dns' = set_dns dns;
        upstream' = set_up up;
        groups' = groups';
        has_dns = ground (
          arith,
          d,
          get-put schema_version_key dns_key (version 4) (modify dns_key set_dns conf),
          get-modify dns_key dns_key set_dns conf,
        );
        has_upstream = ground (arith, u, get-modify upstream_key upstream_key set_up dns);
        has_groups = ground (arith, gr, get-modify groups_key groups_key (λ _. groups') up);
        disabled = λ k. migrate_groups-IsDisabled groups k ((join_iff errs).0 clean);
        versioned = ground (
          arith,
          get-put schema_version_key schema_version_key (version 4) (modify dns_key set_dns conf),
        );
        upstream_kept = λ k ne.
            ground
              (arith, ne, get-modify groups_key k (λ _. groups') up, bytes_eq_iff groups_key k);
        dns_kept = λ k ne.
            ground (arith, ne, get-modify upstream_key k set_up dns, bytes_eq_iff upstream_key k);
        conf_kept = λ k ne ne'. ground (
          arith,
          ne,
          ne',
          get-put schema_version_key k (version 4) (modify dns_key set_dns conf),
          get-modify dns_key k set_dns conf,
          bytes_eq_iff schema_version_key k,
          bytes_eq_iff dns_key k,
        );
      })

  -- After `migrateTo4` without an error, every upstream group, none of which had a field
  -- `autodevice` before, has the disabled default of it and its other fields as before; there are
  -- no other groups, the version is 4, and all that is outside the groups is as before.
  pub migrate_to4-DisablesAutodevice :
      (conf : Fields)
      → (migrate_to4 g conf).1 ≡ none
      → DisablesAutodevice conf (migrate_to4 g conf).0
  unfolding migrate_to4
  migrate_to4-DisablesAutodevice conf h =
      elim (Result-cases (field_chain_val g as_obj conf dns_key (upstream_key ∷ groups_key ∷ []))) [
        | inl (groups, e) ↦ rw e (
            found-DisablesAutodevice conf groups
              (field_chain_val-objects g conf dns_key upstream_key groups_key groups e) (rw e at h))
        | inr (er, e) ↦ absurd (ground arith)
      ]
