-- ===== src/ConfigMigrate/GroupLoop.antt =====
-- `migrateTo4` of internal/configmigrate/v4.go: the loop over the upstream groups.
use ad_guard_dnscli.Base.{
  ◌≡◌, ◌≢◌, ◌⊎◌, inl, inr, refl, subst, eq_refl, bytes_eq_iff, string_eq, false, Option, none, some,
  List, [], ◌∷◌, arith, GoString, ◌==◌, All, Any, here, there, Bool-cases,
}
use ad_guard_dnscli.Errors.{Error, Errs, IsNil, All-append_iff, Result-cases}
use ad_guard_dnscli.Golibs.{Golibs}
use ad_guard_dnscli.ConfigMigrate.{
  obj, Fields, end, field, get, put, keys, modify, as_obj, field_val,
}
use ad_guard_dnscli.ConfigMigrate.Versions.{
  autodevice_key, disabled_autodevice, check_group, keep_error, write_group, migrate_groups,
}
use ad_guard_dnscli.ConfigMigrate.Frame.{get-put, get-modify, field_val_iff}

-- The group had no such field, and has the default now.
pub record IsDisabled (k : GoString) (groups groups' : Fields) : Type 0 where
  pub group : Fields
  pub was : get k groups ≡ some (obj group)
  pub lacked : get autodevice_key group ≡ none
  pub now : get k groups' ≡ some (obj (put autodevice_key disabled_autodevice group))

listed : (k : GoString) (names : List GoString) → Any (λ n. n ≡ k) names ⊎ All (λ n. n ≢ k) names
listed k [] = inr tt
listed k (n ∷ ns) = elim (Bool-cases (n == k)) [
  | inl e ↦ inl (here ((bytes_eq_iff n k).0 e))
  | inr e ↦ elim (listed k ns) [
    | inl a ↦ inl (there a)
    | inr b ↦ inr ((λ same. ground (arith, same, bytes_eq_iff n k)), b)
  ]
]

pub keys-absent : (k : GoString) (o : Fields) → All (λ n. n ≢ k) (keys o) → get k o ≡ none
unfolding keys get
keys-absent k end h = refl
keys-absent k (field j v o) (ne, h) = ground (arith, ne, bytes_eq_iff j k, keys-absent k o h)

bytes_ne : (a b : GoString) → (a == b) ≡ false → a ≢ b
bytes_ne a b h e = ground (arith, h, e, bytes_eq_iff a b)

module _ (g : Golibs) where
  -- What is in the list of errors stays in it.
  errors-kept :
      (names : List GoString) (groups : Fields) (errs : Errs)
      → All IsNil (migrate_groups g names groups errs).1
      → All IsNil errs
  unfolding migrate_groups
  errors-kept [] groups errs h = h
  errors-kept (name ∷ names) groups errs h =
      kept (check_group g name (field_val g as_obj groups name)) (
        errors-kept names
          (write_group g name (check_group g name (field_val g as_obj groups name)) groups)
          (keep_error g (check_group g name (field_val g as_obj groups name)) errs) h)
    where
      kept : (e : Option Error) → All IsNil (keep_error g e errs) → All IsNil errs
      kept none h = h
      kept (some e) h = ((All-append_iff errs (some e ∷ [])).0 h).0

  -- A round without an error.
  check_group-none :
      (name : GoString) (groups : Fields)
      → check_group g name (field_val g as_obj groups name) ≡ none
      → (group : Fields) × (get name groups ≡ some (obj group)) × (get autodevice_key group ≡ none)
  check_group-none name groups h = elim (Result-cases (field_val g as_obj groups name)) [
    | inl (group, e) ↦ (group, (field_val_iff g groups name group).0 e, ground (arith, rw e at h))
    | inr (x, e) ↦ absurd (ground arith)
  ]

  -- What the loop does to one group.
  pub data IsLoop (names : List GoString) (groups groups' : Fields) (k : GoString) : Type 0 where
    visited : Any (λ n. n ≡ k) names → IsDisabled k groups groups' → IsLoop names groups groups' k
    skipped : All (λ n. n ≢ k) names → get k groups' ≡ get k groups → IsLoop names groups groups' k

  keep_error-none : (e : Option Error) → All IsNil (keep_error g e []) → e ≡ none
  keep_error-none none h = refl
  keep_error-none (some e) h = absurd (ground arith)

  round-IsLoop :
      (name : GoString) (names : List GoString) (groups groups' : Fields) (k : GoString)
      → ((group : Fields) × (get name groups ≡ some (obj group))
          × (get autodevice_key group ≡ none))
      → IsLoop names (modify name (put autodevice_key disabled_autodevice) groups) groups' k
      → IsLoop (name ∷ names) groups groups' k
  round-IsLoop name names groups groups' k (group, was, lacked) (visited a d) =
      let changed = get-modify name k (put autodevice_key disabled_autodevice) groups in
      let apart : (name == k) ≡ false = elim (Bool-cases (name == k)) [
        | inl same ↦
            let was_k =
              subst (λ n. get n groups ≡ some (obj group)) ((bytes_eq_iff name k).0 same) was in
            absurd (
              ground (
                arith,
                same,
                was_k,
                changed,
                d.was,
                d.lacked,
                get-put autodevice_key autodevice_key disabled_autodevice group,
                eq_refl autodevice_key,
              ))
        | inr other ↦ other
      ] in
      visited (there a) (record {
        group = d.group;
        was = ground (arith, apart, changed, d.was);
        lacked = d.lacked;
        now = d.now;
      })
  round-IsLoop name names groups groups' k (group, was, lacked) (skipped a same) =
      let changed = get-modify name k (put autodevice_key disabled_autodevice) groups in
      elim (Bool-cases (name == k)) [
        | inl e ↦
            let eq = (bytes_eq_iff name k).0 e in
            let was_k = subst (λ n. get n groups ≡ some (obj group)) eq was in
            visited (here eq) (record {
              group = group;
              was = was_k;
              lacked = lacked;
              now = ground (arith, e, same, changed, was_k);
            })
        | inr e ↦ skipped ((λ eq. bytes_ne name k e eq), a) (ground (arith, e, same, changed))
      ]

  pub migrate_groups-IsLoop :
      (names : List GoString) (groups : Fields) (k : GoString)
      → All IsNil (migrate_groups g names groups []).1
      → IsLoop names groups (migrate_groups g names groups []).0 k
  unfolding migrate_groups
  migrate_groups-IsLoop [] groups k h = skipped tt refl
  migrate_groups-IsLoop (name ∷ names) groups k h =
      let e = check_group g name (field_val g as_obj groups name) in
      let fine : e ≡ none =
        keep_error-none e (errors-kept names (write_group g name e groups) (keep_error g e []) h) in
      rw (fine, migrate_groups)
        (round-IsLoop name names groups _ k (check_group-none name groups fine) (
          migrate_groups-IsLoop names (modify name (put autodevice_key disabled_autodevice) groups)
            k (rw (fine, migrate_groups) at h)))
