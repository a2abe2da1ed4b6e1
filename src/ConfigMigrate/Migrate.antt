-- ===== src/ConfigMigrate/Migrate.antt =====
-- `getVersion` and `migrate` of internal/configmigrate/migrator.go.
use ad_guard_dnscli.Base.{
  ℕ, suc, ◌+◌, ◌-◌, ◌||◌, Option, none, some, List, [], ◌∷◌, pos, ltb, if◌then◌else◌, take, drop,
  pos_part,
}
use ad_guard_dnscli.Errors.{Error, wrapf, num, Result, ok, ◌>>=◌, ◌>>◌, check}
use ad_guard_dnscli.Golibs.{Golibs}
use ad_guard_dnscli.ConfigMigrate.{Fields, as_int, field_val}
use ad_guard_dnscli.ConfigMigrate.Versions.{
  Migrated, schema_version_key, migrate_to2, migrate_to3, migrate_to4,
}

abbrev pub version_initial : ℕ
version_initial = 1

abbrev pub version_latest : ℕ
version_latest = 4

-- What a call that can panic leaves: the object and the error, or nothing.
pub data Outcome : Type 0 where
  returns : Fields → Option Error → Outcome
  panics : Outcome

-- The loop, from the version `cur` on; a call of a `nil` function panics.
unfoldable pub migrate_loop : ℕ → List (Option (Fields → Migrated)) → Fields → Outcome
migrate_loop cur [] conf = returns conf none
migrate_loop cur (none ∷ rest) conf = panics
migrate_loop cur (some step ∷ rest) conf = elim ((step conf).1) [
  | some e ↦
      returns (step conf).0
        (some (wrapf "upgrading schema %d to %d: %w" (num cur ∷ num (cur + 1) ∷ []) e))
  | none ↦ migrate_loop (suc cur) rest (step conf).0
]

module _ (g : Golibs) where
  unfoldable pub get_version : Fields → Result ℕ
  get_version conf = do
    ver_int ← field_val g as_int conf schema_version_key
    check (g.in_range "schema_version" ver_int (pos version_initial) (pos version_latest))
    ok (pos_part ver_int)

  -- The array of migrations; a `nil` function is `none`.
  abbrev pub migrations : List (Option (Fields → Migrated))
  migrations = none ∷ some (migrate_to2 g) ∷ some (migrate_to3 g) ∷ some (migrate_to4 g) ∷ []

  -- `migrations[curr:targ]` panics if the bounds are out of order or out of range.
  unfoldable pub migrate : Fields → ℕ → ℕ → Outcome
  unfolding migrate_loop
  migrate conf curr targ =
      if ltb targ curr || ltb version_latest targ
      then panics
      else migrate_loop curr (take (targ - curr) (drop curr migrations)) conf
