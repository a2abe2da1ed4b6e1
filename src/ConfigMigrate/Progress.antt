-- ===== src/ConfigMigrate/Progress.antt =====
-- `migrate` of internal/configmigrate/migrator.go: the loop over the migrations.
use ad_guard_dnscli.Base.{
  ℕ, zero, suc, ◌+◌, ◌-◌, ◌≤◌, ◌≡◌, ◌⊎◌, pos, inl, inr, eq_refl, string_eq, GoString, false, Option,
  none, some, List, [], ◌∷◌, subst, arith, Option-cases, take, drop, length, length-take,
  length-drop, ltb, ◌||◌,
}
use ad_guard_dnscli.Base.Compare.{compare_strings}
use ad_guard_dnscli.Base.Sort.{sort}
use ad_guard_dnscli.Errors.{Error, Result, ok, err, join}
use ad_guard_dnscli.Golibs.{Golibs}
use ad_guard_dnscli.ConfigMigrate.{Value, int, version, Fields, get, keys, as_obj, field_chain_val}
use ad_guard_dnscli.ConfigMigrate.Versions.{
  schema_version_key, dns_key, upstream_key, groups_key, bind_retry_key, bind_retry_default,
  pending_requests_key, pending_requests_default, Migrated, migrate_to2, migrate_to3, migrate_to4,
  migrate_found, finish_to4, with_groups, migrate_groups,
}
use ad_guard_dnscli.ConfigMigrate.Frame.{get-put}
use ad_guard_dnscli.ConfigMigrate.Additions.{
  IsAddition, addition, failure, migrate_to2-IsAddition, migrate_to3-IsAddition,
}
use ad_guard_dnscli.ConfigMigrate.Migrate.{Outcome, returns, migrate_loop, migrate, version_latest}

-- The version field of a configuration, as an integer of a file or as a migration sets it.
abbrev pub HasVersion : ℕ → Fields → Type 0
HasVersion n conf =
    (get schema_version_key conf ≡ some (version n))
    ⊎ (get schema_version_key conf ≡ some (int (pos n)))

-- A successful step sets the version.
abbrev pub SetsVersion : ℕ → (Fields → Migrated) → Type 0
SetsVersion n step = (conf : Fields) → (step conf).1 ≡ none → HasVersion n (step conf).0

-- The steps of the versions after `cur`, in order.
data AreSteps : ℕ → List (Option (Fields → Migrated)) → Type 0 where
  last : {cur : ℕ} → AreSteps cur []
  next :
      {cur : ℕ} {step : Fields → Migrated} {rest : List (Option (Fields → Migrated))}
      → SetsVersion (suc cur) step
      → AreSteps (suc cur) rest
      → AreSteps cur (some step ∷ rest)

-- A run that does not panic, and that has set the version if it has no error.
pub data Reaches (targ : ℕ) : Outcome → Type 0 where
  reached : {conf : Fields} → HasVersion targ conf → Reaches targ (returns conf none)
  stopped : {conf : Fields} {e : Error} → Reaches targ (returns conf (some e))

take-AreSteps :
    {cur : ℕ} {ms : List (Option (Fields → Migrated))}
    → (n : ℕ) → AreSteps cur ms
    → AreSteps cur (take n ms)
take-AreSteps zero s = last
take-AreSteps (suc n) last = last
take-AreSteps (suc n) (next p s) = next p (take-AreSteps n s)

drop-AreSteps :
    {cur : ℕ} {ms : List (Option (Fields → Migrated))}
    → (n : ℕ) → AreSteps cur ms
    → AreSteps (n + cur) (drop n ms)
drop-AreSteps {cur = cur} {ms = ms} zero s =
    subst (λ k. AreSteps k ms) {x = cur} {y = 0 + cur} (omega arith) s
drop-AreSteps (suc n) last = last
drop-AreSteps {cur = cur} (suc n) (next {rest = rest} p s) =
    subst (λ k. AreSteps k (drop n rest)) {x = n + suc cur} {y = suc n + cur} (omega arith)
      (drop-AreSteps n s)

-- The loop, from a configuration that has the version of its start.
loop-Reaches :
    (cur : ℕ) (ms : List (Option (Fields → Migrated))) (conf : Fields)
    → AreSteps cur ms
    → HasVersion cur conf
    → Reaches (length ms + cur) (migrate_loop cur ms conf)
unfolding migrate_loop
loop-Reaches cur [] conf last v =
    reached (subst (λ n. HasVersion n conf) {x = cur} {y = 0 + cur} (omega arith) v)
loop-Reaches cur (none ∷ rest) conf s v = elim s [ ]
loop-Reaches cur (some step ∷ rest) conf (next p s) v = elim (Option-cases ((step conf).1)) [
  | inl e ↦ rw e (
      subst (λ n. Reaches n (migrate_loop (suc cur) rest (step conf).0)) {x = length rest + suc cur}
        {y = suc (length rest) + cur} (omega arith)
        (loop-Reaches (suc cur) rest (step conf).0 s (p conf e)))
  | inr (x, e) ↦ rw e stopped
]

module _ (g : Golibs) where
  additions-SetsVersion :
      (key : GoString) (value : Value) (n : ℕ) (conf : Fields) (m : Migrated)
      → IsAddition key value n conf m
      → m.1 ≡ none
      → HasVersion n m.0
  additions-SetsVersion key value n conf m (addition a) h = inl a.versioned
  additions-SetsVersion key value n conf m (failure f) h = absurd (ground arith)

  finish_to4-HasVersion :
      (conf groups : Fields) (o : Option Error)
      → (finish_to4 g conf groups o).1 ≡ none
      → HasVersion 4 (finish_to4 g conf groups o).0
  finish_to4-HasVersion conf groups none h = inl (
      ground (
        arith,
        get-put schema_version_key schema_version_key (version 4) (with_groups g groups conf),
        eq_refl schema_version_key,
      ))
  finish_to4-HasVersion conf groups (some e) h = absurd (ground arith)

  migrate_found-HasVersion :
      (conf : Fields) (r : Result Fields)
      → (migrate_found g conf r).1 ≡ none
      → HasVersion 4 (migrate_found g conf r).0
  migrate_found-HasVersion conf (err e) h = absurd (ground arith)
  migrate_found-HasVersion conf (ok groups) h =
      let (groups', errs) = migrate_groups g (sort compare_strings (keys groups)) groups [] in
      finish_to4-HasVersion conf groups' (join errs) h

  migrate_to4-SetsVersion : SetsVersion 4 (migrate_to4 g)
  unfolding migrate_to4
  migrate_to4-SetsVersion conf h =
      migrate_found-HasVersion conf
        (field_chain_val g as_obj conf dns_key (upstream_key ∷ groups_key ∷ [])) h

  migrations-AreSteps :
      AreSteps 1 (some (migrate_to2 g) ∷ some (migrate_to3 g) ∷ some (migrate_to4 g) ∷ [])
  migrations-AreSteps =
      next
        (λ conf.
          additions-SetsVersion bind_retry_key bind_retry_default 2 conf (migrate_to2 g conf)
            (migrate_to2-IsAddition g conf))
        (next
          (λ conf.
            additions-SetsVersion pending_requests_key pending_requests_default 3 conf
              (migrate_to3 g conf) (migrate_to3-IsAddition g conf))
          (next migrate_to4-SetsVersion last))

  -- From any version up to the latest one, `migrate` does not panic, and a configuration that it
  -- returns without an error has the target version.
  pub migrate-Reaches :
      (conf : Fields) (curr targ : ℕ)
      → 1 ≤ curr
      → curr ≤ targ
      → targ ≤ version_latest
      → HasVersion curr conf
      → Reaches targ (migrate g conf curr targ)
  unfolding migrate
  migrate-Reaches conf zero targ h k m v = absurd (omega arith)
  migrate-Reaches conf (suc n) targ h k m v =
      let steps =
        drop n (some (migrate_to2 g) ∷ some (migrate_to3 g) ∷ some (migrate_to4 g) ∷ []) in
      let taken = take (targ - suc n) steps in
      let start : AreSteps (suc n) steps =
        subst (λ i. AreSteps i steps) {x = n + 1} {y = suc n} (omega arith)
          (drop-AreSteps n migrations-AreSteps) in
      let long : length taken + suc n ≡ targ = omega (
        arith,
        length-take (targ - suc n) steps (
            omega (
              arith,
              length-drop n
                  (some (migrate_to2 g) ∷ some (migrate_to3 g) ∷ some (migrate_to4 g) ∷ []),
            )),
      ) in
      let looped =
        subst (λ i. Reaches i (migrate_loop (suc n) taken conf)) long
          (loop-Reaches (suc n) taken conf (take-AreSteps (targ - suc n) start) v) in
      let in_order : (ltb targ (suc n) || ltb version_latest targ) ≡ false = ground (arith, k, m) in
      rw in_order looped
