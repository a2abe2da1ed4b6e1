-- ===== src/ConfigMigrate/Run/Effects.antt =====
-- What `Migrator.Run` of internal/configmigrate/migrator.go does to the file system.
use ad_guard_dnscli.Base.{
  ℕ, ◌≤◌, ◌≡◌, ◌≢◌, inl, inr, refl, ap, subst, ◌∙◌, true, Option, none, some, List, [], ◌∷◌, arith,
  GoString, All, nat_beq, Bool-cases, pos, pos_part, ℤ, negsuc, Option-cases, nat_eq,
}
use ad_guard_dnscli.Errors.{
  Error, Result, ok, err, is_not_exist, wrapf, check, ◌>>◌, >>=-eq-ok, Result-cases,
}
use ad_guard_dnscli.Golibs.{Golibs}
use ad_guard_dnscli.ConfigMigrate.{Fields, int, get, field_val, as_int}
use ad_guard_dnscli.ConfigMigrate.Frame.{field_val-int}
use ad_guard_dnscli.ConfigMigrate.Versions.{schema_version_key}
use ad_guard_dnscli.ConfigMigrate.Migrate.{Outcome, get_version, migrate, version_latest}
use ad_guard_dnscli.ConfigMigrate.Progress.{HasVersion, Reaches, reached, stopped, migrate-Reaches}
use ad_guard_dnscli.ConfigMigrate.Run.{
  FilePath, conf_path, backup_dir, backup_path, Call, mkdir, write_file, Env, Ended, ended, run,
  read_yaml, write_migrated, backup_config, write_encoded, write_after, run_version, write_outcome,
}

-- The path that a call changes.
abbrev pub path_of : Call → FilePath
path_of (mkdir path e) = path
path_of (write_file path contents e) = path

-- The calls that leave the configuration file alone.
abbrev LeavesFile : List Call → Type 0
LeavesFile calls = All (λ c. path_of c ≢ conf_path) calls

-- The calls up to the write of the configuration file, where nothing before has failed.
abbrev replacing : ℕ → ℕ → GoString → GoString → GoString → Option Error → List Call
replacing curr targ time orig contents e =
    mkdir (backup_dir curr targ time) none
    ∷ write_file (backup_path curr targ time) orig none
    ∷ write_file conf_path contents e
    ∷ []

module _ (g : Golibs) (env : Env) where
  -- The ways in which a write of the migrated configuration ends: nothing but the backup is
  -- written, or the backup is complete and then the file is written.
  pub data IsWrite (conf : Fields) (orig : GoString) (curr targ : ℕ)
      : List Call × Option Error → Type 0 where
    unwritten :
        {calls : List Call} {e : Error}
        → LeavesFile calls
        → IsWrite conf orig curr targ (calls, some e)
    failed_write :
        {contents : GoString} {e e' : Error}
        → IsWrite conf orig curr targ (replacing curr targ env.now orig contents (some e), some e')
    written :
        {contents : GoString}
        → env.encode conf ≡ ok contents
        → IsWrite conf orig curr targ (replacing curr targ env.now orig contents none, none)

  module _ (conf : Fields) (orig : GoString) (curr targ : ℕ) where
    after-IsWrite :
        (contents : GoString) (a b c : Option Error)
        → env.encode conf ≡ ok contents
        → env.mkdir_error (backup_dir curr targ env.now) ≡ a
        → env.write_error (backup_path curr targ env.now) orig ≡ b
        → env.write_error conf_path contents ≡ c
        → IsWrite conf orig curr targ (write_after env contents (backup_config env orig curr targ))
    unfolding backup_config
    after-IsWrite contents (some e) b c i h k l = rw h (unwritten (ground arith))
    after-IsWrite contents none (some e) c i h k l = rw (h, k) (unwritten (ground arith))
    after-IsWrite contents none none (some e) i h k l = rw (h, k, l) failed_write
    after-IsWrite contents none none none i h k l = rw (h, k, l) (written i)

    write_encoded-IsWrite :
        (r : Result GoString) (c : Option Error)
        → env.encode conf ≡ r
        → IsWrite conf orig curr targ (write_encoded env orig curr targ r c)
    write_encoded-IsWrite (err e) c h = unwritten (ground arith)
    write_encoded-IsWrite (ok contents) (some e) h = unwritten (ground arith)
    write_encoded-IsWrite (ok contents) none h = after-IsWrite contents _ _ _ h refl refl refl

  -- The ways in which a run to the version `target` ends.
  pub data IsRun (target : ℕ) : Ended → Type 0 where
    missing :
        {e : Error}
        → env.read_file conf_path ≡ err e
        → is_not_exist e ≡ true
        → IsRun target (ended [] none)
    undecodable :
        {orig : GoString} {e : Error}
        → env.read_file conf_path ≡ ok orig
        → env.unmarshal orig ≡ err e
        → is_not_exist e ≡ true
        → IsRun target (ended [] none)
    up_to_date :
        {orig : GoString} {conf : Fields}
        → env.read_file conf_path ≡ ok orig
        → env.unmarshal orig ≡ ok conf
        → HasVersion target conf
        → IsRun target (ended [] none)
    unchanged :
        {calls : List Call} {e : Error} → LeavesFile calls → IsRun target (ended calls (some e))
    broken :
        {orig contents : GoString} {curr : ℕ} {e e' : Error}
        → env.read_file conf_path ≡ ok orig
        → IsRun target (ended (replacing curr target env.now orig contents (some e)) (some e'))
    migrated :
        {orig contents : GoString} {conf' : Fields} {curr : ℕ}
        → env.read_file conf_path ≡ ok orig
        → HasVersion target conf'
        → env.encode conf' ≡ ok contents
        → IsRun target (ended (replacing curr target env.now orig contents none) none)

  annotate-some : (e : Error) → (e' : Error) × (g.annotate (some e) "migrating: %w" [] ≡ some e')
  annotate-some e = elim (Option-cases (g.annotate (some e) "migrating: %w" [])) [
    | inl h ↦ absurd (ground (arith, g.annotate_iff (some e) "migrating: %w" []))
    | inr x ↦ x
  ]

  annotate-none : g.annotate none "migrating: %w" [] ≡ none
  annotate-none = (g.annotate_iff none "migrating: %w" []).1 refl

  failing :
      (target : ℕ) (calls : List Call) (e : Error)
      → LeavesFile calls
      → IsRun target (ended calls (g.annotate (some e) "migrating: %w" []))
  failing target calls e h = let (e', eq) = annotate-some e in rw eq (unchanged h)

  module _ (orig : GoString) (read : env.read_file conf_path ≡ ok orig) (curr : ℕ) where
    ended-IsRun :
        (target : ℕ) (conf : Fields) (w : List Call × Option Error)
        → HasVersion target conf
        → IsWrite conf orig curr target w
        → IsRun target (ended w.0 (g.annotate w.1 "migrating: %w" []))
    ended-IsRun target conf w v (unwritten {calls = calls} {e = e} h) = failing target calls e h
    ended-IsRun target conf w v (failed_write {e' = e}) =
        let (e', eq) = annotate-some e in rw eq (broken read)
    ended-IsRun target conf w v (written h) = rw annotate-none (migrated read v h)

    outcome-IsRun :
        (target : ℕ) (o : Outcome)
        → Reaches target o
        → IsRun target (write_outcome g env orig curr target o)
    unfolding write_migrated
    outcome-IsRun target o (reached {conf = conf} v) =
        ended-IsRun target conf _ v
          (write_encoded-IsWrite conf orig curr target (env.encode conf) env.close_encoder refl)
    outcome-IsRun target o (stopped {e = e}) = failing target [] e (ground arith)

  in_range-HasVersion :
      (conf : Fields) (v : ℤ) (n : ℕ)
      → get schema_version_key conf ≡ some (int v)
      → (check (g.in_range "schema_version" v (pos 1) (pos version_latest)) >> ok (pos_part v))
        ≡ ok n
      → HasVersion n conf × (1 ≤ n) × (n ≤ version_latest)
  in_range-HasVersion conf (negsuc m) n h k =
      absurd
        (ground (arith, g.in_range_iff "schema_version" (negsuc m) (pos 1) (pos version_latest)))
  in_range-HasVersion conf (pos m) n h k =
      let fits : (m ≡ n) × (1 ≤ m) × (m ≤ version_latest) =
        ground (arith, g.in_range_iff "schema_version" (pos m) (pos 1) (pos version_latest)) in
      (inr (h ∙ ap (λ i. some (int (pos i))) fits.0), omega (arith, fits), omega (arith, fits))

  get_version-HasVersion :
      (conf : Fields) (n : ℕ)
      → get_version g conf ≡ ok n
      → (HasVersion n conf) × (1 ≤ n) × (n ≤ version_latest)
  unfolding get_version
  get_version-HasVersion conf n h =
      let (v, e, k) = >>=-eq-ok (field_val g as_int conf schema_version_key) _ h in
      in_range-HasVersion conf v n (field_val-int g conf schema_version_key v e) k

  version-IsRun :
      (orig : GoString) (conf : Fields) (r : Result ℕ)
      → env.read_file conf_path ≡ ok orig
      → env.unmarshal orig ≡ ok conf
      → get_version g conf ≡ r
      → IsRun version_latest (run_version g env conf orig version_latest r)
  version-IsRun orig conf (err e) h k l = failing version_latest [] e (ground arith)
  version-IsRun orig conf (ok curr) h k l =
      let (v, lo, hi) = get_version-HasVersion conf curr l in
      elim (Bool-cases (nat_beq curr version_latest)) [
        | inl same ↦
            rw (same, annotate-none)
              (up_to_date h k (subst (λ n. HasVersion n conf) (ground (arith, same)) v))
        | inr other ↦ rw other (
            outcome-IsRun orig h curr version_latest (migrate g conf curr version_latest)
              (migrate-Reaches g conf curr version_latest lo hi (ground arith) v))
      ]

  -- A run to the latest version, with any file system, YAML library and clock, does not panic. It
  -- writes the configuration file only after the directory of the backup and a copy of the original
  -- contents have been written. Without an error, either nothing was changed, as the file is missing
  -- or has that version, or the file was written with the encoding of a configuration of that
  -- version. (An error of the YAML library which says that a file is missing counts as a missing
  -- file.)
  pub run-IsRun : IsRun version_latest (run g env version_latest)
  unfolding run read_yaml is_not_exist
  run-IsRun = elim (Result-cases (env.read_file conf_path)) [
    | inr (e, h) ↦ rw h (elim (Bool-cases (is_not_exist e)) [
      | inl b ↦ rw (b, annotate-none) (missing h b)
      | inr b ↦
          rw b (failing version_latest [] (wrapf "reading yaml document: %w" [] e) (ground arith))
    ])
    | inl (orig, h) ↦ rw h (elim (Result-cases (env.unmarshal orig)) [
      | inl (conf, k) ↦ rw k (version-IsRun orig conf (get_version g conf) h k refl)
      | inr (e, k) ↦ rw k (elim (Bool-cases (is_not_exist e)) [
        | inl b ↦ rw (b, annotate-none) (undecodable h k b)
        | inr b ↦
            rw b
              (failing version_latest [] (wrapf "decoding yaml document: %w" [] e) (ground arith))
      ])
    ])
  ]
