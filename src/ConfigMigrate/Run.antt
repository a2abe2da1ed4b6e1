-- ===== src/ConfigMigrate/Run.antt =====
-- `Migrator.Run`, `writeMigrated` and `backupConfig` of internal/configmigrate/migrator.go, and
-- `readYAML` of yaml.go. The file system, the YAML library and the clock are arguments; what the
-- migrator does to the file system is returned as the list of its calls and their results.
pub mod Effects
use ad_guard_dnscli.Base.{
  ℕ, Bool, Option, none, some, List, [], ◌∷◌, ◌++◌, GoString, nat_beq, if◌then◌else◌,
}
use ad_guard_dnscli.Errors.{Error, wrapf, Result, ok, err, ◌>>=◌, wrap, is_not_exist}
use ad_guard_dnscli.Golibs.{Golibs}
use ad_guard_dnscli.ConfigMigrate.{Fields}
use ad_guard_dnscli.ConfigMigrate.Migrate.{Outcome, returns, panics, get_version, migrate}

-- The paths that the migrator uses, by the names that are joined to the working directory.
pub data FilePath : Type 0 where
  conf_path : FilePath
  backup_dir : (curr targ : ℕ) (time : GoString) → FilePath
  backup_path : (curr targ : ℕ) (time : GoString) → FilePath

-- A call that changes the file system, with the error that it returned.
pub data Call : Type 0 where
  mkdir : FilePath → Option Error → Call
  write_file : FilePath → GoString → Option Error → Call

pub record Env : Type 0 where
  pub read_file : FilePath → Result GoString
  pub unmarshal : GoString → Result Fields
  pub encode : Fields → Result GoString
  pub close_encoder : Option Error
  pub mkdir_error : FilePath → Option Error
  pub write_error : FilePath → GoString → Option Error
  -- The current time in the format of the backups' names.
  pub now : GoString

-- The calls that were made, and the error or the panic at the end.
pub data Ended : Type 0 where
  ended : List Call → Option Error → Ended
  crashed : Ended

module _ (env : Env) where
  unfoldable pub read_yaml : FilePath → Result (Fields × GoString)
  read_yaml path = do
    contents ← wrap "reading yaml document: %w" [] (env.read_file path)
    o ← wrap "decoding yaml document: %w" [] (env.unmarshal contents)
    ok (o, contents)

  abbrev wrote : FilePath → GoString → Option Error → List Call × Option Error
  wrote path contents none = (write_file path contents none ∷ [], none)
  wrote path contents (some e) = (
    write_file path contents (some e) ∷ [],
    some (wrapf "moving original configuration file: %w" [] e),
  )

  abbrev backup_in : ℕ → ℕ → GoString → Option Error → List Call × Option Error
  backup_in curr targ orig_data (some e) = (
    mkdir (backup_dir curr targ env.now) (some e) ∷ [],
    some (wrapf "creating backup directory: %w" [] e),
  )
  backup_in curr targ orig_data none =
      let path = backup_path curr targ env.now in
      let (calls, e) = wrote path orig_data (env.write_error path orig_data) in
      (mkdir (backup_dir curr targ env.now) none ∷ calls, e)

  unfoldable pub backup_config : GoString → ℕ → ℕ → List Call × Option Error
  backup_config orig_data curr targ =
      backup_in curr targ orig_data (env.mkdir_error (backup_dir curr targ env.now))

  abbrev wrap_write : Option Error → Option Error
  wrap_write none = none
  wrap_write (some e) = some (wrapf "writing migrated configuration: %w" [] e)

  abbrev write_after : GoString → List Call × Option Error → List Call × Option Error
  write_after contents (calls, some e) =
      (calls, some (wrapf "creating backup of configuration file: %w" [] e))
  write_after contents (calls, none) = (
    calls ++ write_file conf_path contents (env.write_error conf_path contents) ∷ [],
    wrap_write (env.write_error conf_path contents),
  )

  abbrev write_encoded :
      GoString → ℕ → ℕ → Result GoString → Option Error → List Call × Option Error
  write_encoded orig_data curr targ (err e) c =
      ([], some (wrapf "encoding migrated configuration: %w" [] e))
  write_encoded orig_data curr targ (ok contents) (some e) =
      ([], some (wrapf "closing the encoder: %w" [] e))
  write_encoded orig_data curr targ (ok contents) none =
      write_after contents (backup_config orig_data curr targ)

  unfoldable pub write_migrated : Fields → GoString → ℕ → ℕ → List Call × Option Error
  unfolding backup_config
  write_migrated conf orig_data curr targ =
      write_encoded orig_data curr targ (env.encode conf) env.close_encoder

module _ (g : Golibs) (env : Env) where
  abbrev migrating : Option Error → Option Error
  migrating e = g.annotate e "migrating: %w" []

  abbrev write_outcome : GoString → ℕ → ℕ → Outcome → Ended
  write_outcome orig_data curr targ panics = crashed
  write_outcome orig_data curr targ (returns conf (some e)) = ended [] (migrating (some e))
  write_outcome orig_data curr targ (returns conf none) =
      let (calls, e) = write_migrated env conf orig_data curr targ in ended calls (migrating e)

  abbrev run_version : Fields → GoString → ℕ → Result ℕ → Ended
  run_version conf orig_data target (err e) = ended [] (migrating (some e))
  run_version conf orig_data target (ok current) =
      if nat_beq current target
      then ended [] (migrating none)
      else write_outcome orig_data current target (migrate g conf current target)

  abbrev run_read : ℕ → Result (Fields × GoString) → Ended
  run_read target (err e) =
      if is_not_exist e then ended [] (migrating none) else ended [] (migrating (some e))
  run_read target (ok (conf, orig_data)) = run_version conf orig_data target (get_version g conf)

  unfoldable pub run : ℕ → Ended
  unfolding read_yaml
  run target = run_read target (read_yaml env conf_path)
