-- ===== src/Migrations.antt =====
-- The migrations of a database: storage/migrations/__init__.py.
pub mod Outcome
use oscillink_agent.Base.{
  ℕ, zero, suc, ◌+◌, ◌-◌, Bool, true, false, not, ◌&&◌, ◌||◌, Option, none, some, List, [], ◌∷◌,
  ◌++◌, map, select, ltb, leb, ◌==◌, nat_eq, list_eq, Result, ok, err, Action, if◌then◌else◌,
}

-- A database: its `PRAGMA user_version`, and what else is in it.
pub record Database (Content : Type 0) : Type 0 where
  pub version : ℕ
  pub content : Content

pub data MigrationError : Type 0 where
  no_transition incompatible_schema invalid_arguments no_database newer_schema : MigrationError
  incomplete_sequence backup_failed unrecorded_version failed_integrity raised : MigrationError

-- `MigrationStep`; `none` stands for what `apply` raises
pub record MigrationStep (Content : Type 0) : Type 0 where
  pub target_version : ℕ
  pub apply : Database Content → Option (Database Content)

-- The files: the database, and the backups, oldest first.
pub record Files (Content : Type 0) : Type 0 where
  pub database : Option (Database Content)
  pub backups : List (Database Content)

-- `range(first, first + n)`
unfoldable pub versions_from : ℕ → ℕ → List ℕ
versions_from first zero = []
versions_from first (suc n) = first ∷ versions_from (first + 1) n

module _ {Content : Type 0} where
  -- `_set_schema_version`
  unfoldable pub set_schema_version :
      ℕ → Database Content → Result MigrationError (Database Content)
  set_schema_version v d =
      if v == 1 || v == 2 then ok (record d { version = v }) else err no_transition

  -- `require_compatible_schema`
  unfoldable pub require_compatible_schema : ℕ → Database Content → Result MigrationError ℕ
  require_compatible_schema current d =
      if d.version == 0 || d.version == current then ok d.version else err incompatible_schema

  -- `record_current_schema`
  unfoldable pub record_current_schema :
      ℕ → Database Content → Result MigrationError (Database Content)
  unfolding set_schema_version
  record_current_schema current d = set_schema_version current d

  -- `applicable`
  unfoldable pub applicable_steps :
      ℕ → ℕ → List (MigrationStep Content) → List (MigrationStep Content)
  applicable_steps current target steps =
      select (λ s. ltb current s.target_version && leb s.target_version target) steps

  abbrev pub then_set : ℕ → Option (Database Content) → Result MigrationError (Database Content)
  then_set v none = err raised
  then_set v (some d) = set_schema_version v d

  -- The loop over the steps, in its transaction.
  unfoldable pub apply_steps :
      List (MigrationStep Content) → Database Content → Result MigrationError (Database Content)
  unfolding set_schema_version
  apply_steps [] d = ok d
  apply_steps (s ∷ rest) d = elim (then_set s.target_version (s.apply d)) [
    | err x ↦ err x
    | ok next ↦ apply_steps rest next
  ]

  -- `integrity` is whether `PRAGMA integrity_check` answers "ok" on a database.
  module _ (integrity : Database Content → Bool) where
    abbrev pub Call : Type 0
    Call = Action (Files Content) MigrationError (Option (Database Content))

    -- From the commit on.
    unfoldable pub committed :
        ℕ → Database Content → Result MigrationError (Database Content) → Call
    committed target backup (err x) files = (err x, files)
    committed target backup (ok d) files =
        let files' = record files { database = some d } in
        if not (d.version == target)
        then (err unrecorded_version, files')
        else if not (integrity d)
        then (err failed_integrity, files')
        else (ok (some backup), files')

    -- From the backup on; the copy stays where it fails its check.
    unfoldable pub migrate_with : ℕ → List (MigrationStep Content) → Database Content → Call
    unfolding committed apply_steps
    migrate_with target steps d files =
        let files' = record files { backups = files.backups ++ d ∷ [] } in
        if integrity d
        then committed target d (apply_steps steps d) files'
        else (err backup_failed, files')

    unfoldable pub migrate_open :
        ℕ → List (MigrationStep Content) → Option (Database Content) → Call
    unfolding migrate_with applicable_steps versions_from
    migrate_open target steps none files = (err no_database, files)
    migrate_open target steps (some d) files =
        let applicable = applicable_steps d.version target steps in
        if ltb target d.version
        then (err newer_schema, files)
        else if d.version == target
        then (ok none, files)
        else if map (λ s. s.target_version) applicable
            == versions_from (d.version + 1) (target - d.version)
        then migrate_with target applicable d files
        else (err incomplete_sequence, files)

    -- `apply_sqlite_migrations`; `named` is whether the store name is not empty
    unfoldable pub apply_sqlite_migrations : Bool → ℕ → List (MigrationStep Content) → Call
    unfolding migrate_open
    apply_sqlite_migrations named target steps files =
        if not named || ltb target 1
        then (err invalid_arguments, files)
        else migrate_open target steps files.database files
