-- ===== src/Tests/Migrations.antt =====
-- The theorem about migrations, applied to a database of version zero and two steps.
use oscillink_agent.Base.{ℕ, ◌+◌, ◌⊎◌, Bool, true, some, List, [], ◌∷◌}
use oscillink_agent.Migrations.{Database, MigrationStep, Files, apply_sqlite_migrations}
use oscillink_agent.Migrations.Outcome.{Stayed, Moved, migrate-cases}

abbrev adding : ℕ → ℕ → MigrationStep ℕ
adding version amount = record {
  target_version = version;
  apply = λ d. some (record d { content = d.content + amount });
}

abbrev steps : List (MigrationStep ℕ)
steps = adding 1 10 ∷ adding 2 5 ∷ []

abbrev files : Files ℕ
files = record { database = some (record { version = 0; content = 7 }); backups = [] }

abbrev is_sound : Database ℕ → Bool
is_sound d = true

migrate-cases_example :
    Stayed is_sound 2 steps files (apply_sqlite_migrations is_sound true 2 steps files)
    ⊎ Moved is_sound 2 steps files (apply_sqlite_migrations is_sound true 2 steps files)
migrate-cases_example = migrate-cases is_sound 2 steps files true
