-- ===== src/Migrations/Outcome.antt =====
-- How a migration ends (storage/migrations/__init__.py).
use oscillink_agent.Base.{
  ℕ, zero, suc, ◌+◌, ◌-◌, ◌<◌, ap, ◌≡◌, ◌⊎◌, inl, inr, refl, sym, ◌∙◌, Bool, true, false, not, ◌||◌,
  Option, none, some, List, [], ◌∷◌, ◌++◌, map, arith, ltb, ◌==◌, nat_eq, list_eq, Result, ok, err,
  Bool-cases, if◌then◌else◌,
}
use oscillink_agent.Migrations.{
  Database, MigrationError, backup_failed, no_database, invalid_arguments, newer_schema,
  incomplete_sequence, failed_integrity, MigrationStep, Files, set_schema_version, then_set,
  versions_from, applicable_steps, apply_steps, committed, migrate_with, migrate_open,
  apply_sqlite_migrations,
}

module _ {Content : Type 0} (integrity : Database Content → Bool) where
  -- The database was migrated by exactly the versions between, and copied before.
  pub record Migrated (target : ℕ) (steps : List (MigrationStep Content))
      (before : Database Content) (files files' : Files Content) : Type 0 where
    pub after : Database Content
    pub older : ltb before.version target ≡ true
    pub contiguous :
        map (λ s. s.target_version) (applicable_steps before.version target steps)
        ≡ versions_from (before.version + 1) (target - before.version)
    pub applied : apply_steps (applicable_steps before.version target steps) before ≡ ok after
    pub at_target : after.version ≡ target
    pub replaced : files'.database ≡ some after
    pub copied : files'.backups ≡ files.backups ++ before ∷ []

  tail_same : {x y : ℕ} {xs ys : List ℕ} → x ∷ xs ≡ y ∷ ys → (x ≡ y) × (xs ≡ ys)
  tail_same e = (ground arith, ground arith)

  then_set-version :
      (v : ℕ) (o : Option (Database Content)) (next : Database Content)
      → then_set v o ≡ ok next
      → next.version ≡ v
  unfolding set_schema_version
  then_set-version v none next h = absurd (ground arith)
  then_set-version v (some d) next h = ground arith

  stepped :
      (r : Result MigrationError (Database Content)) (rest : List (MigrationStep Content))
      (d' : Database Content)
      → elim r [ err x ↦ err x | ok next ↦ apply_steps rest next ] ≡ ok d'
      → (next : Database Content) × (r ≡ ok next) × (apply_steps rest next ≡ ok d')
  stepped (err x) rest d' h = absurd (ground arith)
  stepped (ok next) rest d' h = (next, refl, h)

  -- Steps for consecutive versions end at the last.
  apply_steps-version :
      (xs : List (MigrationStep Content)) (n v : ℕ) (d d' : Database Content)
      → map (λ s. s.target_version) xs ≡ versions_from (v + 1) n
      → d.version ≡ v
      → apply_steps xs d ≡ ok d'
      → d'.version ≡ v + n
  unfolding apply_steps versions_from
  apply_steps-version [] zero v d d' same at h =
      let done : d ≡ d' = ground arith in rw (sym done) (omega (arith, at))
  apply_steps-version [] (suc n) v d d' same at h = absurd (ground arith)
  apply_steps-version (s ∷ xs) zero v d d' same at h = absurd (ground arith)
  apply_steps-version (s ∷ xs) (suc n) v d d' same at h =
      let (target, rest) = tail_same same in
      let (next, set, later) = stepped (then_set s.target_version (s.apply d)) xs d' h in
      let here = then_set-version s.target_version (s.apply d) next set in
      let last = apply_steps-version xs n (v + 1) next d' rest (here ∙ target) later in
      omega (arith, last)

  module _ (target : ℕ) (backup : Database Content) (files files' : Files Content) where
    committed-ok :
        (x : Result MigrationError (Database Content)) (r : Option (Database Content))
        → committed integrity target backup x files ≡ (ok r, files')
        → (after : Database Content) × (x ≡ ok after)
          × (after.version ≡ target)
          × (r ≡ some backup)
          × (files' ≡ record files { database = some after })
    unfolding committed
    committed-ok (err e) r h = absurd (ground arith)
    committed-ok (ok after) r h = (after, refl, ground arith, ground arith, ground arith)

    committed-err :
        (x : Result MigrationError (Database Content)) (e : MigrationError)
        → committed integrity target backup x files ≡ (err e, files')
        → (files' ≡ files)
          ⊎ ((after : Database Content) × (x ≡ ok after)
              × (after.version ≡ target → e ≡ failed_integrity)
              × (files' ≡ record files { database = some after }))
    unfolding committed
    committed-err (err y) e h = inl (ground arith)
    committed-err (ok after) e h = inr (after, refl, λ at. ground arith, ground arith)

  module _ (target : ℕ) (steps : List (MigrationStep Content)) (files : Files Content) where
    abbrev copied_files : Database Content → Files Content
    copied_files d = record files { backups = files.backups ++ d ∷ [] }

    abbrev applied_to : Database Content → Result MigrationError (Database Content)
    applied_to d = apply_steps (applicable_steps d.version target steps) d

    abbrev IsContiguous : Database Content → Type 0
    IsContiguous d =
        map (λ s. s.target_version) (applicable_steps d.version target steps)
        ≡ versions_from (d.version + 1) (target - d.version)

    -- Where a call goes, by the tests on the version: it stops and changes nothing, or it migrates.
    migrate_open-cases :
        (d : Database Content)
        (x : Result MigrationError (Option (Database Content)) × Files Content)
        → migrate_open integrity target steps (some d) files ≡ x
        → ((d.version ≡ target) × (x ≡ (ok none, files)))
          ⊎ (((e : MigrationError) × (x ≡ (err e, files)))
              ⊎ ((ltb d.version target ≡ true)
                  × IsContiguous d
                  × (migrate_with integrity target (applicable_steps d.version target steps) d files
                      ≡ x)))
    unfolding migrate_open
    migrate_open-cases d x h = elim (Bool-cases (ltb target d.version)) [
      | inl newer ↦ inr (inl (newer_schema, ground (arith, newer)))
      | inr up ↦ elim (Bool-cases (d.version == target)) [
        | inl there ↦ inl (ground (arith, there), ground (arith, up, there))
        | inr away ↦
            elim (Bool-cases (
              map (λ s. s.target_version) (applicable_steps d.version target steps)
              == versions_from (d.version + 1) (target - d.version))) [
                | inl whole ↦ inr (
                    inr (
                      ground (arith, up, away),
                      ground (arith, whole),
                      ground (arith, up, away, whole),
                    ))
                | inr gaps ↦ inr (inl (incomplete_sequence, ground (arith, up, away, gaps)))
              ]
      ]
    ]

    migrate_with-cases :
        (d : Database Content) (xs : List (MigrationStep Content))
        (x : Result MigrationError (Option (Database Content)) × Files Content)
        → migrate_with integrity target xs d files ≡ x
        → ((e : MigrationError) × (x ≡ (err e, copied_files d)))
          ⊎ (committed integrity target d (apply_steps xs d) (copied_files d) ≡ x)
    unfolding migrate_with
    migrate_with-cases d xs x h = elim (Bool-cases (integrity d)) [
      | inl sound ↦ inr (ground (arith, sound))
      | inr broken ↦ inl (backup_failed, ground (arith, broken))
    ]

    order_of : (d : Database Content) → ltb d.version target ≡ true → d.version < target
    order_of d h = ground (arith, h)

    abbrev Answer : Type 0
    Answer = Result MigrationError (Option (Database Content)) × Files Content

    -- The database is what it was: the call raised, or found it at the target and did nothing.
    abbrev pub Stayed : Answer → Type 0
    Stayed x =
        (x.1.database ≡ files.database)
        × (((e : MigrationError) × (x.0 ≡ err e))
            ⊎ ((before : Database Content) × (files.database ≡ some before)
                × (before.version ≡ target)
                × (x ≡ (ok none, files))))

    -- The database was migrated, and the call returned its backup, or its last check failed.
    abbrev pub Moved : Answer → Type 0
    Moved x =
        (before : Database Content) × (files.database ≡ some before)
        × Migrated target steps before files x.1
        × ((x.0 ≡ ok (some before)) ⊎ (x.0 ≡ err failed_integrity))

    reached :
        (d after : Database Content)
        → ltb d.version target ≡ true
        → IsContiguous d
        → applied_to d ≡ ok after
        → after.version ≡ target
    reached d after older contiguous applied =
        let last =
          apply_steps-version (applicable_steps d.version target steps) (target - d.version)
            d.version d after contiguous refl applied in
        omega (arith, last, order_of d older)

    moved :
        (d after : Database Content) (files' : Files Content)
        → ltb d.version target ≡ true
        → IsContiguous d
        → applied_to d ≡ ok after
        → files' ≡ record (copied_files d) { database = some after }
        → Migrated target steps d files files'
    moved d after files' older contiguous applied same = record {
      after = after;
      older = older;
      contiguous = contiguous;
      applied = applied;
      at_target = reached d after older contiguous applied;
      replaced = rw same refl;
      copied = rw same refl;
    }

    committed-cases :
        (d : Database Content) (x : Answer)
        → files.database ≡ some d
        → ltb d.version target ≡ true
        → IsContiguous d
        → committed integrity target d (applied_to d) (copied_files d) ≡ x
        → Stayed x ⊎ Moved x
    committed-cases d (ok r, files') there older contiguous h =
        let (after, applied, at, backup, same) =
          committed-ok target d (copied_files d) files' (applied_to d) r h in
        inr (d, there, moved d after files' older contiguous applied same, inl (ap ok backup))
    committed-cases d (err e, files') there older contiguous h =
        elim (committed-err target d (copied_files d) files' (applied_to d) e h) [
          | inl same ↦ inl (rw same refl, inl (e, refl))
          | inr (after, applied, why, same) ↦
              let done = moved d after files' older contiguous applied same in
              inr (d, there, done, inr (ap err (why (reached d after older contiguous applied))))
        ]

    opened-cases :
        (o : Option (Database Content)) (x : Answer)
        → files.database ≡ o
        → migrate_open integrity target steps o files ≡ x
        → Stayed x ⊎ Moved x
    opened-cases none x there h =
        let same : x ≡ (err no_database, files) = sym h ∙ unfold migrate_open in refl in
        inl (rw same refl, inl (no_database, rw same refl))
    opened-cases (some d) x there h = elim (migrate_open-cases d x h) [
      | inl (at, same) ↦ inl (rw same refl, inr (d, there, at, same))
      | inr (inl (e, same)) ↦ inl (rw same refl, inl (e, rw same refl))
      | inr (inr (older, contiguous, more)) ↦
          elim (migrate_with-cases d (applicable_steps d.version target steps) x more) [
            | inl (e, same) ↦ inl (rw same refl, inl (e, rw same refl))
            | inr closes ↦ committed-cases d x there older contiguous closes
          ]
    ]

    guarded-cases :
        (b : Bool) (x : Answer)
        → (if b
            then (err invalid_arguments, files)
            else migrate_open integrity target steps files.database files)
          ≡ x
        → Stayed x ⊎ Moved x
    guarded-cases true x h =
        let same : x ≡ (err invalid_arguments, files) = sym h in
        inl (rw same refl, inl (invalid_arguments, rw same refl))
    guarded-cases false x h = opened-cases files.database x refl h

    -- A migration leaves the database as it was, and then it raised or was at the target already; or
    -- it brought it there by one step for each version between, in order, after a copy was made. Then
    -- it returned the copy, or the check of the integrity at the end failed.
    pub migrate-cases :
        (named : Bool)
        → Stayed (apply_sqlite_migrations integrity named target steps files)
          ⊎ Moved (apply_sqlite_migrations integrity named target steps files)
    unfolding apply_sqlite_migrations
    migrate-cases named =
        guarded-cases (not named || ltb target 1)
          (apply_sqlite_migrations integrity named target steps files) refl
