-- ===== src/Examples/Migrations.antt =====
-- A directory of two migrations, run on an empty database and on one with a table of users.
use jd_shop_server.Common.{
  ◌≡◌, refl, String, Bool, true, false, none, some, List, [], ◌∷◌, if◌then◌else◌,
}
use jd_shop_server.Repository.Migrations.{
  Engine, Store, Entry, listed, is_prefix, has_suffix, remove_first, precedes, place,
  migration_files, ◌>>=◌, schedule, statement, transaction, is_applied, insert_version,
  insert_or_ignore, read_file, read_dir, schema_object_exists, column_exists, reconcile_artifact,
  reconcile_artifacts, reconcile_phone, reconcile_existing_migrations, execute, execute_loose,
  script_of, apply_new, apply_file, apply_files, run_migrations,
}
use jd_shop_server.Repository.Migrations.Reruns.{all_applied}
use jd_shop_server.Repository.Migrations.Finished.{run_migrations-again}
use jd_shop_server.Repository.Migrations.Skipped.{run_migrations-changed}

-- The tables by their names; a script names the table that it makes.
abbrev engine : Engine (List String)
engine = record {
  script = λ script tables. if listed script tables then none else some (script ∷ tables);
  loose_script = λ script tables. (true, script ∷ tables);
  object_exists = λ kind name tables. listed name tables;
  columns = λ table tables. [];
}

abbrev entries : List Entry
entries =
    record { name = "006_announcement_delivery.sql"; is_dir = false; content = some "targets" }
    ∷ record { name = "README.md"; is_dir = false; content = none }
    ∷ record { name = "001_init.sql"; is_dir = false; content = some "users" }
    ∷ []

abbrev empty : Store (List String)
empty = record { tables = []; applied = []; faults = [] }

abbrev migrated : Store (List String)
migrated = record {
  tables = "targets" ∷ "users" ∷ [];
  applied = "006_announcement_delivery.sql" ∷ "001_init.sql" ∷ [];
  faults = [];
}

empty-migrated : run_migrations engine (some entries) empty ≡ (some tt, migrated)
unfolding listed is_prefix has_suffix remove_first precedes place migration_files ◌>>=◌ schedule
    statement transaction is_applied insert_version insert_or_ignore read_file read_dir
    schema_object_exists column_exists reconcile_artifact reconcile_artifacts reconcile_phone
    reconcile_existing_migrations execute execute_loose script_of apply_new apply_file apply_files
    run_migrations
empty-migrated = refl

run_migrations-again_example :
    (listing : List Entry) × (some entries ≡ some listing)
    × (all_applied (migration_files listing) migrated.applied ≡ true)
    × ((run_migrations engine (some entries) (record migrated { faults = true ∷ [] })).1.tables
        ≡ migrated.tables)
    × ((run_migrations engine (some entries) (record migrated { faults = [] })).0 ≡ some tt)
run_migrations-again_example =
    run_migrations-again engine (some entries) empty empty-migrated (true ∷ [])

-- What a first script that fails halfway leaves.
abbrev halfway : Store (List String)
halfway = record { tables = "users" ∷ []; applied = []; faults = [] }

abbrev nothing : String → List String → Bool × List String
nothing script tables = (true, tables)

halfway_users : engine.object_exists "table" "users" halfway.tables ≡ true
unfolding listed
halfway_users = refl

run_migrations-changed_example :
    run_migrations engine (some entries) halfway
    ≡ run_migrations (record engine { loose_script = nothing }) (some entries) halfway
run_migrations-changed_example =
    run_migrations-changed engine nothing (some entries) halfway halfway_users
