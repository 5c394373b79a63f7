-- ===== src/Tests/Migrations.antt =====
-- internal/store/postgres.go: a pool that does not answer, and migrations of which the last fails.
use service_reliability_watc.Common.{
  ◌≡◌, refl, Bool, true, false, ltb, ◌==◌, ◌&&◌, ◌||◌, none, some, List, [], ◌∷◌, ◌++◌,
  if◌then◌else◌,
}
use service_reliability_watc.Common.Text.{Text, codes, text_eq}
use service_reliability_watc.Common.Result.{ok, err}
use service_reliability_watc.Store.Postgres.Queries.{order_by, insert_ordered}
use service_reliability_watc.Store.Postgres.Opening.{
  opens_pool, pings, closes_pool, open_postgres, connected, Entry, Migrations, migrate, apply_all,
  file_names,
}
use service_reliability_watc.Store.Postgres.Opening.Migrated.{Migrated, migrate-Migrated}

opens_and_closes :
    open_postgres (record { parse_config = none; new_pool = none; ping = some (codes "refused") })
    ≡ (opens_pool ∷ pings ∷ closes_pool ∷ [], err (codes "connect to PostgreSQL: refused"))
unfolding open_postgres connected
opens_and_closes = refl

abbrev is_before : Text → Text → Bool
is_before [] t = true
is_before (c ∷ s) [] = false
is_before (c ∷ s) (d ∷ t) = ltb c d || (c == d && is_before s t)

abbrev directory : List Entry
directory =
    record { name = codes "002_broken.sql"; is_dir = false }
    ∷ record { name = codes "archive"; is_dir = true }
    ∷ record { name = codes "001_initial.sql"; is_dir = false }
    ∷ []

-- The database is the statements that it has executed; each file holds its own name.
abbrev migrations : Migrations (List Text)
migrations = record {
  read_dir = ok directory;
  read_file = λ name. ok name;
  sort_strings = order_by is_before;
  exec = λ content db.
      if text_eq content (codes "002_broken.sql")
      then (db, some (codes "syntax error"))
      else (db ++ content ∷ [], none);
}

stops_at_the_broken_one :
    migrate migrations []
    ≡ (codes "001_initial.sql" ∷ [], err (codes "apply migration 002_broken.sql: syntax error"))
unfolding migrate apply_all file_names order_by insert_ordered text_eq
stops_at_the_broken_one = refl

migrate-Migrated_example : Migrated migrations [] (migrate migrations [])
migrate-Migrated_example = migrate-Migrated migrations []
