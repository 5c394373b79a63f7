-- ===== src/Store/Postgres/Opening.antt =====
-- internal/store/postgres.go: OpenPostgres and Migrate. The pool's configuration and its calls, the
-- embedded files, sort.Strings and the execution of a statement are parameters.
pub mod Migrated
use service_reliability_watc.Common.{Bool, true, false, Option, none, some, List, [], ◌∷◌, ◌++◌}
use service_reliability_watc.Common.Text.{Text, codes}
use service_reliability_watc.Common.Result.{Result, ok, err}

-- How the calls of one OpenPostgres end.
pub record Opening : Type 0 where
  pub parse_config : Option Text
  pub new_pool : Option Text
  pub ping : Option Text

pub data PoolAction : Type 0 where
  opens_pool pings closes_pool : PoolAction

-- After pgxpool.NewWithConfig.
unfoldable pub connected : Option Text → List PoolAction × Result Text (Unit {0})
connected none = (opens_pool ∷ pings ∷ [], ok tt)
connected (some e) =
    (opens_pool ∷ pings ∷ closes_pool ∷ [], err (codes "connect to PostgreSQL: " ++ e))

unfoldable pub open_postgres : Opening → List PoolAction × Result Text (Unit {0})
unfolding connected
open_postgres o = elim o.parse_config [
  | some e ↦ ([], err (codes "parse PostgreSQL URL: " ++ e))
  | none ↦ elim o.new_pool [
    | some e ↦ ([], err (codes "open PostgreSQL pool: " ++ e))
    | none ↦ connected o.ping
  ]
]

-- A directory entry: its name, and IsDir.
pub record Entry : Type 0 where
  pub name : Text
  pub is_dir : Bool

pub record Migrations (D : Type 0) : Type 0 where
  pub read_dir : Result Text (List Entry)
  pub read_file : Text → Result Text Text
  pub sort_strings : List Text → List Text
  -- pool.Exec: the database afterwards, and the error.
  pub exec : Text → D → D × Option Text

-- The first loop of Migrate.
unfoldable pub file_names : List Entry → List Text
file_names [] = []
file_names (e ∷ es) = elim e.is_dir [ true ↦ file_names es | false ↦ e.name ∷ file_names es ]

module _ {D : Type 0} (m : Migrations D) where
  -- The second loop.
  unfoldable pub apply_all : List Text → D → D × Result Text (Unit {0})
  apply_all [] db = (db, ok tt)
  apply_all (name ∷ names) db = elim (m.read_file name) [
    | err e ↦ (db, err (codes "read migration " ++ name ++ codes ": " ++ e))
    | ok content ↦
        let (next, failure) = m.exec content db in
        let rest = apply_all names next in
        elim failure [
          | some e ↦ (next, err (codes "apply migration " ++ name ++ codes ": " ++ e))
          | none ↦ rest
        ]
  ]

  unfoldable pub migrate : D → D × Result Text (Unit {0})
  unfolding apply_all file_names
  migrate db = elim m.read_dir [
    | err e ↦ (db, err (codes "list migrations: " ++ e))
    | ok entries ↦ apply_all (m.sort_strings (file_names entries)) db
  ]
