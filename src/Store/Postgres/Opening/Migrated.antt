-- ===== src/Store/Postgres/Opening/Migrated.antt =====
-- internal/store/postgres.go: which migrations Migrate applies, and in which order.
use service_reliability_watc.Common.{
  map, keep, not, Bool-cases, Option-cases, ◌≡◌, subst, refl, ap, sym, ◌⊎◌, inl, inr, none, some,
  List, [], ◌∷◌, ◌++◌,
}
use service_reliability_watc.Common.Text.{Text, codes}
use service_reliability_watc.Common.Result.{Result, ok, err, Result-cases}
use service_reliability_watc.Store.Postgres.Opening.{
  Migrations, Entry, file_names, apply_all, migrate,
}

module _ {D : Type 0} (m : Migrations D) where
  -- The files of the names, applied in turn without an error, take one database to another.
  pub data Applied : List Text → D → D → Type 0 where
    nothing : (db : D) → Applied [] db db
    applies :
        {names : List Text} {before next after : D}
        → (name text : Text) → m.read_file name ≡ ok text
        → m.exec text before ≡ (next, none)
        → Applied names next after
        → Applied (name ∷ names) before after

  -- The file of the name cannot be read, or its execution fails: the database then, and the error.
  pub data Fails (name : Text) (before : D) : D → Text → Type 0 where
    unread :
        (e : Text)
        → m.read_file name ≡ err e
        → Fails name before before (codes "read migration " ++ name ++ codes ": " ++ e)
    refused :
        (text e : Text) (after : D)
        → m.read_file name ≡ ok text
        → m.exec text before ≡ (after, some e)
        → Fails name before after (codes "apply migration " ++ name ++ codes ": " ++ e)

  -- What the loop over the names may do: apply them all, or fail at one of them, with those before it
  -- applied and those after it not looked at.
  abbrev pub Loop : List Text → D → D × Result Text (Unit {0}) → Type 0
  Loop names before (after, ok u) = Applied names before after
  Loop names before (after, err e) =
      (left right : List Text) × (name : Text) × (middle : D) × (names ≡ left ++ name ∷ right)
      × Applied left before middle
      × Fails name middle after e

  Loop-cons :
      (name text : Text) (names : List Text) (before next : D) (answer : D × Result Text (Unit {0}))
      → m.read_file name ≡ ok text
      → m.exec text before ≡ (next, none)
      → Loop names next answer
      → Loop (name ∷ names) before answer
  Loop-cons name text names before next (after, ok u) r x l = applies name text r x l
  Loop-cons name text names before next (after, err e) r x (left, right, bad, middle, s, a, f) =
      (name ∷ left, right, bad, middle, ap (λ xs. name ∷ xs) s, applies name text r x a, f)

  apply_all-Loop : (names : List Text) (before : D) → Loop names before (apply_all m names before)
  unfolding apply_all
  apply_all-Loop [] before = nothing before
  apply_all-Loop (name ∷ names) before = elim (Result-cases (m.read_file name)) [
    | inl (e, r) ↦ rw (r, apply_all) ([], names, name, before, refl, nothing before, unread e r)
    | inr (text, r) ↦
        let next = (m.exec text before).0 in
        elim (Option-cases (m.exec text before).1) [
          | inl done ↦
              rw (r, done, apply_all)
                (Loop-cons name text names before next _ r (ap (λ x. (next, x)) done)
                  (apply_all-Loop names next))
          | inr (e, failed) ↦
              rw (r, failed, apply_all)
                (
                  [],
                  names,
                  name,
                  before,
                  refl,
                  nothing before,
                  refused text e next r (ap (λ x. (next, x)) failed),
                )
        ]
  ]

  -- The files of a directory, its directories left out, as sort.Strings orders them.
  abbrev pub sorted_files : List Entry → List Text
  sorted_files entries = m.sort_strings (map (λ e. e.name) (keep (λ e. not e.is_dir) entries))

  -- What a run of Migrate on a database may end in.
  abbrev pub Migrated : D → D × Result Text (Unit {0}) → Type 0
  Migrated db answer =
      ((e : Text) × (m.read_dir ≡ err e)
        × ◌≡◌ {A = D × Result Text (Unit {0})} answer (db, err (codes "list migrations: " ++ e)))
      ⊎ ((entries : List Entry) × (m.read_dir ≡ ok entries) × Loop (sorted_files entries) db answer)

  file_names-keep :
      (entries : List Entry)
      → file_names entries ≡ map (λ e. e.name) (keep (λ e. not e.is_dir) entries)
  unfolding file_names
  file_names-keep [] = refl
  file_names-keep (e ∷ es) = elim (Bool-cases e.is_dir) [
    | inl dir ↦ rw (dir, file_names) (file_names-keep es)
    | inr file ↦ rw (file, file_names) (ap (λ names. e.name ∷ names) (file_names-keep es))
  ]

  migrate-listed :
      (entries : List Entry) (db : D)
      → m.read_dir ≡ ok entries
      → migrate m db ≡ apply_all m (sorted_files entries) db
  unfolding migrate
  migrate-listed entries db r = rw (r, migrate, file_names-keep entries) refl

  migrate-unlisted :
      (e : Text) (db : D)
      → m.read_dir ≡ err e
      → ◌≡◌ {A = D × Result Text (Unit {0})}
          (migrate m db)
          (db, err (codes "list migrations: " ++ e))
  unfolding migrate
  migrate-unlisted e db r = rw (r, migrate) refl

  -- Migrate leaves the database alone where the directory cannot be listed. Otherwise it goes over the
  -- files of the directory in the order of sort.Strings: where it succeeds, each was read and
  -- executed without an error, one after another; where it fails, the error names a file that could
  -- not be read or whose execution failed, every file before it was executed without an error, and the
  -- database is as that execution left it, so that no later file was executed.
  pub migrate-Migrated : (db : D) → Migrated db (migrate m db)
  migrate-Migrated db = elim (Result-cases m.read_dir) [
    | inl (e, r) ↦ inl (e, r, migrate-unlisted e db r)
    | inr (entries, r) ↦ inr (
      entries,
      r,
      subst (Loop (sorted_files entries) db) (sym (migrate-listed entries db r))
          (apply_all-Loop (sorted_files entries) db),
    )
  ]
