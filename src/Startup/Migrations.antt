-- ===== src/Startup/Migrations.antt =====
-- backend/src/role_builder/migrations.py. The advisory lock leaves no trace in the tables: a run has
-- the database for itself.
pub mod Rerun
use Prim.Native.String.{compare}
use Prim.Native.Nat.{Ordering}
use roles.Prelude.{
  ℕ, String, Bool, true, false, not, ◌&&◌, ◌==◌, nat_eq, string_eq, if◌then◌else◌, Option, some,
  none, List, [], ◌∷◌, ◌++◌, map, any_where, select_where, order_by,
}
use roles.Cookies.Texts.{Text, is_space, all_of, splitlines}

-- An entry of the directory; the code reads the text of a file only when it applies it.
pub record Entry : Type 0 where
  pub name : String
  pub is_file : Bool
  pub sql : Text

-- The pattern of the names, and what PostgreSQL makes of a text: `none` is its error. The rest of the
-- tables is of any type.
pub record Server : Type 1 where
  pub Schema : Type 0
  pub execute : Text → Schema → Option Schema
  pub is_migration_name : String → Bool

abbrev pub name_before : String → String → Bool
name_before a b = elim (compare a b) [ Ordering.lt ↦ true | _ ↦ false ]

-- line.split("--", 1)[0]
abbrev pub before_mark : Text → Text
before_mark [] = []
before_mark (c ∷ []) = c ∷ []
before_mark (c ∷ d ∷ cs) = if c == 45 && d == 45 then [] else c ∷ before_mark (d ∷ cs)

abbrev pub are_blank : List Text → Bool
are_blank [] = true
are_blank (l ∷ ls) = all_of is_space (before_mark l) && are_blank ls

unfoldable pub is_blank_sql : Text → Bool
is_blank_sql sql = are_blank (splitlines sql)

module _ (S : Server) where
  unfoldable pub list_migration_files : List Entry → List Entry
  list_migration_files entries =
      order_by (λ a b. name_before a.name b.name)
        (select_where (λ e. e.is_file && S.is_migration_name e.name) entries)

  -- `versions` is the table schema_migrations; `none` where it does not exist.
  pub record State : Type 0 where
    pub schema : S.Schema
    pub versions : Option (List String)

  abbrev pub versions_of : State → List String
  versions_of s = elim s.versions [ none ↦ [] | some vs ↦ vs ]

  unfoldable pub create_table : State → State
  create_table s = record s { versions = some (versions_of s) }

  abbrev pub is_applied : List String → String → Bool
  is_applied versions name = any_where (λ v. v == name) versions

  -- INSERT INTO schema_migrations: the version is the primary key.
  abbrev pub insert_version : String → State → Option S.Schema → Option State
  insert_version name s none = none
  insert_version name s (some schema) =
      if is_applied (versions_of s) name
      then none
      else some (record { schema = schema; versions = some (versions_of s ++ name ∷ []) })

  -- The transaction; `none` is an exception, and leaves the state as it was.
  unfoldable pub apply_file : Entry → State → Option State
  apply_file f s =
      insert_version f.name s
        (if is_blank_sql f.sql then some s.schema else S.execute f.sql s.schema)

  -- A file and what is left of the run behind it, from the state it leaves.
  abbrev pub with_name : String → Option (List String) × State → Option (List String) × State
  with_name name (none, s) = (none, s)
  with_name name (some vs, s) = (some (name ∷ vs), s)

  abbrev pub after_file :
      String
      → State
      → (State → Option (List String) × State)
      → Option State
      → Option (List String) × State
  after_file name s rest none = (none, s)
  after_file name s rest (some s') = with_name name (rest s')

  -- `already` is read once, before the loop.
  unfoldable pub run_files : List String → List Entry → State → Option (List String) × State
  run_files already [] s = (some [], s)
  run_files already (f ∷ fs) s = elim (is_applied already f.name) [
    | true ↦ run_files already fs s
    | false ↦ after_file f.name s (λ s'. run_files already fs s') (apply_file f s)
  ]

  -- The versions applied; `none` is an exception.
  unfoldable pub run_migrations : List Entry → State → Option (List String) × State
  unfolding run_files
  run_migrations entries s =
      let s' = create_table s in run_files (versions_of s') (list_migration_files entries) s'
