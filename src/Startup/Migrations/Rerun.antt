-- ===== src/Startup/Migrations/Rerun.antt =====
-- A second run of run_migrations of backend/src/role_builder/migrations.py.
use roles.Prelude.{
  String, Bool, string_eq, ◌||◌, Option, some, none, List, ◌++◌, map, ◌≡◌, not, select_where,
}
use roles.Startup.Migrations.{Entry, Server, State, versions_of, is_applied}

-- The names of the files that are not applied yet, in their order.
abbrev pub missing : (S : Server) → List String → List Entry → List String
missing S already fs = map (λ f. f.name) (select_where (λ f. not (is_applied S already f.name)) fs)

module _ (S : Server) where
  -- What a run leaves: without an exception, the versions of the files that were missing are added, in
  -- order.
  abbrev pub IsRun : List String → List Entry → State S → Option (List String) × State S → Type 0
  IsRun already fs s (none, s') = Unit
  IsRun already fs s (some vs, s') =
      (vs ≡ missing S already fs) × (s'.versions ≡ some (versions_of S s ++ vs))

  -- Every file was applied before, or is one of those that were missing.
  is_known : List String → List Entry → Entry → Bool
  is_known already fs f = is_applied S already f.name || is_applied S (missing S already fs) f.name
