-- ===== src/Migration.antt =====
-- cmd/migration-tool/main.go and migration_dummy.go. Over a state of its own, since what a tool
-- changes is not said; whether the service runs is systemd's to say.
pub mod Selected
use casa_os_user_service.Common.{
  Bool, true, false, not, Option, none, some, List, [], ◌∷◌, if◌then◌else◌,
}
use casa_os_user_service.Common.Text.{Text}
use casa_os_user_service.Disk.{Result, ok, err}

pub record MigrationTool (S : Type 0) : Type 0 where
  pub is_migration_needed : S → Result Bool
  pub pre_migrate : S → Result (Unit {0}) × S
  pub migrate : S → Result (Unit {0}) × S
  pub post_migrate : S → Result (Unit {0}) × S

pub record Flags : Type 0 where
  pub version : Bool
  pub force : Bool

pub data Migrated (S : Type 0) : Type 0 where
  version_printed : Migrated S
  not_root : Migrated S
  still_running : Migrated S
  panicked : Text → S → Migrated S
  nothing_needed : S → Migrated S
  post_failed : Text → S → Migrated S
  migrated : S → Migrated S

module _ (S : Type 0) where
  -- The first tool that is needed, if the tools before it could tell.
  abbrev pub tool_asked :
      MigrationTool S
      → Result Bool
      → Result (Option (MigrationTool S))
      → Result (Option (MigrationTool S))
  tool_asked tool (err e) rest = err e
  tool_asked tool (ok true) rest = ok (some tool)
  tool_asked tool (ok false) rest = rest

  unfoldable pub selected_migration_tool :
      List (MigrationTool S) → S → Result (Option (MigrationTool S))
  selected_migration_tool [] s = ok none
  selected_migration_tool (tool ∷ tools) s =
      tool_asked tool (tool.is_migration_needed s) (selected_migration_tool tools s)

  abbrev pub after_post : Result (Unit {0}) × S → Migrated S
  after_post (err e, s) = post_failed e s
  after_post (ok _, s) = migrated s

  abbrev pub after_migrate : MigrationTool S → Result (Unit {0}) × S → Migrated S
  after_migrate tool (err e, s) = panicked e s
  after_migrate tool (ok _, s) = after_post (tool.post_migrate s)

  abbrev pub after_pre : MigrationTool S → Result (Unit {0}) × S → Migrated S
  after_pre tool (err e, s) = panicked e s
  after_pre tool (ok _, s) = after_migrate tool (tool.migrate s)

  abbrev pub with_tool : S → Result (Option (MigrationTool S)) → Migrated S
  with_tool s (err e) = panicked e s
  with_tool s (ok none) = nothing_needed s
  with_tool s (ok (some tool)) = after_pre tool (tool.pre_migrate s)

  abbrev pub running_checked : Bool → Result Bool → List (MigrationTool S) → S → Migrated S
  running_checked true running tools s = with_tool s (selected_migration_tool tools s)
  running_checked false (err e) tools s = panicked e s
  running_checked false (ok true) tools s = still_running
  running_checked false (ok false) tools s = with_tool s (selected_migration_tool tools s)

  -- Whether the user is root, and what systemd says of the service.
  unfoldable pub main : Flags → Bool → Result Bool → List (MigrationTool S) → S → Migrated S
  main flags root running tools s =
      if flags.version
      then version_printed
      else if not root
      then not_root
      else running_checked flags.force running tools s

  -- `NewMigrationDummy`
  abbrev pub migration_dummy : MigrationTool S
  migration_dummy = record {
    is_migration_needed = λ s. ok false;
    pre_migrate = λ s. (ok tt, s);
    migrate = λ s. (ok tt, s);
    post_migrate = λ s. (ok tt, s);
  }

  abbrev pub migration_tools : List (MigrationTool S)
  migration_tools = migration_dummy ∷ []
